-- ===== src/RowVersion/Run.antt =====
-- crates/lightning-core/src/storage/row_version.rs: any sequence of its operations, as transactions that
-- run side by side and the background vacuum interleave them.
use lightning_db.Prelude.{ℕ, ◌≡◌, refl, List, [], ◌∷◌, Result, ok, err, All}
use lightning_db.RowVersion.{
  RowVersion, Conflict, mark_row, commit_row, rollback_row, mark_row_batch, commit_row_batch,
  rollback_row_batch, vacuum,
}
use lightning_db.RowVersion.Shards.{
  IsValid, marked, marked-IsValid, commit_row-IsValid, rollback_row-IsValid,
}
use lightning_db.RowVersion.Batch.{
  commit_rows, rollback_rows, mark_rows, mark_always, commit_row_batch-eq_loop,
  rollback_row_batch-eq_loop, mark_row_batch-eq_loop,
}
use lightning_db.RowVersion.Vacuum.{vacuum-IsValid}
use lightning_db.RowVersion.Conflicts.{mark_row_accepts}

pub data Op : Type 0 where
  marks : ℕ → ℕ → ℕ → Op
  commits : ℕ → ℕ → Op
  rollbacks : ℕ → Op
  marks_range : ℕ → ℕ → ℕ → Op
  commits_range : ℕ → ℕ → ℕ → Op
  rollbacks_range : ℕ → ℕ → Op
  vacuums : ℕ → Op

-- A write that is refused changes nothing.
abbrev pub after : RowVersion → Result Conflict RowVersion → RowVersion
after rv (ok rv') = rv'
after rv (err c) = rv

pub step : RowVersion → Op → RowVersion
step rv (marks row_id tx_id read_ts) = after rv (mark_row rv row_id tx_id read_ts)
step rv (commits row_id ts) = commit_row rv row_id ts
step rv (rollbacks row_id) = rollback_row rv row_id
step rv (marks_range start end tx_id) = mark_row_batch rv start end tx_id
step rv (commits_range start end ts) = commit_row_batch rv start end ts
step rv (rollbacks_range start end) = rollback_row_batch rv start end
step rv (vacuums min) = (vacuum rv min).0

pub run : RowVersion → List Op → RowVersion
run rv [] = rv
run rv (op ∷ ops) = run (step rv op) ops

-- What a sequence may do: the transactions that mark, the timestamps of commits, the horizons.
pub record Limits : Type 1 where
  pub Marks : ℕ → Type 0
  pub Commits : ℕ → Type 0
  pub Vacuums : ℕ → Type 0

abbrev pub Allowed : Limits → Op → Type 0
Allowed l (marks row_id tx_id read_ts) = l.Marks tx_id
Allowed l (commits row_id ts) = l.Commits ts
Allowed l (rollbacks row_id) = Unit
Allowed l (marks_range start end tx_id) = l.Marks tx_id
Allowed l (commits_range start end ts) = l.Commits ts
Allowed l (rollbacks_range start end) = Unit
Allowed l (vacuums min) = l.Vacuums min

-- A property that each operation on one row keeps, and `vacuum`, within the limits.
pub record Kept (l : Limits) (P : RowVersion → Type 0) : Type 0 where
  pub mark :
      (rv : RowVersion) (v : IsValid rv) (row_id tx_id : ℕ)
      → l.Marks tx_id
      → P rv
      → P (marked rv v row_id tx_id)
  pub commit :
      (rv : RowVersion) (v : IsValid rv) (row_id ts : ℕ)
      → l.Commits ts
      → P rv
      → P (commit_row rv row_id ts)
  pub rollback : (rv : RowVersion) (v : IsValid rv) (row_id : ℕ) → P rv → P (rollback_row rv row_id)
  pub purge :
      (rv : RowVersion) (v : IsValid rv) (min : ℕ) → l.Vacuums min → P rv → P (vacuum rv min).0

module _ (l : Limits) (P : RowVersion → Type 0) (k : Kept l P) where
  after_mark :
      (rv : RowVersion) (v : IsValid rv) (row_id tx_id read_ts : ℕ)
      → l.Marks tx_id
      → P rv
      → (r : Result Conflict RowVersion) → mark_row rv row_id tx_id read_ts ≡ r
      → IsValid (after rv r) × P (after rv r)
  after_mark rv v row_id tx_id read_ts a p (err c) e = (v, p)
  after_mark rv v row_id tx_id read_ts a p (ok rv') e =
      rw ((mark_row_accepts rv v row_id tx_id read_ts rv').0 e).2
        (marked-IsValid rv v row_id tx_id, k.mark rv v row_id tx_id a p)

  mark_rows_keeps :
      (rv : RowVersion) (v : IsValid rv) (xs : List ℕ) (tx_id : ℕ)
      → l.Marks tx_id
      → P rv
      → IsValid (mark_rows rv xs tx_id) × P (mark_rows rv xs tx_id)
  unfolding mark_rows
  mark_rows_keeps rv v [] tx_id a p = (v, p)
  mark_rows_keeps rv v (x ∷ xs) tx_id a p =
      mark_rows_keeps (mark_always rv tx_id x) (marked-IsValid rv v x tx_id) xs tx_id a
        (k.mark rv v x tx_id a p)

  commit_rows_keeps :
      (rv : RowVersion) (v : IsValid rv) (xs : List ℕ) (ts : ℕ)
      → l.Commits ts
      → P rv
      → IsValid (commit_rows rv xs ts) × P (commit_rows rv xs ts)
  unfolding commit_rows
  commit_rows_keeps rv v [] ts a p = (v, p)
  commit_rows_keeps rv v (x ∷ xs) ts a p =
      commit_rows_keeps (commit_row rv x ts) (commit_row-IsValid rv v x ts) xs ts a
        (k.commit rv v x ts a p)

  rollback_rows_keeps :
      (rv : RowVersion) (v : IsValid rv) (xs : List ℕ)
      → P rv
      → IsValid (rollback_rows rv xs) × P (rollback_rows rv xs)
  unfolding rollback_rows
  rollback_rows_keeps rv v [] p = (v, p)
  rollback_rows_keeps rv v (x ∷ xs) p =
      rollback_rows_keeps (rollback_row rv x) (rollback_row-IsValid rv v x) xs (k.rollback rv v x p)

  step_keeps :
      (rv : RowVersion) (v : IsValid rv) (op : Op)
      → Allowed l op
      → P rv
      → IsValid (step rv op) × P (step rv op)
  unfolding step
  step_keeps rv v (marks row_id tx_id read_ts) a p =
      after_mark rv v row_id tx_id read_ts a p (mark_row rv row_id tx_id read_ts) refl
  step_keeps rv v (commits row_id ts) a p =
      (commit_row-IsValid rv v row_id ts, k.commit rv v row_id ts a p)
  step_keeps rv v (rollbacks row_id) a p =
      (rollback_row-IsValid rv v row_id, k.rollback rv v row_id p)
  step_keeps rv v (marks_range start end tx_id) a p =
      rw (mark_row_batch-eq_loop rv v start end tx_id) (mark_rows_keeps rv v _ tx_id a p)
  step_keeps rv v (commits_range start end ts) a p =
      rw (commit_row_batch-eq_loop rv v start end ts) (commit_rows_keeps rv v _ ts a p)
  step_keeps rv v (rollbacks_range start end) a p =
      rw (rollback_row_batch-eq_loop rv v start end) (rollback_rows_keeps rv v _ p)
  step_keeps rv v (vacuums min) a p = (vacuum-IsValid rv v min, k.purge rv v min a p)

  pub run_keeps :
      (rv : RowVersion) (v : IsValid rv) (ops : List Op)
      → All (Allowed l) ops
      → P rv
      → IsValid (run rv ops) × P (run rv ops)
  unfolding run
  run_keeps rv v [] a p = (v, p)
  run_keeps rv v (op ∷ ops) (a, as') p =
      let (v', p') = step_keeps rv v op a p in run_keeps (step rv op) v' ops as' p'
