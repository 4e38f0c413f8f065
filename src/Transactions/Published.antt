-- ===== src/Transactions/Published.antt =====
-- crates/lightning-core/src/transaction/transaction_manager.rs, `commit`: what it is for a row to be
-- committed at a timestamp, one by one or as a part of a range.
use lightning_db.Prelude.{
  ℕ, zero, suc, ◌+◌, ◌-◌, ◌≤◌, ◌<◌, ◌≡◌, refl, Bool, true, false, Option, none, some, List, [], ◌∷◌,
  arith, ◌==◌, if◌then◌else◌, set, length, get_or, Bool-cases, inl, inr, All, subst, sym,
  get_or-set, ==_refl, ==_iff, count_up,
}
use lightning_db.RowVersion
use lightning_db.RowVersion.{RowVersion, CommittedVersion, touch, commit_row, commit_row_batch}
use lightning_db.RowVersion.Shards.{
  IsValid, active, history, active-commit_row, history-commit_row, commit_row-IsValid, new-IsValid,
}
use lightning_db.RowVersion.Batch
use lightning_db.RowVersion.Batch.{commit_row_batch-eq_loop, commit_row_batch-IsValid}
use lightning_db.Transactions.{Db, Transaction, table_at, put_table}

abbrev pub AreValid : Db → Type 0
AreValid db = All IsValid db.tables

-- The row is free, and its commits span the timestamp.
abbrev pub Spans : Option CommittedVersion → ℕ → Type 0
Spans none ts = ⊥
Spans (some e) ts = (e.first_ts ≤ ts) × (ts ≤ e.last_ts)

-- The same of a table.
abbrev pub Free : RowVersion → ℕ → ℕ → Type 0
Free rv ts r = (active rv r ≡ none) × Spans (history rv r) ts

abbrev pub IsPublished : Db → ℕ → ℕ × ℕ → Type 0
IsPublished db ts p =
    (active (table_at db p.0) p.1 ≡ none) × Spans (history (table_at db p.0) p.1) ts

pub All-get_or :
    (xs : List RowVersion) (i : ℕ) → All IsValid xs → IsValid (get_or xs i RowVersion.new)
All-get_or [] i h = new-IsValid
All-get_or (x ∷ xs) zero h = h.0
All-get_or (x ∷ xs) (suc i) h = All-get_or xs i h.1

pub All-set :
    (xs : List RowVersion) (i : ℕ) (x : RowVersion)
    → All IsValid xs
    → IsValid x
    → All IsValid (set xs i x)
All-set [] i x h p = tt
All-set (y ∷ xs) zero x h p = (p, h.1)
All-set (y ∷ xs) (suc i) x h p = (h.0, All-set xs i x h.1 p)

touch-Spans :
    (b : Bool) (o : Option CommittedVersion) (ts : ℕ)
    → Spans o ts
    → Spans (if b then some (touch o ts) else o) ts
unfolding touch
touch-Spans b none ts s = absurd s
touch-Spans true (some e) ts s = omega arith
touch-Spans false (some e) ts s = s

touched-Spans : (o : Option CommittedVersion) (ts : ℕ) → Spans (some (touch o ts)) ts
unfolding touch
touched-Spans none ts = omega arith
touched-Spans (some e) ts = omega arith

module _ (rv : RowVersion) (v : IsValid rv) (row_id ts : ℕ) where
  pub commit_row-Free : Free (commit_row rv row_id ts) ts row_id
  commit_row-Free = (
    rw (active-commit_row rv v row_id ts row_id, ==_refl row_id) refl,
    rw (history-commit_row rv v row_id ts row_id, ==_refl row_id)
        (touched-Spans (history rv row_id) ts),
  )

  pub commit_row-keeps : (r : ℕ) → Free rv ts r → Free (commit_row rv row_id ts) ts r
  commit_row-keeps r (a, s) = (
    rw (active-commit_row rv v row_id ts r) (ground (arith, a)),
    rw (history-commit_row rv v row_id ts r) (touch-Spans (row_id == r) (history rv r) ts s),
  )

batch-keeps :
    (rv : RowVersion) (v : IsValid rv) (row_ids : List ℕ) (ts r : ℕ)
    → Free rv ts r
    → Free (Batch.commit_rows rv row_ids ts) ts r
unfolding Batch.commit_rows
batch-keeps rv v [] ts r h = h
batch-keeps rv v (x ∷ row_ids) ts r h =
    batch-keeps (commit_row rv x ts) (commit_row-IsValid rv v x ts) row_ids ts r
      (commit_row-keeps rv v x ts r h)

batch-Free :
    (rv : RowVersion) (v : IsValid rv) (n start ts r : ℕ)
    → start ≤ r
    → r < start + n
    → Free (Batch.commit_rows rv (count_up n start) ts) ts r
unfolding Batch.commit_rows
batch-Free rv v zero start ts r lo hi = absurd (omega arith)
batch-Free rv v (suc n) start ts r lo hi =
    let rv' : RowVersion = commit_row rv start ts in
    let v' : IsValid rv' = commit_row-IsValid rv v start ts in
    elim (Bool-cases (start == r)) [
      | inl e ↦
          subst (λ x. Free (Batch.commit_rows rv' (count_up n (start + 1)) ts) ts x)
            ((==_iff start r).0 e)
            (batch-keeps rv' v' (count_up n (start + 1)) ts start (commit_row-Free rv v start ts))
      | inr e ↦ batch-Free rv' v' n (start + 1) ts r (ground (arith, e)) (omega arith)
    ]

module _ (rv : RowVersion) (v : IsValid rv) (start end ts r : ℕ) where
  pub commit_row_batch-keeps : Free rv ts r → Free (commit_row_batch rv start end ts) ts r
  commit_row_batch-keeps h =
      subst (λ x. Free x ts r) (sym (commit_row_batch-eq_loop rv v start end ts))
        (batch-keeps rv v (count_up (end - start) start) ts r h)

  pub commit_row_batch-Free : start ≤ r → r < end → Free (commit_row_batch rv start end ts) ts r
  commit_row_batch-Free lo hi =
      subst (λ x. Free x ts r) (sym (commit_row_batch-eq_loop rv v start end ts))
        (batch-Free rv v (end - start) start ts r lo (omega arith))

module _ (ts : ℕ) (p : ℕ × ℕ) (db : Db) (t : ℕ) (rv : RowVersion) (fit : t < length db.tables) where
  pub table_at-put_table :
      (u : ℕ) → table_at (put_table db t rv) u ≡ (if t == u then rv else table_at db u)
  table_at-put_table u = get_or-set db.tables t u rv RowVersion.new fit

  -- A table is put in place of one that had the row published.
  pub put_table-keeps :
      (Free (table_at db t) ts p.1 → Free rv ts p.1)
      → IsPublished db ts p
      → IsPublished (put_table db t rv) ts p
  put_table-keeps keep h = elim (Bool-cases (t == p.0)) [
    | inr e ↦ rw (table_at-put_table p.0, e) h
    | inl e ↦
        rw (table_at-put_table p.0, e)
          (keep (subst (λ x. Free (table_at db x) ts p.1) (sym ((==_iff t p.0).0 e)) h))
  ]

  pub put_table-IsPublished : (r : ℕ) → Free rv ts r → IsPublished (put_table db t rv) ts (t, r)
  put_table-IsPublished r h = rw (table_at-put_table t, ==_refl t) h

-- What holds of every row of a list of ranges.
abbrev pub OfRanges : (ℕ × ℕ → Type 0) → List (ℕ × ℕ × ℕ) → Type 0
OfRanges P = All (λ q. (r : ℕ) → q.1 ≤ r → r < q.2 → P (q.0, r))

-- What holds of every row that a transaction has written, one by one or as a part of a range.
abbrev pub EveryRow : (ℕ × ℕ → Type 0) → Transaction → Type 0
EveryRow P tx = All P tx.modified_rows × OfRanges P tx.bulk_row_ranges

-- The tables of the transaction's rows are there.
abbrev pub Fits : Db → Transaction → Type 0
Fits db tx =
    All (λ p. p.0 < length db.tables) tx.modified_rows
    × All (λ q. q.0 < length db.tables) tx.bulk_row_ranges

module _ (P Q : ℕ × ℕ → Type 0) (f : (p : ℕ × ℕ) → P p → Q p) where
  All-map : (xs : List (ℕ × ℕ)) → All P xs → All Q xs
  All-map [] h = tt
  All-map (x ∷ xs) h = (f x h.0, All-map xs h.1)

  pub OfRanges-map : (ranges : List (ℕ × ℕ × ℕ)) → OfRanges P ranges → OfRanges Q ranges
  OfRanges-map [] h = tt
  OfRanges-map (q ∷ ranges) h = (λ r lo hi. f (q.0, r) (h.0 r lo hi), OfRanges-map ranges h.1)

  pub EveryRow-map : (tx : Transaction) → EveryRow P tx → EveryRow Q tx
  EveryRow-map tx h = (All-map tx.modified_rows h.0, OfRanges-map tx.bulk_row_ranges h.1)
