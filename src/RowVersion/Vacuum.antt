-- ===== src/RowVersion/Vacuum.antt =====
-- crates/lightning-core/src/storage/row_version.rs, `vacuum`: what readers and writers at or after the
-- horizon can tell of it.
use lightning_db.Prelude.{
  ℕ, zero, suc, ◌+◌, ◌-◌, ◌≤◌, ◌<◌, ◌≡◌, ◌≢◌, refl, ◌∙◌, ap, true, false, Option, none, some, List,
  [], ◌∷◌, arith, length, get_or, All, Result, ok, err, ◌>>◌,
}
use lightning_db.Prelude.HashMap.{
  and_then, lookup-retain, retain-Distinct, retain, length-retain-le,
}
use lightning_db.RowVersion.{
  RowVersion, Shard, CommittedVersion, Conflict, empty_shard, get_shard_idx, shard_of, mark_row,
  is_visible, visible, vacuum, vacuum_loop, vacuum_shard, keep_recent, active_check,
  committed_check,
}
use lightning_db.RowVersion.Shards.{IsValid, IsDistinct, active, history, shard_of-IsDistinct}

get_or-vacuum_loop :
    (min k : ℕ) (shards : List Shard) (total : ℕ)
    → get_or (vacuum_loop min shards total).0 k empty_shard
      ≡ vacuum_shard min (get_or shards k empty_shard)
unfolding vacuum_loop retain
get_or-vacuum_loop min k [] total = refl
get_or-vacuum_loop min zero (s ∷ shards) total = refl
get_or-vacuum_loop min (suc k) (s ∷ shards) total = get_or-vacuum_loop min k shards _

-- The entries of the whole table.
abbrev pub committed_rows : List Shard → ℕ
committed_rows [] = 0
committed_rows (s ∷ shards) = length s.committed + committed_rows shards

vacuum_loop-total :
    (min : ℕ) (shards : List Shard) (total : ℕ)
    → (vacuum_loop min shards total).1 + committed_rows (vacuum_loop min shards total).0
      ≡ total + committed_rows shards
unfolding vacuum_loop
vacuum_loop-total min [] total = refl
vacuum_loop-total min (s ∷ shards) total =
    let n : ℕ = total + (length s.committed - length (retain (keep_recent min) s.committed)) in
    omega (arith, vacuum_loop-total min shards n, length-retain-le (keep_recent min) s.committed)

length-vacuum_loop :
    (min : ℕ) (shards : List Shard) (total : ℕ)
    → length (vacuum_loop min shards total).0 ≡ length shards
unfolding vacuum_loop
length-vacuum_loop min [] total = refl
length-vacuum_loop min (s ∷ shards) total = ap suc (length-vacuum_loop min shards _)

vacuum_loop-IsDistinct :
    (min : ℕ) (shards : List Shard) (total : ℕ)
    → All IsDistinct shards
    → All IsDistinct (vacuum_loop min shards total).0
unfolding vacuum_loop
vacuum_loop-IsDistinct min [] total d = tt
vacuum_loop-IsDistinct min (s ∷ shards) total d = (
  (d.0.0, retain-Distinct (keep_recent min) s.committed d.0.1),
  vacuum_loop-IsDistinct min shards _ d.1,
)

-- The count that `vacuum` returns is the number of entries that the table has lost.
vacuum-count :
    (rv : RowVersion) (min : ℕ)
    → (vacuum rv min).1 + committed_rows (vacuum rv min).0.shards ≡ committed_rows rv.shards
unfolding vacuum
vacuum-count rv min = omega (arith, vacuum_loop-total min rv.shards 0)

module _ (rv : RowVersion) (v : IsValid rv) (min : ℕ) where
  pub vacuum-IsValid : IsValid (vacuum rv min).0
  unfolding vacuum
  vacuum-IsValid = record {
    all_shards = length-vacuum_loop min rv.shards 0 ∙ v.all_shards;
    some_shard = v.some_shard;
    distinct = vacuum_loop-IsDistinct min rv.shards 0 v.distinct;
  }

  pub active-vacuum : (j : ℕ) → active (vacuum rv min).0 j ≡ active rv j
  unfolding vacuum
  active-vacuum j = ground (arith, get_or-vacuum_loop min (get_shard_idx rv j) rv.shards 0)

  pub history-vacuum :
      (j : ℕ) → history (vacuum rv min).0 j ≡ and_then (history rv j) (keep_recent min)
  unfolding vacuum
  history-vacuum j = ground (
    arith,
    get_or-vacuum_loop min (get_shard_idx rv j) rv.shards 0,
    lookup-retain (keep_recent min) j (shard_of rv j).committed (shard_of-IsDistinct rv v j).1,
  )

-- The first commit of a row is not after its last one.
abbrev pub IsOrdered : Option CommittedVersion → Type 0
IsOrdered none = Unit
IsOrdered (some e) = e.first_ts ≤ e.last_ts

-- The error of a write that is refused.
abbrev pub refusal : Result Conflict RowVersion → Option Conflict
refusal (ok rv) = none
refusal (err c) = some c

-- No transaction but `tx_id` is changing the row.
abbrev pub FreeFor : Option ℕ → ℕ → Type 0
FreeFor none tx_id = Unit
FreeFor (some mod_tx) tx_id = mod_tx ≡ tx_id

keep_recent-visible :
    (a : Option ℕ) (h : Option CommittedVersion) (min tx_id read_ts : ℕ)
    → min ≤ read_ts
    → IsOrdered h
    → FreeFor a tx_id
    → visible a (and_then h (keep_recent min)) tx_id read_ts ≡ visible a h tx_id read_ts
unfolding visible keep_recent
keep_recent-visible none none min tx_id read_ts le ord free = refl
keep_recent-visible (some t) none min tx_id read_ts le ord free = refl
keep_recent-visible none (some e) min tx_id read_ts le ord free = ground arith
keep_recent-visible (some t) (some e) min tx_id read_ts le ord free = ground arith

keep_recent-committed_check :
    (h : Option CommittedVersion) (min read_ts : ℕ)
    → min ≤ read_ts
    → committed_check (and_then h (keep_recent min)) read_ts ≡ committed_check h read_ts
unfolding committed_check keep_recent
keep_recent-committed_check none min read_ts le = refl
keep_recent-committed_check (some e) min read_ts le = ground arith

refusal_of_checks :
    (m : Result Conflict (Unit {0})) (n n' : Result Conflict (Unit {0})) (x y : RowVersion)
    → n ≡ n'
    → refusal (m >> (n >> ok x)) ≡ refusal (m >> (n' >> ok y))
refusal_of_checks (err c) n n' x y e = refl
refusal_of_checks (ok u) (err c) (err d) x y e = ground arith
refusal_of_checks (ok u) (ok w) (ok z) x y e = refl
refusal_of_checks (ok u) (ok w) (err d) x y e = cc
refusal_of_checks (ok u) (err c) (ok z) x y e = cc

module _ (rv : RowVersion) (v : IsValid rv) (row_id tx_id read_ts min : ℕ)
    (le : min ≤ read_ts) where
  -- A reader at or after the horizon sees the same of a row that no other transaction is changing.
  pub vacuum-is_visible :
      IsOrdered (history rv row_id)
      → FreeFor (active rv row_id) tx_id
      → is_visible (vacuum rv min).0 row_id tx_id read_ts ≡ is_visible rv row_id tx_id read_ts
  unfolding is_visible
  vacuum-is_visible ord free =
      rw (active-vacuum rv v min row_id, history-vacuum rv v min row_id)
        (keep_recent-visible (active rv row_id) (history rv row_id) min tx_id read_ts le ord free)

  -- A writer at or after the horizon is refused as before, with the same error, or accepted as before.
  pub vacuum-mark_row :
      refusal (mark_row (vacuum rv min).0 row_id tx_id read_ts)
      ≡ refusal (mark_row rv row_id tx_id read_ts)
  unfolding mark_row
  vacuum-mark_row =
      rw (active-vacuum rv v min row_id, history-vacuum rv v min row_id)
        (refusal_of_checks (active_check (active rv row_id) tx_id) _ _ _ _
          (keep_recent-committed_check (history rv row_id) min read_ts le))

  -- But a row that another transaction is changing, and whose last commit is before the horizon,
  -- was visible to every reader at or after the horizon and is visible to none of them afterwards.
  pub vacuum_hides :
      (other : ℕ) (e : CommittedVersion)
      → active rv row_id ≡ some other
      → other ≢ tx_id
      → history rv row_id ≡ some e
      → e.first_ts ≤ e.last_ts
      → e.last_ts < min
      → (is_visible rv row_id tx_id read_ts ≡ true)
        × (is_visible (vacuum rv min).0 row_id tx_id read_ts ≡ false)
  unfolding is_visible visible keep_recent
  vacuum_hides other e a ne h ord old =
      ground (arith, active-vacuum rv v min row_id, history-vacuum rv v min row_id)
