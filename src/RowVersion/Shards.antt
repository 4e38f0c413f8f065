-- ===== src/RowVersion/Shards.antt =====
-- crates/lightning-core/src/storage/row_version.rs: the sharded tables seen as two maps over all rows,
-- and what each operation does to these maps.
use lightning_db.Prelude.{
  ℕ, zero, suc, ◌<◌, ◌≡◌, refl, ◌∙◌, Bool, true, Option, none, some, List, [], ◌∷◌, arith, ◌==◌,
  if◌then◌else◌, length, get_or, set, replicate, All, length-set, get_or-set,
}
use lightning_db.Prelude.HashMap.{
  lookup, Distinct, lookup-insert, lookup-remove, insert-Distinct, remove-Distinct,
}
use lightning_db.RowVersion.{
  RowVersion, new, Shard, CommittedVersion, empty_shard, get_shard_idx, shard_idx, shard_of,
  commit_row, rollback_row, touch, mark_in, commit_in, rollback_in,
}

-- The transaction that is changing a row, and the commit history of a row.
abbrev pub active : RowVersion → ℕ → Option ℕ
active rv row_id = lookup row_id (shard_of rv row_id).versions

abbrev pub history : RowVersion → ℕ → Option CommittedVersion
history rv row_id = lookup row_id (shard_of rv row_id).committed

abbrev pub IsDistinct : Shard → Type 0
IsDistinct s = Distinct s.versions × Distinct s.committed

pub record IsValid (rv : RowVersion) : Type 0 where
  pub all_shards : length rv.shards ≡ rv.num_shards
  pub some_shard : 0 < rv.num_shards
  pub distinct : All IsDistinct rv.shards

pub shard_idx-lt : (n row_id : ℕ) → 0 < n → shard_idx n row_id < n
unfolding shard_idx
shard_idx-lt n row_id h = omega arith

module _ (rv : RowVersion) (v : IsValid rv) where
  pub shard_of-set :
      (row_id j : ℕ) (s : Shard)
      → get_or (set rv.shards (get_shard_idx rv row_id) s) (get_shard_idx rv j) empty_shard
        ≡ (if get_shard_idx rv row_id == get_shard_idx rv j then s else shard_of rv j)
  shard_of-set row_id j s =
      get_or-set rv.shards _ _ s empty_shard
        (omega (arith, v.all_shards, shard_idx-lt rv.num_shards row_id v.some_shard))

  pub active-commit_row :
      (row_id ts j : ℕ)
      → active (commit_row rv row_id ts) j ≡ (if row_id == j then none else active rv j)
  unfolding commit_row
  active-commit_row row_id ts j = ground (
    arith,
    shard_of-set row_id j (commit_in ts row_id (shard_of rv row_id)),
    lookup-remove row_id j (shard_of rv row_id).versions,
  )

  pub history-commit_row :
      (row_id ts j : ℕ)
      → history (commit_row rv row_id ts) j
        ≡ (if row_id == j then some (touch (history rv j) ts) else history rv j)
  unfolding commit_row
  history-commit_row row_id ts j = ground (
    arith,
    shard_of-set row_id j (commit_in ts row_id (shard_of rv row_id)),
    lookup-insert row_id j (touch (history rv row_id) ts) (shard_of rv row_id).committed,
  )

  pub active-rollback_row :
      (row_id j : ℕ)
      → active (rollback_row rv row_id) j ≡ (if row_id == j then none else active rv j)
  unfolding rollback_row
  active-rollback_row row_id j = ground (
    arith,
    shard_of-set row_id j (rollback_in row_id (shard_of rv row_id)),
    lookup-remove row_id j (shard_of rv row_id).versions,
  )

  pub history-rollback_row : (row_id j : ℕ) → history (rollback_row rv row_id) j ≡ history rv j
  unfolding rollback_row
  history-rollback_row row_id j =
      ground (arith, shard_of-set row_id j (rollback_in row_id (shard_of rv row_id)))

  -- What a mark that is accepted does.
  abbrev pub marked : ℕ → ℕ → RowVersion
  marked row_id tx_id = record rv {
    shards = set rv.shards (get_shard_idx rv row_id) (mark_in tx_id row_id (shard_of rv row_id));
    dirty_flag = true;
  }

  pub active-marked :
      (row_id tx_id j : ℕ)
      → active (marked row_id tx_id) j ≡ (if row_id == j then some tx_id else active rv j)
  active-marked row_id tx_id j = ground (
    arith,
    shard_of-set row_id j (mark_in tx_id row_id (shard_of rv row_id)),
    lookup-insert row_id j tx_id (shard_of rv row_id).versions,
  )

  pub history-marked : (row_id tx_id j : ℕ) → history (marked row_id tx_id) j ≡ history rv j
  history-marked row_id tx_id j =
      ground (arith, shard_of-set row_id j (mark_in tx_id row_id (shard_of rv row_id)))

All-set :
    (xs : List Shard) (i : ℕ) (s : Shard)
    → All IsDistinct xs
    → IsDistinct s
    → All IsDistinct (set xs i s)
All-set [] i s h d = tt
All-set (x ∷ xs) zero s h d = (d, h.1)
All-set (x ∷ xs) (suc i) s h d = (h.0, All-set xs i s h.1 d)

All-get_or : (xs : List Shard) (i : ℕ) → All IsDistinct xs → IsDistinct (get_or xs i empty_shard)
All-get_or [] i h = (tt, tt)
All-get_or (x ∷ xs) zero h = h.0
All-get_or (x ∷ xs) (suc i) h = All-get_or xs i h.1

module _ (rv : RowVersion) (v : IsValid rv) where
  pub shard_of-IsDistinct : (row_id : ℕ) → IsDistinct (shard_of rv row_id)
  shard_of-IsDistinct row_id = All-get_or rv.shards _ v.distinct

  set-IsValid :
      (row_id : ℕ) (s : Shard) (dirty : Bool)
      → IsDistinct s
      → IsValid
          (record rv { shards = set rv.shards (get_shard_idx rv row_id) s; dirty_flag = dirty })
  set-IsValid row_id s dirty d = record {
    all_shards = length-set rv.shards _ s ∙ v.all_shards;
    some_shard = v.some_shard;
    distinct = All-set rv.shards _ s v.distinct d;
  }

  pub marked-IsValid : (row_id tx_id : ℕ) → IsValid (marked rv v row_id tx_id)
  marked-IsValid row_id tx_id =
      let d : IsDistinct (shard_of rv row_id) = shard_of-IsDistinct row_id in
      set-IsValid row_id _ true (insert-Distinct row_id tx_id _ d.0, d.1)

  pub commit_row-IsValid : (row_id ts : ℕ) → IsValid (commit_row rv row_id ts)
  unfolding commit_row
  commit_row-IsValid row_id ts =
      let d : IsDistinct (shard_of rv row_id) = shard_of-IsDistinct row_id in
      set-IsValid row_id _ rv.dirty_flag
        (remove-Distinct row_id _ d.0, insert-Distinct row_id _ _ d.1)

  pub rollback_row-IsValid : (row_id : ℕ) → IsValid (rollback_row rv row_id)
  unfolding rollback_row
  rollback_row-IsValid row_id =
      let d : IsDistinct (shard_of rv row_id) = shard_of-IsDistinct row_id in
      set-IsValid row_id _ rv.dirty_flag (remove-Distinct row_id _ d.0, d.1)

All-replicate : (n : ℕ) → All IsDistinct (replicate n empty_shard)
All-replicate zero = tt
All-replicate (suc n) = ((tt, tt), All-replicate n)

pub new-IsValid : IsValid new
unfolding new
new-IsValid = record { all_shards = refl; some_shard = omega arith; distinct = All-replicate 16 }
