-- ===== src/RowVersion/Batch.antt =====
-- crates/lightning-core/src/storage/row_version.rs: the batch operations, which take each shard once,
-- against the plain loops over the rows.
use lightning_db.Prelude.{
  ℕ, zero, suc, ◌-◌, ◌<◌, ◌≡◌, refl, sym, ◌∙◌, ap, true, false, not, ◌||◌, List, [], ◌∷◌, ◌++◌,
  arith, length, get_or, set, All, replicate, length-set, length-replicate, count_up, is_empty,
}
use lightning_db.Prelude.Groups.{each, group, push_to, for_groups-group}
use lightning_db.RowVersion.{
  RowVersion, Shard, empty_shard, get_shard_idx, shard_idx, shard_of, commit_row, rollback_row,
  mark_in, commit_in, rollback_in, mark_row_batch, commit_row_batch, rollback_row_batch,
  shard_updates, any_group,
}
use lightning_db.RowVersion.Shards.{IsValid, commit_row-IsValid, shard_idx-lt}

-- for row_id in row_ids { commit_row(row_id, ts) }, and so on
unfoldable pub commit_rows : RowVersion → List ℕ → ℕ → RowVersion
commit_rows rv [] ts = rv
commit_rows rv (row_id ∷ row_ids) ts = commit_rows (commit_row rv row_id ts) row_ids ts

unfoldable pub rollback_rows : RowVersion → List ℕ → RowVersion
rollback_rows rv [] = rv
rollback_rows rv (row_id ∷ row_ids) = rollback_rows (rollback_row rv row_id) row_ids

abbrev pub mark_always : RowVersion → ℕ → ℕ → RowVersion
mark_always rv tx_id row_id = record rv {
  shards = set rv.shards (get_shard_idx rv row_id) (mark_in tx_id row_id (shard_of rv row_id));
  dirty_flag = true;
}

unfoldable pub mark_rows : RowVersion → List ℕ → ℕ → RowVersion
mark_rows rv [] tx_id = rv
mark_rows rv (row_id ∷ row_ids) tx_id = mark_rows (mark_always rv tx_id row_id) row_ids tx_id

All-idx : (n : ℕ) (xs : List ℕ) → 0 < n → All (λ x. shard_idx n x < n) xs
All-idx n [] h = tt
All-idx n (x ∷ xs) h = (shard_idx-lt n x h, All-idx n xs h)

commit_rows-IsValid :
    (rv : RowVersion) (v : IsValid rv) (xs : List ℕ) (ts : ℕ) → IsValid (commit_rows rv xs ts)
unfolding commit_rows
commit_rows-IsValid rv v [] ts = v
commit_rows-IsValid rv v (x ∷ xs) ts =
    commit_rows-IsValid (commit_row rv x ts) (commit_row-IsValid rv v x ts) xs ts

commit_rows-each :
    (rv : RowVersion) (xs : List ℕ) (ts : ℕ)
    → commit_rows rv xs ts
      ≡ record rv { shards = each empty_shard (commit_in ts) (get_shard_idx rv) xs rv.shards }
unfolding commit_rows commit_row each
commit_rows-each rv [] ts = refl
commit_rows-each rv (x ∷ xs) ts = commit_rows-each (commit_row rv x ts) xs ts

rollback_rows-each :
    (rv : RowVersion) (xs : List ℕ)
    → rollback_rows rv xs
      ≡ record rv { shards = each empty_shard rollback_in (get_shard_idx rv) xs rv.shards }
unfolding rollback_rows rollback_row each
rollback_rows-each rv [] = refl
rollback_rows-each rv (x ∷ xs) = rollback_rows-each (rollback_row rv x) xs

mark_rows-each :
    (rv : RowVersion) (xs : List ℕ) (tx_id : ℕ)
    → mark_rows rv xs tx_id ≡ record rv {
      shards = each empty_shard (mark_in tx_id) (get_shard_idx rv) xs rv.shards;
      dirty_flag = rv.dirty_flag || not (is_empty xs);
    }
unfolding mark_rows each
mark_rows-each rv [] tx_id = ground arith
mark_rows-each rv (x ∷ xs) tx_id = ground (arith, mark_rows-each (mark_always rv tx_id x) xs tx_id)

any_group-set :
    (groups : List (List ℕ)) (i : ℕ) (g : List ℕ)
    → i < length groups
    → is_empty g ≡ false
    → any_group (set groups i g) ≡ true
any_group-set [] i g h e = absurd (omega arith)
any_group-set (x ∷ groups) zero g h e = ground arith
any_group-set (x ∷ groups) (suc i) g h e = ground (arith, any_group-set groups i g)

snoc_nonempty : (g : List ℕ) (a : ℕ) → is_empty (g ++ a ∷ []) ≡ false
snoc_nonempty [] a = refl
snoc_nonempty (x ∷ g) a = refl

module _ (key : ℕ → ℕ) where
  any_group-group :
      (n : ℕ) (groups : List (List ℕ)) (xs : List ℕ)
      → length groups ≡ n
      → All (λ x. key x < n) xs
      → any_group (group key groups xs) ≡ (any_group groups || not (is_empty xs))
  unfolding group
  any_group-group n groups [] l h = ground arith
  any_group-group n groups (x ∷ xs) l h = ground (
    arith,
    any_group-group n (push_to key groups x) xs (length-set groups _ _ ∙ l) h.1,
    any_group-set groups (key x) (get_or groups (key x) [] ++ x ∷ []),
    snoc_nonempty (get_or groups (key x) []) x,
  )

any_group-replicate : (n : ℕ) → any_group (replicate n []) ≡ false
any_group-replicate zero = refl
any_group-replicate (suc n) = any_group-replicate n

module _ (rv : RowVersion) (v : IsValid rv) (start end : ℕ) where
  -- `commit_row_batch` is the loop of `commit_row` over the range.
  pub commit_row_batch-eq_loop :
      (ts : ℕ) → commit_row_batch rv start end ts ≡ commit_rows rv (count_up (end - start) start) ts
  unfolding commit_row_batch
  commit_row_batch-eq_loop ts =
      ap (λ (ss : List Shard). record rv { shards = ss })
        (for_groups-group empty_shard (commit_in ts) (get_shard_idx rv) rv.num_shards _ rv.shards
          v.all_shards (All-idx rv.num_shards _ v.some_shard))
      ∙ sym (commit_rows-each rv _ ts)

  pub commit_row_batch-IsValid : (ts : ℕ) → IsValid (commit_row_batch rv start end ts)
  commit_row_batch-IsValid ts = rw (commit_row_batch-eq_loop ts) (commit_rows-IsValid rv v _ ts)

  -- `rollback_row_batch` is the loop of `rollback_row` over the range.
  pub rollback_row_batch-eq_loop :
      rollback_row_batch rv start end ≡ rollback_rows rv (count_up (end - start) start)
  unfolding rollback_row_batch
  rollback_row_batch-eq_loop =
      ap (λ (ss : List Shard). record rv { shards = ss })
        (for_groups-group empty_shard rollback_in (get_shard_idx rv) rv.num_shards _ rv.shards
          v.all_shards (All-idx rv.num_shards _ v.some_shard))
      ∙ sym (rollback_rows-each rv _)

  dirty_flag-shard_updates :
      any_group (shard_updates rv start end) ≡ not (is_empty (count_up (end - start) start))
  dirty_flag-shard_updates = ground (
    arith,
    any_group-replicate rv.num_shards,
    any_group-group (get_shard_idx rv) rv.num_shards (replicate rv.num_shards [])
        (count_up (end - start) start) (length-replicate rv.num_shards [])
        (All-idx rv.num_shards _ v.some_shard),
  )

  -- `mark_row_batch` marks every row of the range for the transaction, with no check for conflicts.
  pub mark_row_batch-eq_loop :
      (tx_id : ℕ)
      → mark_row_batch rv start end tx_id ≡ mark_rows rv (count_up (end - start) start) tx_id
  unfolding mark_row_batch
  mark_row_batch-eq_loop tx_id =
      (λ i. record rv {
        shards =
            for_groups-group empty_shard (mark_in tx_id) (get_shard_idx rv) rv.num_shards
              (count_up (end - start) start) rv.shards v.all_shards
              (All-idx rv.num_shards _ v.some_shard) i;
        dirty_flag = rv.dirty_flag || dirty_flag-shard_updates i;
      })
      ∙ sym (mark_rows-each rv _ tx_id)
