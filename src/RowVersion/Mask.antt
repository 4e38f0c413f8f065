-- ===== src/RowVersion/Mask.antt =====
-- crates/lightning-core/src/storage/row_version.rs, `get_visibility_mask`: the visibility of many rows
-- at once, shard by shard.
pub mod Agrees
use lightning_db.Prelude.{
  ℕ, zero, suc, ◌+◌, ◌-◌, ◌<◌, ◌||◌, ◌≡◌, refl, Bool, true, false, Option, none, some, List, [],
  ◌∷◌, ◌++◌, map, arith, leb, ltb, ◌==◌, if◌then◌else◌, not, length, get_or, set, take, replicate,
  is_empty, filter, All, Bool-cases, ==_iff, subst, ◌≤◌, contains, ◌⊎◌, inl, inr, ◌∙◌, ext_get_or,
  length-set, get_or-set, length-replicate, get_or-replicate,
}
use lightning_db.Prelude.HashMap.{lookup}
use lightning_db.Prelude.Groups.{group, get_or-group, length-group}
use lightning_db.RowVersion.{
  RowVersion, Shard, CommittedVersion, empty_shard, get_shard_idx, shard_idx, existed_at, visible,
  is_visible,
}

abbrev enumerate : ℕ → List ℕ → List (ℕ × ℕ)
enumerate i [] = []
enumerate i (x ∷ xs) = (i, x) ∷ enumerate (i + 1) xs

-- mask.resize(n, value)
abbrev resize : ℕ → Bool → List Bool → List Bool
resize n value mask = take n mask ++ replicate (n - length mask) value

-- The body of the loop over a group, as it decides on one row.
group_visible : Option ℕ → Option CommittedVersion → ℕ → ℕ → Bool
group_visible (some mod_tx) history tx_id read_ts =
    if not (mod_tx == tx_id) then existed_at history read_ts false else true
group_visible none (some entry) tx_id read_ts = leb entry.first_ts read_ts
group_visible none none tx_id read_ts = true

fill_group : Shard → ℕ → ℕ → List (ℕ × ℕ) → List Bool → List Bool
fill_group s tx_id read_ts [] mask = mask
fill_group s tx_id read_ts ((idx, row_id) ∷ g) mask = fill_group s tx_id read_ts g (
    set mask idx
      (group_visible (lookup row_id s.versions) (lookup row_id s.committed) tx_id read_ts))

fill_groups : List Shard → ℕ → ℕ → ℕ → List (List (ℕ × ℕ)) → List Bool → List Bool
unfolding fill_group
fill_groups shards tx_id read_ts i [] mask = mask
fill_groups shards tx_id read_ts i (g ∷ groups) mask =
    fill_groups shards tx_id read_ts (i + 1) groups
      (if is_empty g then mask else fill_group (get_or shards i empty_shard) tx_id read_ts g mask)

pub get_visibility_mask : RowVersion → List ℕ → ℕ → ℕ → List Bool → List Bool
unfolding fill_groups group_visible
get_visibility_mask rv row_ids tx_id read_ts mask =
    fill_groups rv.shards tx_id read_ts 0
      (group (λ p. get_shard_idx rv p.1) (replicate rv.num_shards []) (enumerate 0 row_ids))
      (resize (length row_ids) true mask)
