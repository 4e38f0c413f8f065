-- ===== src/RowVersion.antt =====
-- crates/lightning-core/src/storage/row_version.rs: which transaction is changing a row, and when
-- rows were committed. The operations are taken as atomic: each holds the locks of the shards
-- that it touches, but `is_visible`, which releases the first of its two before it takes the second. A write that the code refuses changes nothing: `err`.
pub mod Mask
pub mod Shards
pub mod Batch
pub mod Vacuum
pub mod Conflicts
pub mod Run
pub mod Isolation
mod Tests
use Prim.Native.Nat.{bit_xor}
use lightning_db.Prelude.{
  ℕ, ◌+◌, ◌-◌, ◌*◌, ◌/◌, ◌%◌, ◌^◌, min, max, Bool, true, false, not, ◌||◌, Option, none, some, List,
  [], ◌∷◌, ◌++◌, map, ltb, leb, ◌==◌, if◌then◌else◌, length, get_or, set, take, replicate, is_empty,
  count_up, Result, ok, err, ◌>>=◌, ◌>>◌,
}
use lightning_db.Prelude.HashMap.{HashMap, lookup, insert, remove, retain}
use lightning_db.Prelude.Groups.{group, for_groups}

pub record CommittedVersion : Type 0 where
  pub first_ts : ℕ
  pub last_ts : ℕ

pub record Shard : Type 0 where
  pub versions : HashMap ℕ
  pub committed : HashMap CommittedVersion

pub record RowVersion : Type 0 where
  pub shards : List Shard
  pub num_shards : ℕ
  pub dirty_flag : Bool

pub data Conflict : Type 0 where
  active_tx : ℕ → Conflict
  committed_at : ℕ → Conflict

abbrev pub empty_shard : Shard
empty_shard = record { versions = []; committed = [] }

unfoldable pub new : RowVersion
new = record { shards = replicate 16 empty_shard; num_shards = 16; dirty_flag = false }

-- h ^= h >> 33; h = h.wrapping_mul(k)
xor_shift : ℕ → ℕ
xor_shift h = bit_xor h (h / 2 ^ 33)

unfoldable pub shard_idx : ℕ → ℕ → ℕ
unfolding xor_shift
shard_idx num_shards row_id =
    let h₁ = xor_shift row_id * 0xff51_afd7_ed55_8ccd % 2 ^ 64 in
    let h₂ = xor_shift h₁ * 0xc4ce_b9fe_1a85_ec53 % 2 ^ 64 in xor_shift h₂ % num_shards

abbrev pub get_shard_idx : RowVersion → ℕ → ℕ
get_shard_idx rv = shard_idx rv.num_shards

abbrev pub shard_of : RowVersion → ℕ → Shard
shard_of rv row_id = get_or rv.shards (get_shard_idx rv row_id) empty_shard

abbrev with_shard : RowVersion → ℕ → Shard → RowVersion
with_shard rv row_id s = record rv { shards = set rv.shards (get_shard_idx rv row_id) s }

-- The two checks of `mark_row`.
unfoldable pub active_check : Option ℕ → ℕ → Result Conflict (Unit {0})
active_check none tx_id = ok tt
active_check (some existing_tx) tx_id =
    if existing_tx == tx_id then ok tt else err (active_tx existing_tx)

unfoldable pub committed_check : Option CommittedVersion → ℕ → Result Conflict (Unit {0})
committed_check none read_ts = ok tt
committed_check (some entry) read_ts =
    if ltb read_ts entry.last_ts then err (committed_at entry.last_ts) else ok tt

abbrev pub mark_in : ℕ → ℕ → Shard → Shard
mark_in tx_id row_id s = record s { versions = insert row_id tx_id s.versions }

unfoldable pub mark_row : RowVersion → ℕ → ℕ → ℕ → Result Conflict RowVersion
unfolding active_check committed_check
mark_row rv row_id tx_id read_ts = do
  let s = shard_of rv row_id
  active_check (lookup row_id s.versions) tx_id
  committed_check (lookup row_id s.committed) read_ts
  ok (record (with_shard rv row_id (mark_in tx_id row_id s)) { dirty_flag = true })

-- `vec![Vec::new(); num_shards]`, filled row by row.
abbrev shard_updates : RowVersion → ℕ → ℕ → List (List ℕ)
shard_updates rv start end =
    group (get_shard_idx rv) (replicate rv.num_shards []) (count_up (end - start) start)

abbrev any_group : List (List ℕ) → Bool
any_group [] = false
any_group (g ∷ groups) = not (is_empty g) || any_group groups

unfoldable pub mark_row_batch : RowVersion → ℕ → ℕ → ℕ → RowVersion
mark_row_batch rv start end tx_id =
    let updates = shard_updates rv start end in
    record rv {
      shards = for_groups empty_shard (mark_in tx_id) 0 updates rv.shards;
      dirty_flag = rv.dirty_flag || any_group updates;
    }

abbrev pub rollback_in : ℕ → Shard → Shard
rollback_in row_id s = record s { versions = remove row_id s.versions }

unfoldable pub rollback_row_batch : RowVersion → ℕ → ℕ → RowVersion
rollback_row_batch rv start end = record rv {
  shards = for_groups empty_shard rollback_in 0 (shard_updates rv start end) rv.shards;
}

-- entry(row_id).or_insert(...), then the minimum and the maximum with the commit's timestamp
unfoldable pub touch : Option CommittedVersion → ℕ → CommittedVersion
touch none ts = record { first_ts = min ts ts; last_ts = max ts ts }
touch (some entry) ts = record { first_ts = min entry.first_ts ts; last_ts = max entry.last_ts ts }

abbrev pub commit_in : ℕ → ℕ → Shard → Shard
commit_in ts row_id s = record {
  versions = remove row_id s.versions;
  committed = insert row_id (touch (lookup row_id s.committed) ts) s.committed;
}

unfoldable pub commit_row : RowVersion → ℕ → ℕ → RowVersion
commit_row rv row_id commit_ts =
    with_shard rv row_id (commit_in commit_ts row_id (shard_of rv row_id))

unfoldable pub commit_row_batch : RowVersion → ℕ → ℕ → ℕ → RowVersion
commit_row_batch rv start end commit_ts = record rv {
  shards = for_groups empty_shard (commit_in commit_ts) 0 (shard_updates rv start end) rv.shards;
}

unfoldable pub rollback_row : RowVersion → ℕ → RowVersion
rollback_row rv row_id = with_shard rv row_id (rollback_in row_id (shard_of rv row_id))

abbrev existed_at : Option CommittedVersion → ℕ → Bool → Bool
existed_at none read_ts missing = missing
existed_at (some e) read_ts missing = leb e.first_ts read_ts

-- The decision of `is_visible`, on what the shard has for the row.
unfoldable pub visible : Option ℕ → Option CommittedVersion → ℕ → ℕ → Bool
visible (some mod_tx) history tx_id read_ts =
    if mod_tx == tx_id then true else existed_at history read_ts false
visible none history tx_id read_ts = existed_at history read_ts true

unfoldable pub is_visible : RowVersion → ℕ → ℕ → ℕ → Bool
is_visible rv row_id tx_id read_ts =
    let s = shard_of rv row_id in
    visible (lookup row_id s.versions) (lookup row_id s.committed) tx_id read_ts

abbrev any_shard : List Shard → Bool
any_shard [] = false
any_shard (s ∷ shards) = not (is_empty s.versions) || not (is_empty s.committed) || any_shard shards

unfoldable pub has_modifications : RowVersion → Bool
has_modifications rv = if rv.dirty_flag then any_shard rv.shards else false

abbrev any_committed : List Shard → Bool
any_committed [] = false
any_committed (s ∷ shards) = not (is_empty s.committed) || any_committed shards

unfoldable pub has_committed : RowVersion → Bool
has_committed rv = any_committed rv.shards

-- The closure of `retain`: what is left of an entry.
unfoldable pub keep_recent : ℕ → CommittedVersion → Option CommittedVersion
keep_recent min_active_ts entry =
    if ltb entry.last_ts min_active_ts
    then none
    else if ltb entry.first_ts min_active_ts
    then some (record entry { first_ts = min_active_ts })
    else some entry

abbrev vacuum_shard : ℕ → Shard → Shard
vacuum_shard min_active_ts s = record s {
  committed = retain (keep_recent min_active_ts) s.committed;
}

unfoldable pub vacuum_loop : ℕ → List Shard → ℕ → List Shard × ℕ
vacuum_loop min_active_ts [] total_removed = ([], total_removed)
vacuum_loop min_active_ts (s ∷ shards) total_removed =
    let s' = vacuum_shard min_active_ts s in
    let (shards', total) =
      vacuum_loop min_active_ts shards
        (total_removed + (length s.committed - length s'.committed)) in
    (s' ∷ shards', total)

-- The table, and the number of entries removed.
unfoldable pub vacuum : RowVersion → ℕ → RowVersion × ℕ
unfolding vacuum_loop
vacuum rv min_active_ts =
    let (shards', total) = vacuum_loop min_active_ts rv.shards 0 in
    (record rv { shards = shards' }, total)

unfoldable pub clear_dirty_flag : RowVersion → RowVersion
clear_dirty_flag rv = record rv { dirty_flag = false }

unfoldable pub mark_dirty : RowVersion → RowVersion
mark_dirty rv = record rv { dirty_flag = true }
