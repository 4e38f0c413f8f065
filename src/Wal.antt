-- ===== src/Wal.antt =====
-- crates/lightning-core/src/storage/wal.rs, `replay`: what recovery does with the records of the log,
-- one after another. The records are given as they are read; their framing and checksums are
-- in Bytes. `applied` is the sequence of the calls of `apply_page`, each with the transaction it is for.
mod Recovery
mod Order
pub mod Bytes
mod Tests
use lightning_db.Prelude.{
  ℕ, suc, ◌+◌, max, Bool, true, false, ◌&&◌, Option, none, some, List, [], ◌∷◌, ◌++◌, map, ltb,
  ◌==◌, if◌then◌else◌, contains,
}
use lightning_db.Prelude.HashMap.{HashMap, lookup, insert, remove}

pub record PageUpdate : Type 0 where
  pub file_id : ℕ
  pub page_idx : ℕ
  pub page_data : List ℕ

pub data WalRecord : Type 0 where
  page_update : ℕ → PageUpdate → WalRecord
  commit : ℕ → WalRecord

pub record Replay : Type 0 where
  pub commits : List ℕ
  pub pending : HashMap (List PageUpdate)
  pub applied : List (ℕ × PageUpdate)
  pub records_read : ℕ
  pub max_tx_id : ℕ

abbrev pub new_replay : Replay
new_replay = record { commits = []; pending = []; applied = []; records_read = 0; max_tx_id = 0 }

abbrev pub updates_or_empty : Option (List PageUpdate) → List PageUpdate
updates_or_empty none = []
updates_or_empty (some updates) = updates

abbrev pub for_tx : ℕ → List PageUpdate → List (ℕ × PageUpdate)
for_tx tx_id [] = []
for_tx tx_id (u ∷ updates) = (tx_id, u) ∷ for_tx tx_id updates

abbrev pub add_commit : ℕ → List ℕ → List ℕ
add_commit tx_id commits = if contains tx_id commits then commits else tx_id ∷ commits

module _ (last_checkpoint_tx : ℕ) where
  unfoldable pub handle_page_update : Replay → ℕ → PageUpdate → Replay
  handle_page_update r tx_id update =
      if contains tx_id r.commits && ltb last_checkpoint_tx tx_id
      then record r { applied = r.applied ++ (tx_id, update) ∷ [] }
      else record r {
        pending = insert tx_id (updates_or_empty (lookup tx_id r.pending) ++ update ∷ []) r.pending;
      }

  -- `pending.remove(&tx_id)`, and the updates in it applied.
  abbrev release : Replay → ℕ → Option (List PageUpdate) → Replay
  release r tx_id none = r
  release r tx_id (some updates) = record r {
    applied = r.applied ++ for_tx tx_id updates;
    pending = remove tx_id r.pending;
  }

  unfoldable pub handle_commit : Replay → ℕ → Replay
  handle_commit r tx_id =
      let r' = record r { commits = add_commit tx_id r.commits } in
      if ltb last_checkpoint_tx tx_id then release r' tx_id (lookup tx_id r'.pending) else r'

  abbrev pub count_record : ℕ → Replay → Replay
  count_record tx_id r = record r {
    records_read = r.records_read + 1;
    max_tx_id = max r.max_tx_id tx_id;
  }

  unfoldable pub replay_record : Replay → WalRecord → Replay
  unfolding handle_page_update handle_commit
  replay_record r (page_update tx_id update) =
      handle_page_update (count_record tx_id r) tx_id update
  replay_record r (commit tx_id) = handle_commit (count_record tx_id r) tx_id

  unfoldable pub replay_loop : Replay → List WalRecord → Replay
  replay_loop r [] = r
  replay_loop r (rec ∷ records) = replay_loop (replay_record r rec) records

  -- The drain of what is pending at the end.
  unfoldable pub drain :
      List ℕ → HashMap (List PageUpdate) → List (ℕ × PageUpdate) → List (ℕ × PageUpdate)
  drain commits [] applied = applied
  drain commits ((tx_id, updates) ∷ pending) applied = drain commits pending (
      if ltb last_checkpoint_tx tx_id && contains tx_id commits
      then applied ++ for_tx tx_id updates
      else applied)

  -- The ids that go into `committed_txs` at the end are those of `commits` past the last checkpoint.
  unfoldable pub replay : List WalRecord → Replay
  unfolding replay_loop drain
  replay records =
      let r = replay_loop new_replay records in
      record r { pending = []; applied = drain r.commits r.pending r.applied }
