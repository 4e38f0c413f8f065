-- ===== src/FreeSpace.antt =====
-- crates/lightning-core/src/storage/free_space_manager.rs: the pages of each file that may be used again.
-- `serialize` and `deserialize` are the calls of bincode; a file is its bytes, or is not there; the other
-- failures of the file system enter as outcomes.
mod Queues
mod Tests
use lightning_db.Prelude.{
  ℕ, Bool, true, false, not, Option, none, some, List, [], ◌∷◌, ◌++◌, if◌then◌else◌, Result, ok,
  err,
}
use lightning_db.Prelude.HashMap.{HashMap, lookup, insert}

pub record FreeSpaceManager : Type 0 where
  pub free_pages : HashMap (List ℕ)

abbrev pub new : FreeSpaceManager
new = record { free_pages = [] }

abbrev pub queue_or_default : Option (List ℕ) → List ℕ
queue_or_default none = []
queue_or_default (some queue) = queue

unfoldable pub record_free_page : FreeSpaceManager → ℕ → ℕ → FreeSpaceManager
record_free_page fsm file_id page_idx = record {
  free_pages =
      insert file_id (queue_or_default (lookup file_id fsm.free_pages) ++ page_idx ∷ [])
        fsm.free_pages;
}

-- map.get_mut(&file_id)?.pop_front()
abbrev pop_front : FreeSpaceManager → ℕ → Option (List ℕ) → FreeSpaceManager × Option ℕ
pop_front fsm file_id none = (fsm, none)
pop_front fsm file_id (some []) = (fsm, none)
pop_front fsm file_id (some (page_idx ∷ queue)) =
    (record { free_pages = insert file_id queue fsm.free_pages }, some page_idx)

unfoldable pub get_free_page : FreeSpaceManager → ℕ → FreeSpaceManager × Option ℕ
get_free_page fsm file_id = pop_front fsm file_id (lookup file_id fsm.free_pages)

pub data Error : Type 0 where
  io database : Error

-- The two paths that `save` touches.
pub record Disk : Type 0 where
  pub file : Option (List ℕ)
  pub tmp_file : Option (List ℕ)

module _ (serialize : HashMap (List ℕ) → Result Error (List ℕ)) where
  -- Written to the temporary file, which is renamed at the end.
  abbrev save_bytes : Bool → Bool → Disk → Result Error (List ℕ) → Disk × Result Error (Unit {0})
  save_bytes written renamed disk (err e) = (disk, err e)
  save_bytes written renamed disk (ok buf) =
      if not written
      then (record disk { tmp_file = some [] }, err io)
      else if not renamed
      then (record disk { tmp_file = some buf }, err io)
      else (record { file = some buf; tmp_file = none }, ok tt)

  unfoldable pub save : Bool → Bool → FreeSpaceManager → Disk → Disk × Result Error (Unit {0})
  save written renamed fsm disk = save_bytes written renamed disk (serialize fsm.free_pages)

module _ (deserialize : List ℕ → Result Error (HashMap (List ℕ))) where
  abbrev load_map : Result Error (HashMap (List ℕ)) → Result Error FreeSpaceManager
  load_map (ok map) = ok (record { free_pages = map })
  load_map (err e) = err e

  -- `readable`: an existing file can be opened and read.
  abbrev load_file : Bool → Option (List ℕ) → Result Error FreeSpaceManager
  load_file readable none = ok new
  load_file readable (some buf) = if readable then load_map (deserialize buf) else err io

  unfoldable pub load : Bool → Disk → Result Error FreeSpaceManager
  load readable disk = load_file readable disk.file
