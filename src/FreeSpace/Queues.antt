-- ===== src/FreeSpace/Queues.antt =====
-- crates/lightning-core/src/storage/free_space_manager.rs: the order in which pages are used again, and
-- what survives a save and a load.
use lightning_db.Prelude.{
  ℕ, ◌≡◌, refl, ap, sym, ◌∙◌, Bool, true, false, Option, none, some, List, [], ◌∷◌, ◌++◌, arith,
  ◌==◌, if◌then◌else◌, Result, ok, err, Bool-cases, inl, inr,
}
use mathlib.Core.List.{append_assoc, append-nil}
use lightning_db.Prelude.HashMap.{HashMap, lookup, lookup-insert}
use lightning_db.FreeSpace.{
  FreeSpaceManager, Disk, Error, queue_or_default, record_free_page, pop_front, get_free_page, save,
  save_bytes, load,
}

pub data Use : Type 0 where
  frees : ℕ → ℕ → Use
  takes : ℕ → Use

abbrev pub queue : FreeSpaceManager → ℕ → List ℕ
queue fsm file_id = queue_or_default (lookup file_id fsm.free_pages)

unfoldable pub after : FreeSpaceManager → List Use → FreeSpaceManager
after fsm [] = fsm
after fsm (frees f p ∷ uses) = after (record_free_page fsm f p) uses
after fsm (takes f ∷ uses) = after (get_free_page fsm f).0 uses

-- The pages of a file that were given to it, and those that were handed out, in order.
abbrev pub freed : ℕ → List Use → List ℕ
freed file_id [] = []
freed file_id (frees f p ∷ uses) =
    if f == file_id then p ∷ freed file_id uses else freed file_id uses
freed file_id (takes f ∷ uses) = freed file_id uses

abbrev pub as_list : Option ℕ → List ℕ
as_list none = []
as_list (some p) = p ∷ []

unfoldable pub taken : ℕ → FreeSpaceManager → List Use → List ℕ
taken file_id fsm [] = []
taken file_id fsm (frees f p ∷ uses) = taken file_id (record_free_page fsm f p) uses
taken file_id fsm (takes f ∷ uses) =
    (if f == file_id then as_list (get_free_page fsm f).1 else [])
    ++ taken file_id (get_free_page fsm f).0 uses

module _ (fsm : FreeSpaceManager) (f g : ℕ) where
  queue-record_free_page :
      (p : ℕ)
      → queue (record_free_page fsm f p) g ≡ (if f == g then queue fsm g ++ p ∷ [] else queue fsm g)
  unfolding record_free_page
  queue-record_free_page p = ground (
    arith,
    lookup-insert f g (queue fsm f ++ p ∷ []) fsm.free_pages,
    ap (queue fsm) {x = f} {y = g},
  )

  queue-pop_front :
      (o : Option (List ℕ))
      → lookup f fsm.free_pages ≡ o
      → queue fsm g
        ≡ (if f == g then as_list (pop_front fsm f o).1 else []) ++ queue (pop_front fsm f o).0 g
  queue-pop_front none e = ground (arith, ap (queue fsm) {x = f} {y = g})
  queue-pop_front (some []) e = ground (arith, ap (queue fsm) {x = f} {y = g})
  queue-pop_front (some (p ∷ ps)) e =
      ground (arith, lookup-insert f g ps fsm.free_pages, ap (queue fsm) {x = f} {y = g})

  queue-get_free_page :
      queue fsm g
      ≡ (if f == g then as_list (get_free_page fsm f).1 else []) ++ queue (get_free_page fsm f).0 g
  unfolding get_free_page
  queue-get_free_page = queue-pop_front (lookup f fsm.free_pages) refl

abbrev pub is_ok : {A : Type 0} → Result Error A → Bool
is_ok (ok a) = true
is_ok (err e) = false

-- For each file, over any calls: the pages handed out, followed by those still free, are the pages free
-- at the start, followed by those freed since.
pub taken-queue :
    (file_id : ℕ) (fsm : FreeSpaceManager) (uses : List Use)
    → taken file_id fsm uses ++ queue (after fsm uses) file_id
      ≡ queue fsm file_id ++ freed file_id uses
unfolding taken after
taken-queue file_id fsm [] = sym (append-nil (queue fsm file_id))
taken-queue file_id fsm (frees f p ∷ uses) =
    taken-queue file_id (record_free_page fsm f p) uses
    ∙ ap (λ (q : List ℕ). q ++ freed file_id uses) (queue-record_free_page fsm f file_id p)
    ∙ elim (Bool-cases (f == file_id)) [
      | inl e ↦ rw e (append_assoc (queue fsm file_id) (p ∷ []) (freed file_id uses))
      | inr e ↦ rw e refl
    ]
taken-queue file_id fsm (takes f ∷ uses) =
    let out : List ℕ = if f == file_id then as_list (get_free_page fsm f).1 else [] in
    let fsm' : FreeSpaceManager = (get_free_page fsm f).0 in
    append_assoc out (taken file_id fsm' uses) (queue (after fsm' uses) file_id)
    ∙ ap (λ (q : List ℕ). out ++ q) (taken-queue file_id fsm' uses)
    ∙ sym (append_assoc out (queue fsm' file_id) (freed file_id uses))
    ∙ ap (λ (q : List ℕ). q ++ freed file_id uses) (sym (queue-get_free_page fsm f file_id))

module _ (serialize : HashMap (List ℕ) → Result Error (List ℕ))
    (deserialize : List ℕ → Result Error (HashMap (List ℕ)))
    (bincode : (m : HashMap (List ℕ)) (buf : List ℕ)
      → serialize m ≡ ok buf
      → deserialize buf ≡ ok m)
    (fsm : FreeSpaceManager) (disk : Disk) (written renamed : Bool) where
  save_bytes-load :
      (r : Result Error (List ℕ))
      → serialize fsm.free_pages ≡ r
      → load deserialize true (save_bytes serialize written renamed disk r).0 ≡ (
          if is_ok (save_bytes serialize written renamed disk r).1
          then ok fsm
          else load deserialize true disk)
  unfolding load
  save_bytes-load (err e) q = refl
  save_bytes-load (ok buf) q = ground (arith, bincode fsm.free_pages buf q)

  -- Where bincode reads back what it wrote and files can be read: a load after a save gives the saved
  -- pages when the save succeeded, and what a load gave before when any step of the save failed.
  pub save-load : load deserialize true (save serialize written renamed fsm disk).0 ≡ (
      if is_ok (save serialize written renamed fsm disk).1
      then ok fsm
      else load deserialize true disk)
  unfolding save
  save-load = save_bytes-load (serialize fsm.free_pages) refl
