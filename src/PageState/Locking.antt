-- ===== src/PageState/Locking.antt =====
-- crates/lightning-core/src/storage/page_state.rs: any sequence of operations on a page's word, against
-- the same sequence on the four fields; the lock and the version over such a sequence.
use lightning_db.Prelude.{
  ℕ, ◌+◌, ◌%◌, ◌^◌, ◌<◌, ◌≡◌, refl, Bool, true, false, not, ◌&&◌, List, [], ◌∷◌, All, arith, ◌==◌,
  if◌then◌else◌, ==_iff, Bool-cases, inl, inr, ◌∙◌, ap, subst,
}
use lightning_db.PageState.{
  get_state, locked, unlocked, try_lock, unlock, set_dirty, clear_dirty, set_referenced,
  clear_referenced,
}
use lightning_db.PageState.Fields.{
  View, view, view_injective, unlock-view, set_dirty-view, clear_dirty-view, set_referenced-view,
  clear_referenced-view, lock-view, state_test,
}

pub data Op : Type 0 where
  try_locks : ℕ → Op
  unlocks set_dirties clear_dirties set_references clear_references : Op

-- The word after an operation, and whether it took the lock.
unfoldable pub apply : ℕ → Op → ℕ × Bool
apply w (try_locks old) = try_lock w old
apply w unlocks = (unlock w, false)
apply w set_dirties = (set_dirty w, false)
apply w clear_dirties = (clear_dirty w, false)
apply w set_references = (set_referenced w, false)
apply w clear_references = (clear_referenced w, false)

unfoldable pub run : ℕ → List Op → ℕ
run w [] = w
run w (op ∷ ops) = run (apply w op).0 ops

abbrev pub one_if : Bool → ℕ
one_if b = if b then 1 else 0

-- How often the lock is taken.
unfoldable pub locks_taken : ℕ → List Op → ℕ
locks_taken w [] = 0
locks_taken w (op ∷ ops) = one_if (apply w op).1 + locks_taken (apply w op).0 ops

abbrev pub is_unlock : Op → Bool
is_unlock unlocks = true
is_unlock _ = false

unfoldable pub unlock_count : List Op → ℕ
unlock_count [] = 0
unlock_count (op ∷ ops) = one_if (is_unlock op) + unlock_count ops

-- A word that a thread has read is 64 bits wide.
abbrev pub IsWord : Op → Type 0
IsWord (try_locks old) = old < 2 ^ 64
IsWord _ = Unit

-- The operations on the fields. A lock is taken when the fields are the expected ones and do not say
-- that it is taken.
abbrev bool_eq : Bool → Bool → Bool
bool_eq true b = b
bool_eq false b = not b

abbrev pub same_view : View → View → Bool
same_view a b =
    bool_eq a.dirty b.dirty
    && bool_eq a.referenced b.referenced
    && a.state == b.state
    && a.version == b.version

abbrev pub lock_if : Bool → View → View × Bool
lock_if expected v =
    if not (v.state == locked) && expected then (record v { state = locked }, true) else (v, false)

abbrev pub apply_fields : View → Op → View × Bool
apply_fields v (try_locks old) = lock_if (same_view v (view old)) v
apply_fields v unlocks = (record v { state = unlocked; version = (v.version + 1) % 2 ^ 56 }, false)
apply_fields v set_dirties = (record v { dirty = true }, false)
apply_fields v clear_dirties = (record v { dirty = false }, false)
apply_fields v set_references = (record v { referenced = true }, false)
apply_fields v clear_references = (record v { referenced = false }, false)

unfoldable pub run_fields : View → List Op → View
run_fields v [] = v
run_fields v (op ∷ ops) = run_fields (apply_fields v op).0 ops

same_view_iff : (a b : View) → same_view a b ≡ true → a ≡ b
same_view_iff a b h = ground arith

same_view_refl : (a : View) → same_view a a ≡ true
same_view_refl a = ground arith

same_view-word :
    (w old : ℕ) → w < 2 ^ 64 → old < 2 ^ 64 → same_view (view w) (view old) ≡ (w == old)
same_view-word w old h k = elim (Bool-cases (w == old)) [
  | inl e ↦ rw e (rw ((==_iff w old).0 e) (same_view_refl (view old)))
  | inr e ↦ elim (Bool-cases (same_view (view w) (view old))) [
    | inl t ↦ absurd (ground (arith, view_injective w h old k (same_view_iff _ _ t)))
    | inr t ↦ rw e t
  ]
]

abbrev Agrees : ℕ → ℕ → Type 0
Agrees w old =
    ((try_lock w old).0 < 2 ^ 64)
    × (view (try_lock w old).0 ≡ (apply_fields (view w) (try_locks old)).0)
    × ((try_lock w old).1 ≡ (apply_fields (view w) (try_locks old)).1)

state-view : (w : ℕ) → (view w).state ≡ get_state w
unfolding view
state-view w = refl

try_lock-view_self : (w : ℕ) → w < 2 ^ 64 → Agrees w w
unfolding try_lock
try_lock-view_self w h =
    ground (arith, state_test w, state-view w, lock-view w h, same_view_refl (view w))

try_lock-view : (w old : ℕ) → w < 2 ^ 64 → old < 2 ^ 64 → Agrees w old
unfolding try_lock
try_lock-view w old h k = elim (Bool-cases (w == old)) [
  | inl e ↦ subst (Agrees w) ((==_iff w old).0 e) (try_lock-view_self w h)
  | inr e ↦ ground (arith, same_view-word w old h k)
]

-- One operation.
pub apply-view :
    (w : ℕ) (op : Op)
    → w < 2 ^ 64
    → IsWord op
    → ((apply w op).0 < 2 ^ 64)
      × (view (apply w op).0 ≡ (apply_fields (view w) op).0)
      × ((apply w op).1 ≡ (apply_fields (view w) op).1)
unfolding apply
apply-view w (try_locks old) h k = try_lock-view w old h k
apply-view w unlocks h k = ((unlock-view w h).0, (unlock-view w h).1, refl)
apply-view w set_dirties h k = ((set_dirty-view w h).0, (set_dirty-view w h).1, refl)
apply-view w clear_dirties h k = ((clear_dirty-view w h).0, (clear_dirty-view w h).1, refl)
apply-view w set_references h k = ((set_referenced-view w h).0, (set_referenced-view w h).1, refl)
apply-view w clear_references h k =
    ((clear_referenced-view w h).0, (clear_referenced-view w h).1, refl)

-- Any operations, by any threads in any order: the word stays 64 bits wide and has the fields that the
-- operations on the fields give.
pub run-view :
    (w : ℕ) (ops : List Op)
    → w < 2 ^ 64
    → All IsWord ops
    → (run w ops < 2 ^ 64) × (view (run w ops) ≡ run_fields (view w) ops)
unfolding run run_fields
run-view w [] h k = (h, refl)
run-view w (op ∷ ops) h k =
    let (fits, same, taken) = apply-view w op h k.0 in
    let (fits', same') = run-view (apply w op).0 ops fits k.1 in
    (fits', same' ∙ ap (λ v. run_fields v ops) same)
