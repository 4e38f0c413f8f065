-- ===== src/PageState/Versions.antt =====
-- crates/lightning-core/src/storage/page_state.rs: who holds the lock, and what the version says, after
-- any operations.
use lightning_db.Prelude.{
  ℕ, ◌+◌, ◌%◌, ◌^◌, ◌≤◌, ◌<◌, ◌≡◌, Bool, false, List, [], ◌∷◌, All, arith, ◌==◌, if◌then◌else◌, ◌∙◌,
  ap,
}
use lightning_db.PageState.{get_state, get_version, locked, try_lock}
use lightning_db.PageState.Fields.{View, view}
use lightning_db.PageState.Layout.{get_version_lem}
use lightning_db.PageState.Locking.{
  Op, try_locks, unlocks, set_dirties, clear_dirties, set_references, clear_references, IsWord,
  apply, run, locks_taken, unlock_count, is_unlock, one_if, lock_if, apply_fields, same_view,
  apply-view,
}

abbrev free_fields : View → ℕ
free_fields v = if v.state == locked then 0 else 1

-- 0 when the lock is taken, 1 when it is not.
abbrev pub free : ℕ → ℕ
free w = if get_state w == locked then 0 else 1

module _ (v : View) where
  lock_if_version : (expected : Bool) → (lock_if expected v).0.version ≡ v.version
  lock_if_version expected = ground arith

  lock_if_free :
      (expected : Bool)
      → one_if (lock_if expected v).1 + free_fields (lock_if expected v).0 ≤ free_fields v
  lock_if_free expected = ground arith

  apply_fields-version :
      (op : Op)
      → v.version < 2 ^ 56
      → (apply_fields v op).0.version ≡ (v.version + one_if (is_unlock op)) % 2 ^ 56
  apply_fields-version (try_locks old) h = omega (arith, lock_if_version (same_view v (view old)))
  apply_fields-version unlocks h = ground arith
  apply_fields-version set_dirties h = ground arith
  apply_fields-version clear_dirties h = ground arith
  apply_fields-version set_references h = ground arith
  apply_fields-version clear_references h = ground arith

  apply_fields-free :
      (op : Op)
      → one_if (apply_fields v op).1 + free_fields (apply_fields v op).0
        ≤ free_fields v + one_if (is_unlock op)
  apply_fields-free (try_locks old) = omega (arith, lock_if_free (same_view v (view old)))
  apply_fields-free unlocks = ground arith
  apply_fields-free set_dirties = ground arith
  apply_fields-free clear_dirties = ground arith
  apply_fields-free set_references = ground arith
  apply_fields-free clear_references = ground arith

module _ (w : ℕ) (op : Op) (h : w < 2 ^ 64) (k : IsWord op) where
  apply-version : get_version (apply w op).0 ≡ (get_version w + one_if (is_unlock op)) % 2 ^ 56
  unfolding view
  apply-version =
      ap (λ (v : View). v.version) (apply-view w op h k).1
      ∙ apply_fields-version (view w) op (omega (arith, get_version_lem w))

  apply-free : one_if (apply w op).1 + free (apply w op).0 ≤ free w + one_if (is_unlock op)
  unfolding view
  apply-free = omega (
    arith,
    ap free_fields (apply-view w op h k).1,
    ap one_if (apply-view w op h k).2,
    apply_fields-free (view w) op,
  )

-- Over any operations, the lock is taken at most once more than it is released, and not once more when
-- it is taken at the start or free at the end.
pub locks_taken-le :
    (w : ℕ) (ops : List Op)
    → w < 2 ^ 64
    → All IsWord ops
    → locks_taken w ops + free (run w ops) ≤ free w + unlock_count ops
unfolding locks_taken unlock_count run
locks_taken-le w [] h k = omega arith
locks_taken-le w (op ∷ ops) h k =
    omega (
      arith,
      apply-free w op h k.0,
      locks_taken-le (apply w op).0 ops (apply-view w op h k.0).0 k.1,
    )

-- The version counts the releases, modulo 2 ^ 56.
pub get_version-run :
    (w : ℕ) (ops : List Op)
    → w < 2 ^ 64
    → All IsWord ops
    → get_version (run w ops) ≡ (get_version w + unlock_count ops) % 2 ^ 56
unfolding run unlock_count
get_version-run w [] h k = omega (arith, get_version_lem w)
get_version-run w (op ∷ ops) h k = omega (
  arith,
  apply-version w op h k.0,
  get_version-run (apply w op).0 ops (apply-view w op h k.0).0 k.1,
)

-- A word that was read before fewer than 2 ^ 56 releases, and at least one, does not take the lock.
pub try_lock-stale :
    (w : ℕ) (ops : List Op)
    → w < 2 ^ 64
    → All IsWord ops
    → 0 < unlock_count ops
    → unlock_count ops < 2 ^ 56
    → try_lock (run w ops) w ≡ (run w ops, false)
unfolding try_lock
try_lock-stale w ops h k some_release few =
    let moved : (run w ops == w) ≡ false = ground (
      arith,
      get_version-run w ops h k,
      get_version_lem w,
      ap get_version {x = run w ops} {y = w},
    ) in
    ground arith
