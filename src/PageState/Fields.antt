-- ===== src/PageState/Fields.antt =====
-- crates/lightning-core/src/storage/page_state.rs: the packed word as a record of its four fields, and
-- what each operation does to it.
use Prim.Native.Nat.{bit_and}
use lightning_db.Prelude.Bits.{bit_and-mask}
use lightning_db.Prelude.{ℕ, ◌+◌, ◌*◌, ◌%◌, ◌^◌, ◌<◌, ◌≡◌, Bool, true, false, arith, ◌==◌}
use lightning_db.PageState.{
  state_mask, get_state, get_version, is_dirty, is_referenced, locked, unlocked,
  update_state_with_same_version, unlock, set_dirty, clear_dirty, set_referenced, clear_referenced,
}
use lightning_db.PageState.Layout.{
  get_state_lem, get_version_lem, is_dirty_lem, is_referenced_lem,
  update_state_with_same_version_lem, update_state_and_increment_version_lem, set_dirty_lem,
  clear_dirty_lem, set_referenced_lem, clear_referenced_lem,
}

pub record View : Type 0 where
  pub dirty : Bool
  pub referenced : Bool
  pub state : ℕ
  pub version : ℕ

unfoldable pub view : ℕ → View
view w = record {
  dirty = is_dirty w;
  referenced = is_referenced w;
  state = get_state w;
  version = get_version w;
}

module _ (w : ℕ) (fits : w < 2 ^ 64) where
  -- Two words with the same four fields are one word.
  pub view_injective : (w' : ℕ) → w' < 2 ^ 64 → view w ≡ view w' → w ≡ w'
  unfolding view
  view_injective w' h e = ground (
    arith,
    get_state_lem w,
    get_version_lem w,
    is_dirty_lem w,
    is_referenced_lem w,
    get_state_lem w',
    get_version_lem w',
    is_dirty_lem w',
    is_referenced_lem w',
  )

  pub unlock-view :
      (unlock w < 2 ^ 64)
      × (view (unlock w)
          ≡ record (view w) { state = unlocked; version = ((view w).version + 1) % 2 ^ 56 })
  unfolding view unlock
  unlock-view = ground (
    arith,
    update_state_and_increment_version_lem w 0,
    get_state_lem w,
    get_version_lem w,
    is_dirty_lem w,
    is_referenced_lem w,
    get_state_lem (unlock w),
    get_version_lem (unlock w),
    is_dirty_lem (unlock w),
    is_referenced_lem (unlock w),
  )

  pub set_dirty-view :
      (set_dirty w < 2 ^ 64) × (view (set_dirty w) ≡ record (view w) { dirty = true })
  unfolding view
  set_dirty-view = ground (
    arith,
    set_dirty_lem w,
    get_state_lem w,
    get_version_lem w,
    is_dirty_lem w,
    is_referenced_lem w,
    get_state_lem (set_dirty w),
    get_version_lem (set_dirty w),
    is_dirty_lem (set_dirty w),
    is_referenced_lem (set_dirty w),
  )

  pub clear_dirty-view :
      (clear_dirty w < 2 ^ 64) × (view (clear_dirty w) ≡ record (view w) { dirty = false })
  unfolding view
  clear_dirty-view = ground (
    arith,
    clear_dirty_lem w,
    get_state_lem w,
    get_version_lem w,
    is_dirty_lem w,
    is_referenced_lem w,
    get_state_lem (clear_dirty w),
    get_version_lem (clear_dirty w),
    is_dirty_lem (clear_dirty w),
    is_referenced_lem (clear_dirty w),
  )

  pub set_referenced-view :
      (set_referenced w < 2 ^ 64)
      × (view (set_referenced w) ≡ record (view w) { referenced = true })
  unfolding view
  set_referenced-view = ground (
    arith,
    set_referenced_lem w,
    get_state_lem w,
    get_version_lem w,
    is_dirty_lem w,
    is_referenced_lem w,
    get_state_lem (set_referenced w),
    get_version_lem (set_referenced w),
    is_dirty_lem (set_referenced w),
    is_referenced_lem (set_referenced w),
  )

  pub clear_referenced-view :
      (clear_referenced w < 2 ^ 64)
      × (view (clear_referenced w) ≡ record (view w) { referenced = false })
  unfolding view
  clear_referenced-view = ground (
    arith,
    clear_referenced_lem w,
    get_state_lem w,
    get_version_lem w,
    is_dirty_lem w,
    is_referenced_lem w,
    get_state_lem (clear_referenced w),
    get_version_lem (clear_referenced w),
    is_dirty_lem (clear_referenced w),
    is_referenced_lem (clear_referenced w),
  )

  pub lock-view :
      (update_state_with_same_version w locked < 2 ^ 64)
      × (view (update_state_with_same_version w locked) ≡ record (view w) { state = locked })
  unfolding view
  lock-view = ground (
    arith,
    update_state_with_same_version_lem w 1,
    get_state_lem w,
    get_version_lem w,
    is_dirty_lem w,
    is_referenced_lem w,
    get_state_lem (update_state_with_same_version w 1),
    get_version_lem (update_state_with_same_version w 1),
    is_dirty_lem (update_state_with_same_version w 1),
    is_referenced_lem (update_state_with_same_version w 1),
  )

pub state_test : (w : ℕ) → (bit_and w state_mask == locked * 2 ^ 56) ≡ (get_state w == locked)
state_test w = ground (arith, get_state_lem w, bit_and-mask w 6 56)
