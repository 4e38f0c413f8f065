-- ===== src/PageState.antt =====
-- crates/lightning-core/src/storage/page_state.rs: the word that packs a page's lock state, its version
-- and two flags. Each operation takes effect in one atomic step on the word, the compare-and-exchange
-- loop of `unlock` in the exchange that succeeds, so an operation is a function of the word.
mod Layout
mod Fields
mod Locking
mod Versions
mod Tests
use Prim.Native.Nat.{bit_and, bit_or}
use lightning_db.Prelude.{
  ℕ, ◌+◌, ◌-◌, ◌*◌, ◌/◌, ◌%◌, ◌^◌, Bool, true, false, not, List, [], ◌∷◌, ◌==◌, if◌then◌else◌,
}

abbrev pub unlocked : ℕ
unlocked = 0

abbrev pub locked : ℕ
locked = 1

abbrev pub marked : ℕ
marked = 2

abbrev pub evicted : ℕ
evicted = 3

abbrev pub dirty_mask : ℕ
dirty_mask = 0x8000_0000_0000_0000

abbrev pub referenced_mask : ℕ
referenced_mask = 0x4000_0000_0000_0000

abbrev pub state_mask : ℕ
state_mask = 0x3f00_0000_0000_0000

abbrev pub version_mask : ℕ
version_mask = 0x00ff_ffff_ffff_ffff

-- !mask, on a u64
abbrev pub complement : ℕ → ℕ
complement mask = 2 ^ 64 - 1 - mask

unfoldable pub new : ℕ
new = evicted * 2 ^ 56

unfoldable pub get_state : ℕ → ℕ
get_state val = bit_and val state_mask / 2 ^ 56

unfoldable pub get_version : ℕ → ℕ
get_version val = bit_and val version_mask

unfoldable pub is_dirty : ℕ → Bool
is_dirty val = not (bit_and val dirty_mask == 0)

unfoldable pub is_referenced : ℕ → Bool
is_referenced val = not (bit_and val referenced_mask == 0)

unfoldable pub update_state_with_same_version : ℕ → ℕ → ℕ
update_state_with_same_version old_val new_state =
    bit_or (bit_and old_val (complement state_mask)) (new_state * 2 ^ 56)

unfoldable pub update_state_and_increment_version : ℕ → ℕ → ℕ
update_state_and_increment_version old_val new_state =
    let new_version = bit_and ((bit_and old_val version_mask + 1) % 2 ^ 64) version_mask in
    bit_or
      (bit_or (bit_and (bit_and old_val (complement state_mask)) (complement version_mask))
        (new_state * 2 ^ 56))
      new_version

-- The new word, and whether the exchange was made.
abbrev pub compare_exchange : ℕ → ℕ → ℕ → ℕ × Bool
compare_exchange val old_val new_val = if val == old_val then (new_val, true) else (val, false)

unfoldable pub try_lock : ℕ → ℕ → ℕ × Bool
unfolding update_state_with_same_version
try_lock val old_state_and_version =
    if bit_and old_state_and_version state_mask == locked * 2 ^ 56
    then (val, false)
    else compare_exchange val old_state_and_version
        (update_state_with_same_version old_state_and_version locked)

unfoldable pub unlock : ℕ → ℕ
unfolding update_state_and_increment_version
unlock val = update_state_and_increment_version val unlocked

unfoldable pub set_dirty : ℕ → ℕ
set_dirty val = bit_or val dirty_mask

unfoldable pub clear_dirty : ℕ → ℕ
clear_dirty val = bit_and val (complement dirty_mask)

unfoldable pub set_referenced : ℕ → ℕ
set_referenced val = bit_or val referenced_mask

unfoldable pub clear_referenced : ℕ → ℕ
clear_referenced val = bit_and val (complement referenced_mask)
