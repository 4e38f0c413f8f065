-- ===== src/PageState/Layout.antt =====
-- crates/lightning-core/src/storage/page_state.rs: the masks and shifts as arithmetic on the word.
use Prim.Native.Nat.{bit_and, bit_or}
use lightning_db.Prelude.{ℕ, ◌+◌, ◌-◌, ◌*◌, ◌/◌, ◌%◌, ◌^◌, ◌<◌, ◌≡◌, ap, ap₂, ◌∙◌, arith, ◌==◌}
use lightning_db.Prelude.Bits.{
  bit_and-mask, bit_and-bit_or, bit_or-shifted, bit_or-field, bit_or-pow, bit-eq-div,
}
use lightning_db.PageState.{
  state_mask, version_mask, dirty_mask, referenced_mask, complement, get_state, get_version,
  is_dirty, is_referenced, update_state_with_same_version, update_state_and_increment_version,
  set_dirty, clear_dirty, set_referenced, clear_referenced,
}

module _ (w : ℕ) where
  pub get_state_lem : get_state w ≡ w / 2 ^ 56 % 64
  unfolding get_state
  get_state_lem = omega (arith, bit_and-mask w 6 56)

  pub get_version_lem : get_version w ≡ w % 2 ^ 56
  unfolding get_version
  get_version_lem = omega (arith, bit_and-mask w 56 0)

  pub dirty_bit : bit_and w dirty_mask ≡ w / 2 ^ 63 % 2 * 2 ^ 63
  dirty_bit = bit_and-mask w 1 63

  pub referenced_bit : bit_and w referenced_mask ≡ w / 2 ^ 62 % 2 * 2 ^ 62
  referenced_bit = bit_and-mask w 1 62

  pub is_dirty_lem : is_dirty w ≡ (w / 2 ^ 63 % 2 == 1)
  unfolding is_dirty
  is_dirty_lem = ground (arith, dirty_bit)

  pub is_referenced_lem : is_referenced w ≡ (w / 2 ^ 62 % 2 == 1)
  unfolding is_referenced
  is_referenced_lem = ground (arith, referenced_bit)

  pub high_bits : bit_and w 0xc000_0000_0000_0000 ≡ w / 2 ^ 62 % 4 * 2 ^ 62
  high_bits = bit_and-mask w 2 62

  pub low_bits : bit_and w version_mask ≡ w % 2 ^ 56
  low_bits = omega (arith, bit_and-mask w 56 0)

  pub without_state :
      bit_and w (complement state_mask) ≡ bit_or (w / 2 ^ 62 % 4 * 2 ^ 62) (w % 2 ^ 56)
  without_state =
      bit_and-bit_or w 0xc000_0000_0000_0000 version_mask ∙ ap₂ bit_or high_bits low_bits

-- The word without its state is the flags and the version; the new state goes in between.
pub update_state_with_same_version_lem :
    (w n : ℕ)
    → w < 2 ^ 64
    → n < 64
    → update_state_with_same_version w n ≡ w / 2 ^ 62 * 2 ^ 62 + n * 2 ^ 56 + w % 2 ^ 56
unfolding update_state_with_same_version
update_state_with_same_version_lem w n h k = omega (
  arith,
  ap (λ (x : ℕ). bit_or x (n * 2 ^ 56)) (without_state w),
  bit_or-field 56 6 (w / 2 ^ 62 % 4) n (w % 2 ^ 56) (omega arith) (omega arith),
  bit_or-shifted 62 (w / 2 ^ 62 % 4) (w % 2 ^ 56) (omega arith),
)

without_both :
    (w : ℕ)
    → w < 2 ^ 64
    → bit_and (bit_and w (complement state_mask)) (complement version_mask) ≡ w / 2 ^ 62 * 2 ^ 62
without_both w h = omega (
  arith,
  bit_and-mask (bit_and w (complement state_mask)) 8 56,
  without_state w,
  bit_or-shifted 62 (w / 2 ^ 62 % 4) (w % 2 ^ 56) (omega arith),
)

new_version_lem :
    (w : ℕ)
    → bit_and ((bit_and w version_mask + 1) % 2 ^ 64) version_mask ≡ (w % 2 ^ 56 + 1) % 2 ^ 56
new_version_lem w = omega (arith, low_bits w, low_bits ((bit_and w version_mask + 1) % 2 ^ 64))

pub update_state_and_increment_version_lem :
    (w n : ℕ)
    → w < 2 ^ 64
    → n < 64
    → update_state_and_increment_version w n
      ≡ w / 2 ^ 62 * 2 ^ 62 + n * 2 ^ 56 + (w % 2 ^ 56 + 1) % 2 ^ 56
unfolding update_state_and_increment_version
update_state_and_increment_version_lem w n h k =
    ap₂ (λ (x y : ℕ). bit_or (bit_or x (n * 2 ^ 56)) y) (without_both w h) (new_version_lem w)
    ∙ ap (λ (x : ℕ). bit_or x ((w % 2 ^ 56 + 1) % 2 ^ 56))
        (bit_or-shifted 62 (w / 2 ^ 62) (n * 2 ^ 56) (omega arith)
          ∙ (let e : w / 2 ^ 62 * 2 ^ 62 + n * 2 ^ 56 ≡ (w / 2 ^ 62 * 64 + n) * 2 ^ 56 =
                omega arith in
              e))
    ∙ bit_or-shifted 56 (w / 2 ^ 62 * 64 + n) ((w % 2 ^ 56 + 1) % 2 ^ 56) (omega arith)
    ∙ omega arith

pub set_dirty_lem : (w : ℕ) → w < 2 ^ 64 → set_dirty w ≡ 2 ^ 63 + w % 2 ^ 63
unfolding set_dirty
set_dirty_lem w h = ground (arith, bit_or-pow w 63, bit-eq-div w 63)

pub clear_dirty_lem : (w : ℕ) → clear_dirty w ≡ w % 2 ^ 63
unfolding clear_dirty
clear_dirty_lem w = omega (arith, bit_and-mask w 63 0)

pub set_referenced_lem :
    (w : ℕ) → w < 2 ^ 64 → set_referenced w ≡ w / 2 ^ 63 * 2 ^ 63 + 2 ^ 62 + w % 2 ^ 62
unfolding set_referenced
set_referenced_lem w h = ground (arith, bit_or-pow w 62, bit-eq-div w 62)

pub clear_referenced_lem :
    (w : ℕ) → w < 2 ^ 64 → clear_referenced w ≡ w / 2 ^ 63 * 2 ^ 63 + w % 2 ^ 62
unfolding clear_referenced
clear_referenced_lem w h =
    bit_and-bit_or w dirty_mask (2 ^ 62 - 1)
    ∙ ap₂ bit_or (dirty_bit w) (bit_and-mask w 62 0)
    ∙ (let e : w / 2 ^ 0 % 2 ^ 62 * 2 ^ 0 ≡ w % 2 ^ 62 = omega arith in
        ap (bit_or (w / 2 ^ 63 % 2 * 2 ^ 63)) e)
    ∙ bit_or-shifted 63 (w / 2 ^ 63 % 2) (w % 2 ^ 62) (omega arith)
    ∙ omega arith
