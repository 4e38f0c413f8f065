-- ===== src/Compression/Fields.antt =====
-- crates/lightning-core/src/storage/compression/bitpacking.rs: the bits that a masked write leaves in one
-- word or byte, and that a masked read takes.
use Prim.Native.Nat.{bit_and, bit_or}
use lightning_db.Prelude.{
  ℕ, ◌+◌, ◌-◌, ◌*◌, ◌/◌, ◌%◌, ◌^◌, ◌≤◌, ◌<◌, ◌≡◌, ◌∙◌, ◌&&◌, arith, ltb, leb, if◌then◌else◌,
}
use lightning_db.Prelude.Bits.{
  bit, bit-bit_and, bit-bit_or, bit-mod-pow, bit-div-pow, bit-mul-pow, bit-ones, bit-le_one,
  lt-pow_of_bits, bit-lt-pow,
}
use lightning_db.Compression.{complement}
use lightning_db.Compression.Bytes.{bit-complement}

-- Bit i of w ones that stand from bit s on.
bit-field_mask :
    (w s i : ℕ) → bit ((2 ^ w - 1) * 2 ^ s) i ≡ (if leb s i && ltb i (s + w) then 1 else 0)
bit-field_mask w s i = ground (arith, bit-mul-pow s (2 ^ w - 1) i, bit-ones w (i - s))

field_mask-lt : (n w s : ℕ) → s + w ≤ n → (2 ^ w - 1) * 2 ^ s < 2 ^ n
field_mask-lt n w s h = lt-pow_of_bits n _ (λ i p. bit-field_mask w s i ∙ ground arith)

-- The field is cleared, the other bits stay.
bit-cleared :
    (n w s i old : ℕ)
    → s + w ≤ n
    → i < n
    → bit (bit_and old (complement n ((2 ^ w - 1) * 2 ^ s))) i
      ≡ (if leb s i && ltb i (s + w) then 0 else bit old i)
bit-cleared n w s i old h p =
    bit-bit_and old (complement n ((2 ^ w - 1) * 2 ^ s)) i
    ∙ ground (
      arith,
      bit-complement n ((2 ^ w - 1) * 2 ^ s) i (field_mask-lt n w s h),
      bit-field_mask w s i,
      bit-le_one old i,
    )

-- A field of a word takes the low bits of the value.
pub bit-put_word :
    (w s i old val : ℕ)
    → s + w ≤ 64
    → i < 64
    → bit
        (bit_or
          (bit_and old (complement 64 ((2 ^ w - 1) * 2 ^ s)))
          (bit_and (val * 2 ^ s % 2 ^ 64) ((2 ^ w - 1) * 2 ^ s)))
        i
      ≡ (if leb s i && ltb i (s + w) then bit val (i - s) else bit old i)
bit-put_word w s i old val h p =
    let shifted : ℕ = val * 2 ^ s % 2 ^ 64 in
    let mask : ℕ = (2 ^ w - 1) * 2 ^ s in
    bit-bit_or (bit_and old (complement 64 mask)) (bit_and shifted mask) i
    ∙ ground (
      arith,
      bit-cleared 64 w s i old h p,
      bit-bit_and shifted mask i,
      bit-mod-pow 64 (val * 2 ^ s) i,
      bit-mul-pow s val i,
      bit-field_mask w s i,
      bit-le_one val (i - s),
      bit-le_one old i,
    )

-- A field of a byte takes `w` bits of the value, from bit `from` on.
pub bit-put_byte :
    (w s i old val from : ℕ)
    → s + w ≤ 8
    → i < 8
    → bit
        (bit_or
          (bit_and old (complement 8 ((2 ^ w - 1) * 2 ^ s)))
          (bit_and (val / 2 ^ from) (2 ^ w - 1) * 2 ^ s))
        i
      ≡ (if leb s i && ltb i (s + w) then bit val (from + (i - s)) else bit old i)
bit-put_byte w s i old val from h p =
    let bits : ℕ = bit_and (val / 2 ^ from) (2 ^ w - 1) in
    bit-bit_or (bit_and old (complement 8 ((2 ^ w - 1) * 2 ^ s))) (bits * 2 ^ s) i
    ∙ ground (
      arith,
      bit-cleared 8 w s i old h p,
      bit-mul-pow s bits i,
      bit-bit_and (val / 2 ^ from) (2 ^ w - 1) (i - s),
      bit-div-pow from val (i - s),
      bit-ones w (i - s),
      bit-le_one val (from + (i - s)),
      bit-le_one old i,
    )

-- A masked read has the bits of the field.
pub bit-get_field :
    (w s i a : ℕ) → bit (bit_and (a / 2 ^ s) (2 ^ w - 1)) i ≡ (if ltb i w then bit a (s + i) else 0)
bit-get_field w s i a =
    bit-bit_and (a / 2 ^ s) (2 ^ w - 1) i
    ∙ ground (arith, bit-div-pow s a i, bit-ones w i, bit-le_one a (s + i))

-- A byte stays a byte.
pub put_byte-lt :
    (w s old val from : ℕ)
    → s + w ≤ 8
    → old < 256
    → bit_or
        (bit_and old (complement 8 ((2 ^ w - 1) * 2 ^ s)))
        (bit_and (val / 2 ^ from) (2 ^ w - 1) * 2 ^ s)
      < 256
put_byte-lt w s old val from h small =
    let kept : ℕ = complement 8 ((2 ^ w - 1) * 2 ^ s) in
    let bits : ℕ = bit_and (val / 2 ^ from) (2 ^ w - 1) in
    lt-pow_of_bits 8 _ λ i p.
      (bit-bit_or (bit_and old kept) (bits * 2 ^ s) i
        ∙ ground (
          arith,
          bit-bit_and old kept i,
          bit-lt-pow 8 old i small p,
          bit-mul-pow s bits i,
          bit-bit_and (val / 2 ^ from) (2 ^ w - 1) (i - s),
          bit-ones w (i - s),
        ))
