-- ===== src/Compression/Bytes.antt =====
-- crates/lightning-core/src/storage/compression/bitpacking.rs: the bits of a buffer, of its words and of
-- its bytes.
use lightning_db.Prelude.{
  ℕ, zero, suc, ◌+◌, ◌-◌, ◌*◌, ◌/◌, ◌%◌, ◌^◌, ◌≤◌, ◌<◌, ◌≡◌, refl, ap, sym, ◌∙◌, List, [], is_empty,
  false, ◌∷◌, arith, ltb, if◌then◌else◌, length, get_or, drop, length-take, get_or-beyond,
  Bool-cases, inl, inr,
}
use lightning_db.Prelude.Bits.{bit, bit-zero, bit-mod-pow, bit-div-pow, pow-suc}
use lightning_db.Prelude.Bytes.{le_bytes, from_le_bytes, slice, get_or-take, get_or-drop_at}

-- Bit k of a buffer.
abbrev pub bit_at : List ℕ → ℕ → ℕ
bit_at bytes k = bit (get_or bytes (k / 8) 0) (k % 8)

abbrev pub AreBytes : List ℕ → Type 0
AreBytes bytes = (i : ℕ) → get_or bytes i 0 < 256

pub room_nonempty : (n : ℕ) (bytes : List ℕ) → 0 < n → n ≤ 8 * length bytes → is_empty bytes ≡ false
room_nonempty n [] h room = absurd (omega arith)
room_nonempty n (x ∷ bytes) h room = refl

-- The complement has the other bits.
pub bit-complement :
    (n m i : ℕ) → m < 2 ^ n → bit (2 ^ n - 1 - m) i ≡ (if ltb i n then 1 - bit m i else 0)
bit-complement zero m i h =
    ap (λ (a : ℕ). bit a i) (let e : 0 - m ≡ 0 = omega arith in e) ∙ bit-zero i ∙ ground arith
bit-complement (suc n) m zero h = ground (arith, pow-suc n)
bit-complement (suc n) m (suc i) h =
    let e : (2 ^ suc n - 1 - m) / 2 ≡ 2 ^ n - 1 - m / 2 = omega (arith, pow-suc n) in
    let h' : m / 2 < 2 ^ n = omega (arith, pow-suc n) in
    ap (λ (a : ℕ). bit a i) e ∙ bit-complement n (m / 2) i h' ∙ ground arith

-- The bits of a number by its low byte and the rest.
bit_split : (a k : ℕ) → bit a k ≡ (if ltb k 8 then bit (a % 256) k else bit (a / 256) (k - 8))
bit_split a k = elim (Bool-cases (ltb k 8)) [
  | inl low ↦ rw low (sym (bit-mod-pow 8 a k ∙ rw low refl))
  | inr high ↦
      let e : 8 + (k - 8) ≡ k = ground arith in
      rw high (sym (bit-div-pow 8 a (k - 8) ∙ ap (bit a) e))
]

-- The same for a buffer.
bit_at_split :
    (b : ℕ) (bytes : List ℕ) (k : ℕ)
    → bit_at (b ∷ bytes) k ≡ (if ltb k 8 then bit b k else bit_at bytes (k - 8))
bit_at_split b bytes k = elim (Bool-cases (ltb k 8)) [
  | inl low ↦
      let first : k / 8 ≡ 0 = ground arith in
      let same : k % 8 ≡ k = ground arith in rw (low, first, same) refl
  | inr high ↦
      let later : k / 8 ≡ suc ((k - 8) / 8) = ground arith in
      let same : k % 8 ≡ (k - 8) % 8 = ground arith in rw (high, later, same) refl
]

pub bit-from_le_bytes :
    (bytes : List ℕ) (k : ℕ) → AreBytes bytes → bit (from_le_bytes bytes) k ≡ bit_at bytes k
unfolding from_le_bytes
bit-from_le_bytes [] k h = bit-zero k ∙ sym (bit-zero (k % 8))
bit-from_le_bytes (b ∷ bytes) k h =
    let low_byte : (b + 256 * from_le_bytes bytes) % 256 ≡ b = omega (arith, h 0) in
    let others : (b + 256 * from_le_bytes bytes) / 256 ≡ from_le_bytes bytes = omega (arith, h 0) in
    bit_split (b + 256 * from_le_bytes bytes) k
    ∙ rw (low_byte, others, bit-from_le_bytes bytes (k - 8) (λ i. h (suc i)))
        (sym (bit_at_split b bytes k))

pub bit_at-le_bytes : (n v k : ℕ) → k < 8 * n → bit_at (le_bytes n v) k ≡ bit v k
unfolding le_bytes
bit_at-le_bytes zero v k h = absurd (omega arith)
bit_at-le_bytes (suc n) v k h =
    bit_at_split (v % 256) (le_bytes n (v / 256)) k
    ∙ (elim (Bool-cases (ltb k 8)) [
      | inl low ↦ rw low refl
      | inr high ↦ rw high (bit_at-le_bytes n (v / 256) (k - 8) (ground arith))
    ])
    ∙ sym (bit_split v k)

pub le_bytes-AreBytes : (n v : ℕ) → AreBytes (le_bytes n v)
unfolding le_bytes
le_bytes-AreBytes zero v i = omega arith
le_bytes-AreBytes (suc n) v zero = omega arith
le_bytes-AreBytes (suc n) v (suc i) = le_bytes-AreBytes n (v / 256) i

pub slice-AreBytes :
    (bytes : List ℕ) (start n : ℕ) → AreBytes bytes → AreBytes (slice bytes start n)
slice-AreBytes bytes start n h i = elim (Bool-cases (ltb i n)) [
  | inl inside ↦
      ground
        (arith, get_or-take n i (drop start bytes) 0, get_or-drop_at start i bytes 0, h (start + i))
  | inr outside ↦
      ground (arith, get_or-beyond (slice bytes start n) i 0, length-take n (drop start bytes))
]

-- The bits of whole bytes of a buffer.
pub bit_at-slice :
    (bytes : List ℕ) (start n k : ℕ)
    → k < 8 * n
    → bit_at (slice bytes start n) k ≡ bit_at bytes (8 * start + k)
bit_at-slice bytes start n k h =
    let byte : start + k / 8 ≡ (8 * start + k) / 8 = omega arith in
    let place : k % 8 ≡ (8 * start + k) % 8 = omega arith in
    let inside : k / 8 < n = omega arith in
    rw
      (
        get_or-take n (k / 8) (drop start bytes) 0 inside,
        get_or-drop_at start (k / 8) bytes 0,
        byte,
        place,
      )
      refl
