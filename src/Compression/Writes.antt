-- ===== src/Compression/Writes.antt =====
-- crates/lightning-core/src/storage/compression/bitpacking.rs: what `write_bits` leaves in the buffer.
use Prim.Native.Nat.{bit_and, bit_or}
use lightning_db.Prelude.{
  ℕ, zero, suc, ◌+◌, ◌-◌, ◌*◌, ◌/◌, ◌%◌, ◌^◌, ◌≤◌, ◌<◌, ◌≡◌, refl, ap, sym, ◌∙◌, min, false, ◌&&◌,
  ◌||◌, List, arith, ltb, leb, ◌==◌, if◌then◌else◌, Bool-cases, inl, inr, length, get_or, set,
  is_empty, get_or-set, length-set,
}
use lightning_db.Prelude.Bits.{bit}
use lightning_db.Prelude.Bytes.{
  le_bytes, from_le_bytes, slice, copy_to, get_or-copy_to, length-copy_to, length-le_bytes,
}
use lightning_db.Compression.{complement, in_word, write_word, write_bits_loop, write_bits}
use lightning_db.Compression.Bytes.{
  bit_at, AreBytes, bit-from_le_bytes, bit_at-le_bytes, le_bytes-AreBytes, slice-AreBytes,
  bit_at-slice, room_nonempty,
}
use lightning_db.Compression.Fields.{bit-put_word, bit-put_byte, put_byte-lt}

-- `after` has `w` bits of the value from bit `b` on, and the other bits of `before`; its length and its
-- bytes stay.
abbrev pub Puts : ℕ → ℕ → ℕ → List ℕ → List ℕ → Type 0
Puts val w b before after =
    ((k : ℕ)
      → bit_at after k ≡ (if leb b k && ltb k (b + w) then bit val (k - b) else bit_at before k))
    × length after ≡ length before
    × AreBytes after

-- The bytes of a new word.
word_in :
    (bytes : List ℕ) (start v k : ℕ)
    → start + 8 ≤ length bytes
    → bit_at (copy_to bytes start (le_bytes 8 v)) k ≡ (
        if leb (8 * start) k && ltb k (8 * start + 64)
        then bit v (k - 8 * start)
        else bit_at bytes k)
word_in bytes start v k h =
    let whole =
      get_or-copy_to bytes start (le_bytes 8 v) (k / 8) 0 (omega (arith, length-le_bytes 8 v)) in
    elim (Bool-cases (leb (8 * start) k && ltb k (8 * start + 64))) [
      | inl inside ↦
          let byte : (k - 8 * start) / 8 ≡ k / 8 - start = ground arith in
          let place : (k - 8 * start) % 8 ≡ k % 8 = ground arith in
          let new : get_or (copy_to bytes start (le_bytes 8 v)) (k / 8) 0
              ≡ get_or (le_bytes 8 v) (k / 8 - start) 0 =
            ground (arith, length-le_bytes 8 v) in
          rw (inside, new, sym byte, sym place) (bit_at-le_bytes 8 v (k - 8 * start) (ground arith))
      | inr outside ↦
          let old : get_or (copy_to bytes start (le_bytes 8 v)) (k / 8) 0 ≡ get_or bytes (k / 8) 0 =
            ground (arith, length-le_bytes 8 v) in
          rw (outside, old) refl
    ]

word_in-AreBytes :
    (bytes : List ℕ) (start v : ℕ)
    → start + 8 ≤ length bytes
    → AreBytes bytes
    → AreBytes (copy_to bytes start (le_bytes 8 v))
word_in-AreBytes bytes start v h small i = ground (
  arith,
  get_or-copy_to bytes start (le_bytes 8 v) i 0 (omega (arith, length-le_bytes 8 v)),
  small i,
  le_bytes-AreBytes 8 v (i - start),
)

pub write_word-Puts :
    (val w b : ℕ) (bytes : List ℕ)
    → b % 64 + w ≤ 64
    → b / 64 * 8 + 8 ≤ length bytes
    → AreBytes bytes
    → Puts val w b bytes (write_word val w b bytes)
unfolding write_word
write_word-Puts val w b bytes fits whole small =
    let start : ℕ = b / 64 * 8 in
    let s : ℕ = b % 64 in
    let old : ℕ = from_le_bytes (slice bytes start 8) in
    let mask : ℕ = (2 ^ w - 1) * 2 ^ s in
    let word : ℕ =
      bit_or (bit_and old (complement 64 mask)) (bit_and (val * 2 ^ s % 2 ^ 64) mask) in
    (
      λ k.
          word_in bytes start word k whole
          ∙ (elim (Bool-cases (leb (8 * start) k && ltb k (8 * start + 64))) [
            | inl inside ↦
                let i : ℕ = k - 8 * start in
                let kept : bit old i ≡ bit_at bytes k =
                  bit-from_le_bytes (slice bytes start 8) i (slice-AreBytes bytes start 8 small)
                  ∙ bit_at-slice bytes start 8 i (ground arith)
                  ∙ ap (bit_at bytes)
                      (let e : 8 * start + (k - 8 * start) ≡ k = ground arith in e) in
                let field = bit-put_word w s i old val fits (ground arith) in
                let from : (k - 8 * start) - s ≡ k - b = omega arith in
                rw inside (field ∙ rw from (rw kept (ground arith)))
            | inr outside ↦ rw outside (ground arith)
          ]),
      length-copy_to bytes start (le_bytes 8 word) (omega (arith, length-le_bytes 8 word)),
      word_in-AreBytes bytes start word whole small,
    )

-- The bits of a buffer with a new byte.
byte_in :
    (bytes : List ℕ) (j byte k : ℕ)
    → j < length bytes
    → bit_at (set bytes j byte) k ≡ (if j == k / 8 then bit byte (k % 8) else bit_at bytes k)
byte_in bytes j byte k h = elim (Bool-cases (j == k / 8)) [
  | inl here ↦
      rw here (ap (λ (a : ℕ). bit a (k % 8)) (get_or-set bytes j (k / 8) byte 0 h ∙ rw here refl))
  | inr other ↦
      rw other (ap (λ (a : ℕ). bit a (k % 8)) (get_or-set bytes j (k / 8) byte 0 h ∙ rw other refl))
]

byte_in-AreBytes :
    (bytes : List ℕ) (j byte : ℕ)
    → j < length bytes
    → byte < 256
    → AreBytes bytes
    → AreBytes (set bytes j byte)
byte_in-AreBytes bytes j byte h new small i = ground (arith, get_or-set bytes j i byte 0 h, small i)

module _ (val w b : ℕ) where
  -- The rounds from `done` on write the rest of the field.
  abbrev PutsRest : ℕ → List ℕ → List ℕ → Type 0
  PutsRest done before after =
      ((k : ℕ)
        → bit_at after k
          ≡ (if leb (b + done) k && ltb k (b + w) then bit val (k - b) else bit_at before k))
      × length after ≡ length before
      × AreBytes after

  pub write_bits_loop-PutsRest :
      (fuel done : ℕ) (bytes : List ℕ)
      → w - done ≤ fuel
      → b + w ≤ 8 * length bytes
      → AreBytes bytes
      → PutsRest done bytes (write_bits_loop fuel val w b done bytes)
  unfolding write_bits_loop
  write_bits_loop-PutsRest zero done bytes enough room small = ((λ k. ground arith), refl, small)
  write_bits_loop-PutsRest (suc fuel) done bytes enough room small =
      elim (Bool-cases (ltb done w)) [
        | inr finished ↦ rw finished ((λ k. ground arith), refl, small)
        | inl more ↦
            let j : ℕ = (b + done) / 8 in
            let s : ℕ = (b + done) % 8 in
            let count : ℕ = min (w - done) (8 - s) in
            let old : ℕ = get_or bytes j 0 in
            let byte : ℕ =
              bit_or (bit_and old (complement 8 ((2 ^ count - 1) * 2 ^ s)))
                (bit_and (val / 2 ^ done) (2 ^ count - 1) * 2 ^ s) in
            let inside : j < length bytes = ground arith in
            let present : leb (length bytes) j ≡ false = ground arith in
            let next = set bytes j byte in
            let fits : s + count ≤ 8 = omega arith in
            let rest =
              write_bits_loop-PutsRest fuel (done + count) next (ground arith)
                (omega (arith, length-set bytes j byte))
                (byte_in-AreBytes bytes j byte inside
                  (put_byte-lt count s old val done fits (small j)) small) in
            rw (more, present)
              (
                (λ k.
                    rest.0 k
                    ∙ rw (byte_in bytes j byte k inside) (elim (Bool-cases (j == k / 8)) [
                      | inl here ↦
                          let same : j ≡ k / 8 = ground arith in
                          let field =
                            bit-put_byte count s (k % 8) old val done fits (omega arith) in
                          let kept : bit old (k % 8) ≡ bit_at bytes k =
                            ap (λ (a : ℕ). bit (get_or bytes a 0) (k % 8)) same in
                          rw here (
                            rw (field, kept)
                              (elim (Bool-cases (leb s (k % 8))) [
                                | inl later ↦
                                    let from : done + (k % 8 - s) ≡ k - b = ground arith in
                                    rw from (ground arith)
                                | inr earlier ↦ ground arith
                              ]))
                      | inr other ↦ rw other (ground arith)
                    ])),
                rest.1 ∙ length-set bytes j byte,
                rest.2,
              )
      ]

pub write_bits-Puts :
    (val w b : ℕ) (bytes : List ℕ)
    → 0 < w
    → w < 64
    → b + w ≤ 8 * length bytes
    → AreBytes bytes
    → Puts val w b bytes (write_bits val w b bytes)
unfolding write_bits
write_bits-Puts val w b bytes some_bits narrow room small =
    let present : (w == 0 || leb 64 w || is_empty bytes) ≡ false =
      ground (arith, room_nonempty (b + w) bytes (omega arith) room) in
    elim (Bool-cases (in_word w b bytes)) [
      | inl word ↦
          rw (present, word) (write_word-Puts val w b bytes (ground arith) (ground arith) small)
      | inr across ↦
          let parts = write_bits_loop-PutsRest val w b w 0 bytes (omega arith) room small in
          rw (present, across) ((λ k. parts.0 k ∙ ground arith), parts.1, parts.2)
    ]
