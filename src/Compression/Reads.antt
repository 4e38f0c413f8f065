-- ===== src/Compression/Reads.antt =====
-- crates/lightning-core/src/storage/compression/bitpacking.rs: what `read_bits` takes from the buffer.
use Prim.Native.Nat.{bit_and, bit_or}
use lightning_db.Prelude.{
  ℕ, zero, suc, ◌+◌, ◌-◌, ◌*◌, ◌/◌, ◌%◌, ◌^◌, ◌≤◌, ◌<◌, ◌≡◌, refl, ap, ◌∙◌, min, false, ◌&&◌, ◌||◌,
  List, arith, ltb, leb, ◌==◌, if◌then◌else◌, Bool-cases, inl, inr, length, get_or, is_empty,
}
use lightning_db.Prelude.Bits.{bit, bit-bit_or, bit-mul-pow, bit-zero}
use lightning_db.Prelude.Bytes.{from_le_bytes, slice}
use lightning_db.Compression.{in_word, read_bits_loop, read_bits}
use lightning_db.Compression.Bytes.{
  bit_at, AreBytes, bit-from_le_bytes, slice-AreBytes, bit_at-slice, room_nonempty,
}
use lightning_db.Compression.Fields.{bit-get_field}

module _ (w b : ℕ) (bytes : List ℕ) where
  -- A round adds the bits that a byte has from the round's place on.
  bit-added :
      (count done val k : ℕ)
      → (b + done) % 8 + count ≤ 8
      → ((i : ℕ) → done ≤ i → bit val i ≡ 0)
      → bit
          (bit_or val (
            bit_and (get_or bytes ((b + done) / 8) 0 / 2 ^ ((b + done) % 8)) (2 ^ count - 1)
            * 2 ^ done))
          k
        ≡ (if leb done k && ltb k (done + count) then bit_at bytes (b + k) else bit val k)
  bit-added count done val k fits none_later =
      let j : ℕ = (b + done) / 8 in
      let s : ℕ = (b + done) % 8 in
      let byte : ℕ = get_or bytes j 0 in
      let bits : ℕ = bit_and (byte / 2 ^ s) (2 ^ count - 1) in
      let whole = bit-bit_or val (bits * 2 ^ done) k in
      let moved = bit-mul-pow done bits k in
      let field = bit-get_field count s (k - done) byte in
      elim (Bool-cases (leb done k && ltb k (done + count))) [
        | inl inside ↦
            let same_byte : j ≡ (b + k) / 8 = ground arith in
            let place : s + (k - done) ≡ (b + k) % 8 = ground arith in
            let value : bit byte (s + (k - done)) ≡ bit_at bytes (b + k) =
              rw (same_byte, place) refl in
            rw inside (whole ∙ ground (arith, moved, field, none_later k))
        | inr outside ↦ rw outside (whole ∙ ground (arith, moved, field))
      ]

  pub bit-read_bits_loop :
      (fuel done val i : ℕ)
      → w - done ≤ fuel
      → b + w ≤ 8 * length bytes
      → ((k : ℕ) → done ≤ k → bit val k ≡ 0)
      → bit (read_bits_loop fuel w b done val bytes) i
        ≡ (if leb done i && ltb i w then bit_at bytes (b + i) else bit val i)
  unfolding read_bits_loop
  bit-read_bits_loop zero done val i enough room none_later = ground arith
  bit-read_bits_loop (suc fuel) done val i enough room none_later = elim (Bool-cases (ltb done w)) [
    | inr finished ↦ rw finished (ground arith)
    | inl more ↦
        let j : ℕ = (b + done) / 8 in
        let s : ℕ = (b + done) % 8 in
        let count : ℕ = min (w - done) (8 - s) in
        let byte : ℕ = get_or bytes j 0 in
        let bits : ℕ = bit_and (byte / 2 ^ s) (2 ^ count - 1) in
        let inside : j < length bytes = ground arith in
        let present : leb (length bytes) j ≡ false = ground arith in
        let digit : (k : ℕ)
            → bit (bit_or val (bits * 2 ^ done)) k
              ≡ (if leb done k && ltb k (done + count) then bit_at bytes (b + k) else bit val k) =
          λ k. bit-added count done val k (omega arith) none_later in
        rw (more, present)
          (bit-read_bits_loop fuel (done + count) (bit_or val (bits * 2 ^ done)) i (ground arith)
              room (λ k p. digit k ∙ ground (arith, none_later k))
            ∙ rw (digit i) (ground arith))
  ]

  pub bit-read_bits :
      (i : ℕ)
      → 0 < w
      → w < 64
      → b + w ≤ 8 * length bytes
      → AreBytes bytes
      → bit (read_bits w b bytes) i ≡ (if ltb i w then bit_at bytes (b + i) else 0)
  unfolding read_bits
  bit-read_bits i some_bits narrow room small =
      let present : (w == 0 || leb 64 w || is_empty bytes) ≡ false =
        ground (arith, room_nonempty (b + w) bytes (omega arith) room) in
      elim (Bool-cases (in_word w b bytes)) [
        | inl word ↦
            let start : ℕ = b / 64 * 8 in
            let s : ℕ = b % 64 in
            let old : ℕ = from_le_bytes (slice bytes start 8) in
            rw (present, word)
              (bit-get_field w s i old ∙ (elim (Bool-cases (ltb i w)) [
                | inl inside ↦
                    let place : 8 * start + (s + i) ≡ b + i = omega arith in
                    rw inside (
                      bit-from_le_bytes (slice bytes start 8) (s + i)
                        (slice-AreBytes bytes start 8 small)
                      ∙ bit_at-slice bytes start 8 (s + i) (ground arith)
                      ∙ ap (bit_at bytes) place)
                | inr outside ↦ rw outside refl
              ]))
        | inr across ↦
            rw (present, across)
              (bit-read_bits_loop w 0 0 i (omega arith) room (λ k p. bit-zero k)
                ∙ ground (arith, bit-zero i))
      ]
