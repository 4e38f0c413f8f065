-- ===== src/Compression/Packing.antt =====
-- crates/lightning-core/src/storage/compression/bitpacking.rs: packed values come back.
use lightning_db.Prelude.{
  ℕ, suc, ◌+◌, ◌*◌, ◌^◌, ◌-◌, ◌%◌, map, ◌≤◌, ◌<◌, ◌≡◌, refl, ap, ap₂, sym, ◌∙◌, true, false, List,
  [], ◌∷◌, arith, ltb, leb, ◌==◌, Bool-cases, inl, inr, length, All, subst, ext_get_or, length-take,
  length-drop, drop, get_or,
}
use lightning_db.Prelude.Bits.{eq_of_bits, bit-mod-pow}
use lightning_db.Prelude.Bytes.{
  le_bytes, from_le_bytes, slice, copy_to, from_le_bytes-le_bytes, length-copy_to, length-le_bytes,
  get_or-copy_to, get_or-drop_at, get_or-take,
}
use lightning_db.Compression.{
  write_bits, read_bits, pack_loop, unpack_loop, pack_words, unpack_words, pack_32, unpack_32,
}
use lightning_db.Compression.Bytes.{bit_at, AreBytes}
use lightning_db.Compression.Writes.{write_bits-Puts}
use lightning_db.Compression.Reads.{bit-read_bits}

first_room : (b n w m : ℕ) → b + suc n * w ≤ m → b + w ≤ m
first_room b n w m h = grind arith

next_room : (b n w m : ℕ) → b + suc n * w ≤ m → b + w + n * w ≤ m
next_room b n w m h = grind arith

rooms : (b n w : ℕ) → b + suc n * w ≡ b + w + n * w
rooms b n w = grind arith

module _ (w : ℕ) (some_bits : 0 < w) (narrow : w < 64) where
  -- Values that are packed from bit b on leave the bits before.
  pub pack_loop-keeps :
      (values : List ℕ) (b : ℕ) (output : List ℕ)
      → b + length values * w ≤ 8 * length output
      → AreBytes output
      → ((k : ℕ) → k < b → bit_at (pack_loop values w b output) k ≡ bit_at output k)
        × length (pack_loop values w b output) ≡ length output
        × AreBytes (pack_loop values w b output)
  unfolding pack_loop
  pack_loop-keeps [] b output room small = ((λ k before. refl), refl, small)
  pack_loop-keeps (val ∷ values) b output room small =
      let put =
        write_bits-Puts val w b output some_bits narrow (first_room b (length values) w _ room)
          small in
      let next = write_bits val w b output in
      let room' : b + w + length values * w ≤ 8 * length next =
        omega (arith, put.1, next_room b (length values) w _ room) in
      let rest = pack_loop-keeps values (b + w) next room' put.2 in
      ((λ k before. rest.0 k (omega arith) ∙ put.0 k ∙ ground arith), rest.1 ∙ put.1, rest.2)

  -- The values come back, cut to the width.
  pub unpack_loop-pack_loop :
      (values : List ℕ) (b : ℕ) (output old : List ℕ)
      → length old ≡ length values
      → b + length values * w ≤ 8 * length output
      → AreBytes output
      → unpack_loop (pack_loop values w b output) w b old ≡ map (λ v. v % 2 ^ w) values
  unfolding pack_loop unpack_loop
  unpack_loop-pack_loop [] b output [] same room small = refl
  unpack_loop-pack_loop [] b output (v ∷ old) same room small = absurd (omega arith)
  unpack_loop-pack_loop (val ∷ values) b output [] same room small = absurd (omega arith)
  unpack_loop-pack_loop (val ∷ values) b output (v ∷ old) same room small =
      let here = first_room b (length values) w _ room in
      let put = write_bits-Puts val w b output some_bits narrow here small in
      let next = write_bits val w b output in
      let room' : b + w + length values * w ≤ 8 * length next =
        omega (arith, put.1, next_room b (length values) w _ room) in
      let kept = pack_loop-keeps values (b + w) next room' put.2 in
      let packed = pack_loop values w (b + w) next in
      let first : read_bits w b packed ≡ val % 2 ^ w = eq_of_bits _ _ λ i.
        (bit-read_bits w b packed i some_bits narrow (omega (arith, here, kept.1, put.1)) kept.2
          ∙ (elim (Bool-cases (ltb i w)) [
            | inl inside ↦
                let place : b + i - b ≡ i = omega arith in
                rw inside (
                  kept.0 (b + i) (ground arith)
                  ∙ put.0 (b + i)
                  ∙ rw place (ground (arith, bit-mod-pow w val i)))
            | inr outside ↦ rw outside (ground (arith, bit-mod-pow w val i))
          ])) in
      ap₂ (◌∷◌) first (unpack_loop-pack_loop values (b + w) next old (omega arith) room' put.2)

  -- Two buffers with the same bits unpack to the same values.
  pub unpack_loop-agrees :
      (bytes other : List ℕ) (b : ℕ) (old : List ℕ)
      → b + length old * w ≤ 8 * length bytes
      → length other ≡ length bytes
      → AreBytes bytes
      → AreBytes other
      → ((k : ℕ) → k < b + length old * w → bit_at other k ≡ bit_at bytes k)
      → unpack_loop other w b old ≡ unpack_loop bytes w b old
  unfolding unpack_loop
  unpack_loop-agrees bytes other b [] room same small small' agree = refl
  unpack_loop-agrees bytes other b (v ∷ old) room same small small' agree =
      let here = first_room b (length old) w _ room in
      let later = next_room b (length old) w _ room in
      let first : read_bits w b other ≡ read_bits w b bytes = eq_of_bits _ _ λ i.
        (bit-read_bits w b other i some_bits narrow (omega (arith, here, same)) small'
          ∙ (elim (Bool-cases (ltb i w)) [
            | inl inside ↦ rw inside (agree (b + i) (ground (arith, rooms b (length old) w)))
            | inr outside ↦ rw outside refl
          ])
          ∙ sym (bit-read_bits w b bytes i some_bits narrow here small)) in
      ap₂ (◌∷◌) first (
        unpack_loop-agrees bytes other (b + w) old later same small small'
          λ k p. agree k (omega (arith, p, rooms b (length old) w)))

-- Whole words that are packed from a byte on leave the bytes before.
pack_words-keeps :
    (values : List ℕ) (offset : ℕ) (output : List ℕ)
    → offset + length values * 8 ≤ length output
    → ((i : ℕ) → i < offset → get_or (pack_words values offset output) i 0 ≡ get_or output i 0)
      × length (pack_words values offset output) ≡ length output
unfolding pack_words
pack_words-keeps [] offset output room = ((λ i before. refl), refl)
pack_words-keeps (val ∷ values) offset output room =
    let fits : offset + length (le_bytes 8 val) ≤ length output =
      omega (arith, length-le_bytes 8 val) in
    let next = copy_to output offset (le_bytes 8 val) in
    let here : leb (offset + 8) (length output) ≡ true = ground arith in
    let same = length-copy_to output offset (le_bytes 8 val) fits in
    let rest = pack_words-keeps values (offset + 8) next (omega arith) in
    rw here (
      (λ i before.
          (rest.0 i (omega arith)
            ∙ get_or-copy_to output offset (le_bytes 8 val) i 0 fits
            ∙ ground arith)),
      rest.1 ∙ same,
    )

-- The bytes of a packed word.
slice-copied :
    (bytes packed : List ℕ) (offset v : ℕ)
    → offset + 8 ≤ length bytes
    → length packed ≡ length bytes
    → ((i : ℕ)
        → i < offset + 8
        → get_or packed i 0 ≡ get_or (copy_to bytes offset (le_bytes 8 v)) i 0)
    → slice packed offset 8 ≡ le_bytes 8 v
slice-copied bytes packed offset v room same kept =
    let word = length-le_bytes 8 v in
    let cut : length (slice packed offset 8) ≡ 8 =
      omega (arith, length-take 8 (drop offset packed), length-drop offset packed) in
    ext_get_or 0 _ _ (cut ∙ sym word) λ i p.
      (get_or-take 8 i (drop offset packed) 0 (omega arith)
        ∙ get_or-drop_at offset i packed 0
        ∙ kept (offset + i) (omega arith)
        ∙ get_or-copy_to bytes offset (le_bytes 8 v) (offset + i) 0 (omega arith)
        ∙ (let place : offset + i - offset ≡ i = omega arith in rw place (ground arith)))

unpack_words-pack_words :
    (values : List ℕ) (offset : ℕ) (output old : List ℕ)
    → length old ≡ length values
    → All (λ v. v < 2 ^ 64) values
    → offset + length values * 8 ≤ length output
    → unpack_words (pack_words values offset output) offset old ≡ values
unfolding pack_words unpack_words
unpack_words-pack_words [] offset output [] same fit room = refl
unpack_words-pack_words [] offset output (v ∷ old) same fit room = absurd (omega arith)
unpack_words-pack_words (val ∷ values) offset output [] same fit room = absurd (omega arith)
unpack_words-pack_words (val ∷ values) offset output (v ∷ old) same fit room =
    let fits : offset + length (le_bytes 8 val) ≤ length output =
      omega (arith, length-le_bytes 8 val) in
    let next = copy_to output offset (le_bytes 8 val) in
    let here : leb (offset + 8) (length output) ≡ true = ground arith in
    let same_length = length-copy_to output offset (le_bytes 8 val) fits in
    let kept = pack_words-keeps values (offset + 8) next (omega arith) in
    let packed = pack_words values (offset + 8) next in
    let there : leb (offset + 8) (length packed) ≡ true = ground (arith, kept.1) in
    let word = slice-copied output packed offset val (omega arith) (kept.1 ∙ same_length) kept.0 in
    let step : pack_words (val ∷ values) offset output ≡ packed = rw here refl in
    ap (λ (bytes : List ℕ). unpack_words bytes offset (v ∷ old)) step
    ∙ rw there (
        ap₂ (◌∷◌) (ap from_le_bytes word ∙ from_le_bytes-le_bytes 8 val fit.0)
          (unpack_words-pack_words values (offset + 8) next old (omega arith) fit.1 (omega arith)))

map-fits :
    (w : ℕ) (values : List ℕ) → All (λ v. v < 2 ^ w) values → map (λ v. v % 2 ^ w) values ≡ values
map-fits w [] fit = refl
map-fits w (v ∷ values) fit = ap₂ (◌∷◌) (grind (arith, fit.0)) (map-fits w values fit.1)

-- For a width from 1 to 64, values that fit in it, a buffer of bytes with room for them, and as many
-- places to unpack to: unpacking what was packed gives the values.
pub unpack_32-pack_32 :
    (values : List ℕ) (bit_width : ℕ) (output old : List ℕ)
    → 0 < bit_width
    → bit_width ≤ 64
    → length old ≡ length values
    → All (λ v. v < 2 ^ bit_width) values
    → length values * bit_width ≤ 8 * length output
    → AreBytes output
    → unpack_32 (pack_32 values bit_width output) bit_width old ≡ values
unfolding pack_32 unpack_32
unpack_32-pack_32 values bit_width output old some_bits h same fit room small =
    let nonzero : (bit_width == 0) ≡ false = ground arith in
    elim (Bool-cases (bit_width == 64)) [
      | inl whole ↦
          let all_bits : bit_width ≡ 64 = ground arith in
          let fit' : All (λ v. v < 2 ^ 64) values =
            subst (λ (n : ℕ). All (λ v. v < 2 ^ n) values) all_bits fit in
          rw (nonzero, whole) (unpack_words-pack_words values 0 output old same fit' (grind arith))
      | inr narrow ↦
          rw (nonzero, narrow)
            (unpack_loop-pack_loop bit_width some_bits (ground arith) values 0 output old same
                (grind arith) small
              ∙ map-fits bit_width values fit)
    ]
