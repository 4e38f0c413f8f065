-- ===== src/Compression/DictCodec.antt =====
-- crates/lightning-core/src/storage/compression/dict.rs: what is compressed is read back.
use lightning_db.Prelude.{
  ℕ, ◌+◌, ◌-◌, ◌*◌, ◌%◌, ◌^◌, ◌≤◌, ◌<◌, ◌≡◌, refl, ap, sym, subst, ◌∙◌, true, false, List, [], ◌++◌,
  arith, ltb, if◌then◌else◌, length, get_or, take, drop, replicate, ok, length-append, length-take,
  length-drop, length-replicate, ext_get_or, get_or-map,
}
use lightning_db.Prelude.Bytes.{
  le_bytes, from_le_bytes, slice, copy_to, from_le_bytes-le_bytes, length-le_bytes, length-copy_to,
  get_or-copy_to, get_or-append, get_or-take, get_or-drop_at, slice_of, length-slice,
}
use native.Mathlib.Nat.{mod-eq_of_lt}
use lightning_db.Compression.{pack_32, unpack_32}
use lightning_db.Compression.Codecs.{Compressed, CompressionMetadata, compressed_size, dict}
use lightning_db.Compression.Codecs.Dict.{index_loop, write_dict, bit_length, entry_loop}
use lightning_db.Compression.Codecs.Dict
use lightning_db.Compression.Algs.{
  get_alg, block_bytes, zero_page, length-zero_page, get_or-zero_page, frame_of, IsCodecFor,
}
use lightning_db.Compression.Blocks.{
  slice-put, slice-block_bytes, length-page, get_or-page, get_or-over_zeros, unpack_32-over_zeros,
  length-pack_32, length-over_zeros,
}
use lightning_db.Compression.Choice.{lt-bit_length, bit_length-pos}
use lightning_db.Compression.DictIndex.{
  OfWords, index_loop-Indexes, length-write_dict, write_dict_before, write_dict_behind,
  slice-write_dict,
}
use lightning_db.Compression.DictReads.{bit_length-le, width, packed_with, compressed_lem, read_lem}

module _ (words : List (List ℕ)) (indices : List ℕ) (n : ℕ) (of_words : OfWords words)
    (few : length words ≤ 32) (some_word : 0 < length words) (count : length indices ≡ n)
    (short : n ≤ 32) where
  abbrev offset : ℕ
  offset = 4 + length words * 8

  abbrev written : List ℕ
  written = write_dict words 4 (copy_to zero_page 0 (le_bytes 4 (length words)))

  abbrev zeros : List ℕ
  zeros = drop offset zero_page

  abbrev packed_indices : List ℕ
  packed_indices = indices ++ replicate (32 - n) 0

  abbrev c : Compressed
  c = packed_with words indices n zero_page

  length_of_header : length (copy_to zero_page 0 (le_bytes 4 (length words))) ≡ 4096
  length_of_header =
      length-copy_to zero_page 0 (le_bytes 4 (length words))
        (omega (arith, length-le_bytes 4 (length words), length-zero_page))
      ∙ length-zero_page

  header_room : 4 + length words * 8 ≤ length (copy_to zero_page 0 (le_bytes 4 (length words)))
  header_room = omega (arith, length_of_header)

  length-written : length written ≡ 4096
  length-written =
      length-write_dict words 4 (copy_to zero_page 0 (le_bytes 4 (length words))) of_words
        header_room
      ∙ length_of_header

  narrow : width (length words) ≤ 6
  narrow = omega (arith, bit_length-le 64 (length words) 6 (omega arith))

  exact_width : width (length words) ≡ bit_length 64 (length words)
  exact_width = omega (arith, bit_length-pos 64 (length words) (omega arith) some_word)

  length-zeros : length zeros ≡ 4096 - offset
  length-zeros = omega (arith, length-drop offset zero_page, length-zero_page)

  clear : (i : ℕ) → get_or zeros i 0 ≡ 0
  clear i = get_or-drop_at offset i zero_page 0 ∙ get_or-zero_page (offset + i)

  behind_clear : drop offset written ≡ zeros
  behind_clear =
      ext_get_or 0 (drop offset written) zeros
        (omega (arith, length-drop offset written, length-written, length-zeros))
        λ i h.
          (get_or-drop_at offset i written 0
            ∙ write_dict_behind words 4 (copy_to zero_page 0 (le_bytes 4 (length words)))
                (offset + i) of_words header_room (omega arith)
            ∙ get_or-copy_to zero_page 0 (le_bytes 4 (length words)) (offset + i) 0
                (omega (arith, length-le_bytes 4 (length words), length-zero_page))
            ∙ ground
                (arith, length-le_bytes 4 (length words), get_or-zero_page (offset + i), clear i))

  length-packed_indices : length packed_indices ≡ 32
  length-packed_indices = omega (
    arith,
    length-append indices (replicate (32 - n) 0),
    length-replicate {A = ℕ} (32 - n) 0,
    count,
  )

  wide : 256 ≤ length zeros
  wide = omega (arith, length-zeros)

  length-packed : length (pack_32 packed_indices (width (length words)) zeros) ≡ length zeros
  length-packed =
      length-pack_32 zeros clear packed_indices (width (length words)) (omega arith)
        (omega (arith, narrow)) wide length-packed_indices

  dst_eq : c.dst ≡ take offset written ++ pack_32 packed_indices (width (length words)) zeros
  dst_eq =
      ap (λ (xs : List ℕ). take offset written ++ pack_32 packed_indices (width (length words)) xs)
        behind_clear

  length_of_start : length (take offset written) ≡ offset
  length_of_start = omega (arith, length-take offset written, length-written)

  length_of_dst : length c.dst ≡ 4096
  length_of_dst =
      ap length dst_eq
      ∙ omega (
        arith,
        length-append (take offset written) (pack_32 packed_indices (width (length words)) zeros),
        length_of_start,
        length-packed,
        length-zeros,
      )

  size_small : c.size ≤ 4096
  size_small = omega (arith, narrow)

  frame_byte : (i : ℕ) → get_or (frame_of c) i 0 ≡ (if ltb i c.size then get_or c.dst i 0 else 0)
  frame_byte i =
      get_or-page zero_page length-zero_page get_or-zero_page c.size c.dst i size_small
        length_of_dst

  length_of_frame : length (frame_of c) ≡ 4096
  length_of_frame = length-page zero_page length-zero_page get_or-zero_page c.size c.dst size_small

  -- The bytes before the indices.
  frame_start : (i : ℕ) → i < offset → get_or (frame_of c) i 0 ≡ get_or written i 0
  frame_start i h =
      let inside : ltb i c.size ≡ true = ground arith in
      let before : ltb i (length (take offset written)) ≡ true = ground (arith, length_of_start) in
      frame_byte i
      ∙ rw inside refl
      ∙ get_or-append (take offset written)
          (pack_32 packed_indices (width (length words)) (drop offset written)) i 0
      ∙ rw before (get_or-take offset i written 0 h)

  -- The bytes of the indices.
  frame_rest :
      drop offset (frame_of c)
      ≡ copy_to zeros 0 (
          take
            (compressed_size (width (length words)))
            (pack_32 packed_indices (width (length words)) zeros))
  frame_rest =
      let w : ℕ = width (length words) in
      let bytes : List ℕ = pack_32 packed_indices w zeros in
      let cut : compressed_size w ≤ length zeros = omega (arith, narrow, length-zeros) in
      ext_get_or 0 _ _
        (omega (
          arith,
          length-drop offset (frame_of c),
          length_of_frame,
          length-zeros,
          length-over_zeros zeros clear (compressed_size w) bytes cut,
        ))
        λ i h.
          (let after : ltb (offset + i) (length (take offset written)) ≡ false =
              ground (arith, length_of_start) in
            let place : offset + i - length (take offset written) ≡ i =
              omega (arith, length_of_start) in
            let byte : get_or c.dst (offset + i) 0 ≡ get_or bytes i 0 =
              ap (λ (xs : List ℕ). get_or xs (offset + i) 0) dst_eq
              ∙ get_or-append (take offset written) bytes (offset + i) 0
              ∙ rw (after, place) refl in
            let same : ltb (offset + i) c.size ≡ ltb i (compressed_size w) = ground arith in
            get_or-drop_at offset i (frame_of c) 0
            ∙ frame_byte (offset + i)
            ∙ rw (same, byte) refl
            ∙ sym (get_or-over_zeros zeros clear (compressed_size w) bytes i cut length-packed))

  frame_count : from_le_bytes (take 4 (frame_of c)) ≡ length words
  frame_count =
      let l = length-le_bytes 4 (length words) in
      ap from_le_bytes (
        slice_of (frame_of c) (le_bytes 4 (length words)) 0 4 (omega (arith, length_of_frame)) l
          λ i h.
            (frame_start (0 + i) (omega arith)
              ∙ write_dict_before words 4 (copy_to zero_page 0 (le_bytes 4 (length words))) (0 + i)
                  of_words header_room (omega arith)
              ∙ get_or-copy_to zero_page 0 (le_bytes 4 (length words)) (0 + i) 0
                  (omega (arith, l, length-zero_page))
              ∙ (let place : 0 + i - 0 ≡ i = omega arith in
                  ground (arith, l, ap (λ (j : ℕ). get_or (le_bytes 4 (length words)) j 0) place))))
      ∙ from_le_bytes-le_bytes 4 (length words) (omega arith)

  frame_entry :
      (k : ℕ)
      → k < length words
      → slice (slice (frame_of c) 4 (length words * 8)) (k * 8) 8 ≡ get_or words k []
  frame_entry k h =
      let dict_bytes =
        length-slice (frame_of c) 4 (length words * 8) (omega (arith, length_of_frame)) in
      let entry =
        slice-write_dict words 4 (copy_to zero_page 0 (le_bytes 4 (length words))) k of_words
          header_room h in
      let l = length-slice written (4 + k * 8) 8 (omega (arith, length-written)) in
      slice_of (slice (frame_of c) 4 (length words * 8)) (get_or words k []) (k * 8) 8
        (omega (arith, dict_bytes)) (ap length (sym entry) ∙ l)
        λ i p.
          (get_or-take (length words * 8) (k * 8 + i) (drop 4 (frame_of c)) 0 (omega arith)
            ∙ get_or-drop_at 4 (k * 8 + i) (frame_of c) 0
            ∙ frame_start (4 + (k * 8 + i)) (omega arith)
            ∙ ap (λ (j : ℕ). get_or written j 0)
                (let e : 4 + (k * 8 + i) ≡ 4 + k * 8 + i = omega arith in e)
            ∙ sym (get_or-drop_at (4 + k * 8) i written 0)
            ∙ sym (get_or-take 8 i (drop (4 + k * 8) written) 0 p)
            ∙ ap (λ (xs : List ℕ). get_or xs i 0) entry)

  frame_index :
      (i : ℕ)
      → i < n
      → get_or indices i 0 < length words
      → get_or
          (unpack_32 (drop offset (frame_of c)) (width (length words)) (replicate 32 0))
          (i % 32)
          0
        ≡ get_or indices i 0
  frame_index i h valid =
      let w : ℕ = width (length words) in
      let place : i % 32 ≡ i = omega arith in
      let before : ltb i (length indices) ≡ true = ground (arith, count) in
      let index : get_or packed_indices i 0 ≡ get_or indices i 0 =
        get_or-append indices (replicate (32 - n) 0) i 0 ∙ rw before refl in
      let big = lt-bit_length 64 (length words) (omega arith) in
      let small : get_or indices i 0 < 2 ^ w =
        subst (λ (v : ℕ). get_or indices i 0 < 2 ^ v) (sym exact_width)
          (omega (arith, big, valid)) in
      rw place (
        ap (λ (page : List ℕ). get_or (unpack_32 page w (replicate 32 0)) i 0) frame_rest
        ∙ ap (λ (vs : List ℕ). get_or vs i 0)
            (unpack_32-over_zeros zeros clear packed_indices w (replicate 32 0) (omega arith)
              (omega (arith, narrow)) wide length-packed_indices (length-replicate {A = ℕ} 32 0))
        ∙ get_or-map packed_indices (λ v. v % 2 ^ w) i 0 0 (omega (arith, length-packed_indices))
        ∙ ap (λ (v : ℕ). v % 2 ^ w) index
        ∙ mod-eq_of_lt small)

  pub reads_entry :
      (i : ℕ) (temp : List ℕ)
      → i < n
      → get_or indices i 0 < length words
      → length temp ≡ 256
      → Dict.decompress_from_page (frame_of c) i temp 0 1
        ≡ ok (copy_to temp 0 (get_or words (get_or indices i 0) []))
  reads_entry i temp h valid full =
      read_lem (frame_of c) temp i (length words) (get_or indices i 0) frame_count valid
        (omega (arith, length_of_frame)) (frame_index i h valid) full
      ∙ ap (λ (bytes : List ℕ). ok (copy_to temp 0 bytes)) (frame_entry (get_or indices i 0) valid)

pub dict-IsCodecFor :
    (as_i64 : ℕ → ℕ) (metadata : CompressionMetadata) (P : ℕ → Type 0)
    → IsCodecFor (get_alg as_i64 dict 8) metadata P
unfolding get_alg
dict-IsCodecFor as_i64 metadata P values padding some_values few fit whole =
    let n : ℕ = length values in
    let src : List ℕ = block_bytes values ++ padding in
    let all_there : n * 8 ≤ length src = omega (arith, whole) in
    let (words, (indices, (e, indexed))) =
      index_loop-Indexes src n all_there n 0 [] (omega arith) tt in
    let some_word : 0 < length words = omega (arith, indexed.inside 0 some_values) in
    (
      packed_with words indices n zero_page,
      (
        compressed_lem src zero_page n words indices some_values few e
            (omega (arith, indexed.bounded, length-zero_page)),
        refl,
        λ i temp inside room.
            (let at =
                indexed.values i inside
                ∙ ap (λ (a : ℕ). slice src (a * 8) 8) (let e : 0 + i ≡ i = omega arith in e) in
              let l : length (get_or words (get_or indices i 0) []) ≡ 8 =
                ap length at ∙ length-slice src (i * 8) 8 (omega (arith, all_there)) in
              (
                copy_to temp 0 (get_or words (get_or indices i 0) []),
                (
                  reads_entry words indices n indexed.words (omega (arith, indexed.bounded))
                      some_word indexed.count few i temp inside (indexed.inside i inside) room,
                  slice-put temp (get_or words (get_or indices i 0) []) l
                      ∙ at
                      ∙ slice-block_bytes values padding i inside,
                ),
              )),
      ),
    )
