-- ===== src/Compression/Codecs/Dict.antt =====
-- crates/lightning-core/src/storage/compression/dict.rs.
use lightning_db.Prelude.{
  ℕ, zero, suc, ◌+◌, ◌-◌, ◌*◌, ◌/◌, ◌%◌, min, max, List, [], ◌∷◌, ◌++◌, leb, ltb, ◌==◌,
  if◌then◌else◌, length, get_or, replicate, Option, none, some, Result, ok, err, ◌>>=◌, take, drop,
}
use lightning_db.Prelude.Bytes.{bytes_eq, le_bytes, from_le_bytes, slice, copy_to}
use lightning_db.Compression.{pack_32, unpack_32}
use lightning_db.Compression.Codecs.{CodecError, Compressed, part, put, compressed_size, internal}

-- dict_map.get(val): `dict_map` has the place of every value of `dict`.
unfoldable pub index_of : List ℕ → List (List ℕ) → ℕ → Option ℕ
index_of val [] i = none
index_of val (entry ∷ dict) i = if bytes_eq entry val then some i else index_of val dict (i + 1)

-- A value that is not in the dictionary is pushed; its index.
unfoldable pub intern : List ℕ → List (List ℕ) → Option ℕ → List (List ℕ) × ℕ
intern val dict none = (dict ++ val ∷ [], length dict)
intern val dict (some i) = (dict, i)

-- The loop over the values: the dictionary and the indices.
unfoldable pub index_loop :
    ℕ → ℕ → List ℕ → List (List ℕ) → Result CodecError (List (List ℕ) × List ℕ)
unfolding index_of intern
index_loop zero i src dict = ok (dict, [])
index_loop (suc n) i src dict = part src (i * 8) 8 >>= λ val.
    (let step = intern val dict (index_of val dict 0) in
      index_loop n (i + 1) src step.0 >>= λ rest. ok (rest.0, step.1 ∷ rest.1))

unfoldable pub write_dict : List (List ℕ) → ℕ → List ℕ → List ℕ
write_dict [] offset dst = dst
write_dict (val ∷ dict) offset dst = write_dict dict (offset + 8) (copy_to dst offset val)

-- 64 - n.leading_zeros(), of a number of at most `fuel` bits
unfoldable pub bit_length : ℕ → ℕ → ℕ
bit_length zero n = 0
bit_length (suc fuel) n = let rest = bit_length fuel (n / 2) in if n == 0 then 0 else suc rest

unfoldable pub compress_next_page : List ℕ → ℕ → List ℕ → Result CodecError Compressed
unfolding index_loop write_dict bit_length pack_32
compress_next_page src num_values_remaining dst =
    let num_values = min num_values_remaining 32 in
    if num_values == 0
    then ok (record { dst = dst; size = 0; processed = 0 })
    else index_loop num_values 0 src [] >>= λ indexed.
        (let dict = indexed.0 in
          let dict_count = length dict in
          let offset = 4 + dict_count * 8 in
          let bit_width = max (bit_length 64 dict_count) 1 in
          let packed_indices = indexed.1 ++ replicate (32 - num_values) 0 in
          let dst' = write_dict dict 4 (copy_to dst 0 (le_bytes 4 dict_count)) in
          if ltb (length dst) (offset + 32)
          then err internal
          else ok (record {
            dst = take offset dst' ++ pack_32 packed_indices bit_width (drop offset dst');
            size = offset + compressed_size bit_width;
            processed = num_values;
          }))

-- The loop over the values of the block.
unfoldable pub entry_loop : ℕ → List ℕ → ℕ → List ℕ → ℕ → List ℕ → ℕ → Result CodecError (List ℕ)
entry_loop zero indices dict_count dict_bytes val_idx dst dst_ptr = ok dst
entry_loop (suc n) indices dict_count dict_bytes val_idx dst dst_ptr =
    let dict_idx = get_or indices (val_idx % 32) 0 in
    if leb dict_count dict_idx
    then err internal
    else put dst (dst_ptr * 8) (slice dict_bytes (dict_idx * 8) 8) >>= λ dst'.
        (entry_loop n indices dict_count dict_bytes (val_idx + 1) dst' (dst_ptr + 1))

unfoldable pub decompress_from_page : List ℕ → ℕ → List ℕ → ℕ → ℕ → Result CodecError (List ℕ)
unfolding entry_loop bit_length unpack_32
decompress_from_page src src_offset dst dst_offset num_values =
    let dict_count = from_le_bytes (take 4 src) in
    let dict_end = 4 + dict_count * 8 in
    let bit_width = max (bit_length 64 dict_count) 1 in
    let indices = unpack_32 (drop dict_end src) bit_width (replicate 32 0) in
    if num_values == 0
    then ok dst
    else if ltb (length src) 4
    then err internal
    else if dict_count == 0
    then ok dst
    else if ltb (length src) dict_end
    then err internal
    else entry_loop num_values indices dict_count (slice src 4 (dict_count * 8)) src_offset dst
        dst_offset
