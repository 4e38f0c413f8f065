-- ===== src/Compression/Codecs/FixedFrameOfReference.antt =====
-- crates/lightning-core/src/storage/compression/delta.rs.
use lightning_db.Prelude.{
  ℕ, zero, suc, ◌+◌, ◌-◌, ◌*◌, ◌%◌, ◌^◌, min, List, map, leb, ltb, if◌then◌else◌, length, get_or,
  replicate, Result, ok, err, ◌>>=◌,
}
use lightning_db.Prelude.Bytes.{le_bytes, copy_to}
use lightning_db.Compression.{pack_32, unpack_32}
use lightning_db.Compression.Codecs.{
  Value, CompressionMetadata, CodecError, Compressed, read_words, compressed_size, internal, null,
  node, number,
}

-- An i64 as its two's complement: x is below y where the shifted x is.
abbrev pub shifted : ℕ → ℕ
shifted x = (x + 2 ^ 63) % 2 ^ 64

-- val.checked_sub(min).unwrap_or(0) as u64
abbrev pub delta_of : ℕ → ℕ → ℕ
delta_of val min =
    if leb (shifted min) (shifted val)
    then if ltb (shifted val - shifted min) (2 ^ 63) then shifted val - shifted min else 0
    else if leb (shifted min - shifted val) (2 ^ 63)
    then 2 ^ 64 - (shifted min - shifted val)
    else 0

-- `as_i64` is Rust's cast of a number, on its bits.
module _ (as_i64 : ℕ → ℕ) where
  unfoldable pub frame_min : Value → ℕ
  frame_min null = 0
  frame_min (node v) = v
  frame_min (number bits) = as_i64 bits

  unfoldable pub compress_next_page :
      CompressionMetadata → List ℕ → ℕ → List ℕ → Result CodecError Compressed
  unfolding read_words pack_32 frame_min
  compress_next_page metadata src num_values_remaining dst = do
    values ← read_words internal 32 0 src
    ok (record {
      dst =
          pack_32 (map (λ val. delta_of val (frame_min metadata.min)) values) metadata.bit_width
            dst;
      size = compressed_size metadata.bit_width;
      processed = min num_values_remaining 32;
    })

  -- The loop of decompress_from_page: min.wrapping_add(delta) for every value.
  unfoldable pub add_each : ℕ → List ℕ → ℕ → ℕ → List ℕ → ℕ → Result CodecError (List ℕ)
  add_each zero deltas min val_idx dst dst_ptr = ok dst
  add_each (suc n) deltas min val_idx dst dst_ptr =
      if leb (dst_ptr * 8 + 8) (length dst)
      then add_each n deltas min (val_idx + 1)
          (copy_to dst (dst_ptr * 8) (le_bytes 8 ((min + get_or deltas (val_idx % 32) 0) % 2 ^ 64)))
          (dst_ptr + 1)
      else err internal

  unfoldable pub decompress_from_page :
      CompressionMetadata → List ℕ → ℕ → List ℕ → ℕ → ℕ → Result CodecError (List ℕ)
  unfolding add_each unpack_32 frame_min
  decompress_from_page metadata src src_offset dst dst_offset num_values =
      add_each num_values (unpack_32 src metadata.bit_width (replicate 32 0))
        (frame_min metadata.min) src_offset dst dst_offset
