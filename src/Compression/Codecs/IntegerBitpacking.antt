-- ===== src/Compression/Codecs/IntegerBitpacking.antt =====
-- crates/lightning-core/src/storage/compression/integer_bitpacking.rs.
use lightning_db.Prelude.{
  ℕ, ◌+◌, ◌%◌, min, List, ◌==◌, if◌then◌else◌, get_or, replicate, Result, ok, ◌>>=◌,
}
use lightning_db.Prelude.Bytes.{le_bytes}
use lightning_db.Compression.{pack_32, unpack_32}
use lightning_db.Compression.Codecs.{
  CompressionMetadata, CodecError, Compressed, emit_each, read_words, compressed_size, out_of_range,
}

unfoldable pub compress_next_page :
    CompressionMetadata → List ℕ → ℕ → List ℕ → Result CodecError Compressed
unfolding read_words pack_32
compress_next_page metadata src num_values_remaining dst =
    if metadata.bit_width == 0
    then ok (record { dst = dst; size = 0; processed = num_values_remaining })
    else do
      values ← read_words out_of_range 32 0 src
      ok (record {
        dst = pack_32 values metadata.bit_width dst;
        size = compressed_size metadata.bit_width;
        processed = min num_values_remaining 32;
      })

unfoldable pub decompress_from_page :
    CompressionMetadata → List ℕ → ℕ → List ℕ → ℕ → ℕ → Result CodecError (List ℕ)
unfolding emit_each unpack_32
decompress_from_page metadata src src_offset dst dst_offset num_values =
    if metadata.bit_width == 0
    then emit_each num_values (λ i. replicate 8 0) 0 dst dst_offset
    else let values = unpack_32 src metadata.bit_width (replicate 32 0) in
      emit_each num_values (λ i. le_bytes 8 (get_or values ((src_offset + i) % 32) 0)) 0 dst
        dst_offset
