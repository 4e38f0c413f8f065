-- ===== src/Compression/Codecs/Constant.antt =====
-- crates/lightning-core/src/storage/compression/mod.rs: the codec of a column with one value.
use lightning_db.Prelude.{ℕ, List, Result, ok}
use lightning_db.Compression.Codecs.{
  CompressionMetadata, CodecError, Compressed, to_le_bytes, emit_each,
}

unfoldable pub compress_next_page : List ℕ → ℕ → List ℕ → Result CodecError Compressed
compress_next_page src num_values_remaining dst =
    ok (record { dst = dst; size = 0; processed = num_values_remaining })

unfoldable pub decompress_from_page :
    CompressionMetadata → List ℕ → ℕ → ℕ → Result CodecError (List ℕ)
unfolding emit_each to_le_bytes
decompress_from_page metadata dst dst_offset num_values =
    emit_each num_values (λ i. to_le_bytes metadata.min) 0 dst dst_offset
