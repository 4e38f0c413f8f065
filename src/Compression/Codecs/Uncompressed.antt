-- ===== src/Compression/Codecs/Uncompressed.antt =====
-- crates/lightning-core/src/storage/compression/mod.rs: values as they are.
use lightning_db.Prelude.{
  ℕ, ◌+◌, ◌*◌, ◌/◌, min, List, ltb, if◌then◌else◌, length, Result, ok, err, take,
}
use lightning_db.Prelude.Bytes.{slice, copy_to}
use lightning_db.Compression.Codecs.{CodecError, Compressed, internal}

unfoldable pub compress_next_page : ℕ → List ℕ → ℕ → List ℕ → Result CodecError Compressed
compress_next_page element_size src num_values_remaining dst =
    let values_to_copy = min num_values_remaining (length dst / element_size) in
    let size_to_copy = values_to_copy * element_size in
    if ltb (length src) size_to_copy
    then err internal
    else ok (record {
      dst = copy_to dst 0 (take size_to_copy src);
      size = size_to_copy;
      processed = values_to_copy;
    })

unfoldable pub decompress_from_page : ℕ → List ℕ → ℕ → List ℕ → ℕ → ℕ → Result CodecError (List ℕ)
decompress_from_page element_size src src_offset dst dst_offset num_values =
    let src_start = src_offset * element_size in
    let dst_start = dst_offset * element_size in
    let size = num_values * element_size in
    if ltb (length src) (src_start + size)
    then err internal
    else if ltb (length dst) (dst_start + size)
    then err internal
    else ok (copy_to dst dst_start (slice src src_start size))
