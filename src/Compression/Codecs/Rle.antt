-- ===== src/Compression/Codecs/Rle.antt =====
-- crates/lightning-core/src/storage/compression/rle.rs.
use lightning_db.Prelude.{
  ℕ, zero, suc, ◌+◌, ◌-◌, ◌*◌, ◌^◌, min, ◌&&◌, List, leb, ltb, if◌then◌else◌, length, Result, ok,
  ◌>>=◌,
}
use lightning_db.Prelude.Bytes.{bytes_eq, le_bytes, from_le_bytes, slice, copy_to}
use lightning_db.Compression.Codecs.{CodecError, Compressed, emit_each}

-- The inner loop: `count` and `j` after it. Every round moves j towards the number of values.
unfoldable pub run_loop : ℕ → List ℕ → ℕ → List ℕ → ℕ → ℕ → ℕ × ℕ
run_loop zero src num_values_remaining val count j = (count, j)
run_loop (suc fuel) src num_values_remaining val count j =
    let rest = run_loop fuel src num_values_remaining val (count + 1) (j + 1) in
    if ltb j num_values_remaining
      && ltb count (2 ^ 32 - 1)
      && leb ((j + 1) * 8) (length src)
      && bytes_eq (slice src (j * 8) 8) val
    then rest
    else (count, j)

unfoldable pub compress_loop : ℕ → List ℕ → ℕ → List ℕ → ℕ → ℕ → Compressed
unfolding run_loop
compress_loop zero src num_values_remaining dst values_processed dst_offset = record {
  dst = dst;
  size = dst_offset;
  processed = values_processed;
}
compress_loop (suc fuel) src num_values_remaining dst values_processed dst_offset =
    let val = slice src (values_processed * 8) 8 in
    let run = run_loop num_values_remaining src num_values_remaining val 1 (values_processed + 1) in
    let dst' = copy_to (copy_to dst dst_offset val) (dst_offset + 8) (le_bytes 4 run.0) in
    let rest = compress_loop fuel src num_values_remaining dst' run.1 (dst_offset + 12) in
    if ltb values_processed num_values_remaining
      && leb (dst_offset + 12) (length dst)
      && leb (values_processed * 8 + 8) (length src)
    then rest
    else record { dst = dst; size = dst_offset; processed = values_processed }

unfoldable pub compress_next_page : List ℕ → ℕ → List ℕ → Result CodecError Compressed
unfolding compress_loop
compress_next_page src num_values_remaining dst =
    ok (compress_loop num_values_remaining src num_values_remaining dst 0 0)

-- Every round reads a run, of 12 bytes.
unfoldable pub decompress_loop :
    ℕ → List ℕ → List ℕ → ℕ → ℕ → ℕ → ℕ → ℕ → Result CodecError (List ℕ)
unfolding emit_each
decompress_loop zero src dst num_values src_ptr dst_ptr values_emitted skip = ok dst
decompress_loop (suc fuel) src dst num_values src_ptr dst_ptr values_emitted skip =
    let val = slice src src_ptr 8 in
    let count = from_le_bytes (slice src (src_ptr + 8) 4) in
    let to_emit = min (count - skip) (num_values - values_emitted) in
    let skipped =
      decompress_loop fuel src dst num_values (src_ptr + 12) dst_ptr values_emitted
        (skip - count) in
    let emitted = emit_each to_emit (λ i. val) 0 dst dst_ptr >>= λ dst'.
    (decompress_loop fuel src dst' num_values (src_ptr + 12) (dst_ptr + to_emit)
      (values_emitted + to_emit) 0) in
    if ltb values_emitted num_values && leb (src_ptr + 12) (length src)
    then if leb count skip then skipped else emitted
    else ok dst

unfoldable pub decompress_from_page : List ℕ → ℕ → List ℕ → ℕ → ℕ → Result CodecError (List ℕ)
unfolding decompress_loop
decompress_from_page src src_offset dst dst_offset num_values =
    decompress_loop (length src) src dst num_values 0 dst_offset 0 src_offset
