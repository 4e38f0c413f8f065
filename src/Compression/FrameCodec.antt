-- ===== src/Compression/FrameCodec.antt =====
-- crates/lightning-core/src/storage/compression/delta.rs: what is compressed is read back.
use lightning_db.Prelude.{
  ℕ, ◌+◌, ◌-◌, ◌*◌, ◌%◌, ◌^◌, ◌≤◌, ◌<◌, ◌≡◌, refl, ap, ◌∙◌, min, true, List, ◌++◌, map, arith, leb,
  length, get_or, replicate, take, ok, All, get_or-map, length-map,
}
use lightning_db.Prelude.Bytes.{le_bytes, copy_to, length-le_bytes}
use lightning_db.Compression.{pack_32, unpack_32}
use lightning_db.Compression.Codecs.{
  Value, CompressionMetadata, compressed_size, fixed_frame_of_reference, node, internal,
}
use lightning_db.Compression.Codecs.FixedFrameOfReference
use lightning_db.Compression.Codecs.FixedFrameOfReference.{delta_of}
use lightning_db.Compression.Algs.{get_alg, block_bytes, zero_page, IsCodecFor}
use lightning_db.Compression.Blocks.{
  slice-put, words, length-words, read_words_lem, word-block_bytes,
}
use lightning_db.Compression.PackedCodecs.{All-get_or, bind_ok, unpacked}

-- A value that is not below the minimum, and near enough.
abbrev pub IsNear : ℕ → ℕ → ℕ → Type 0
IsNear min w v = min ≤ v × v - min < 2 ^ w × v < 2 ^ 63

delta_of-near : (v m : ℕ) → m ≤ v → v < 2 ^ 63 → delta_of v m ≡ v - m
delta_of-near v m h small = ground arith

frame_back : (v m w : ℕ) → IsNear m w v → (m + (v - m)) % 2 ^ 64 ≡ v
frame_back v m w near = omega (arith, near.0, near.2)

delta_back :
    (values padding : List ℕ) (m w i : ℕ)
    → 0 < w
    → w < 64
    → length values ≤ 32
    → i < length values
    → All (IsNear m w) values
    → get_or
        (unpack_32
          (copy_to zero_page 0 (
            take (compressed_size w) (
              pack_32
                (map (λ val. delta_of val m) (words 32 0 (block_bytes values ++ padding)))
                w
                zero_page)))
          w
          (replicate 32 0))
        (i % 32)
        0
      ≡ get_or values i 0 - m
delta_back values padding m w i some_bits narrow few inside fit =
    let src = block_bytes values ++ padding in
    let near = All-get_or (IsNear m w) values i inside fit in
    let same = length-words 32 0 src in
    unpacked (map (λ val. delta_of val m) (words 32 0 src)) w i i (get_or values i 0 - m) some_bits
      narrow (length-map (words 32 0 src) (λ val. delta_of val m) ∙ same) (omega arith) refl
      (get_or-map (words 32 0 src) (λ val. delta_of val m) i 0 0 (omega (arith, same))
        ∙ ap (λ (v : ℕ). delta_of v m)
            (word-block_bytes values padding i inside few (omega (arith, near.2)))
        ∙ delta_of-near (get_or values i 0) m near.0 near.2)
      near.1

module _ (as_i64 : ℕ → ℕ) where
  add_one :
      (deltas : List ℕ) (m i : ℕ) (temp : List ℕ)
      → leb (0 * 8 + 8) (length temp) ≡ true
      → FixedFrameOfReference.add_each as_i64 1 deltas m i temp 0
        ≡ ok (copy_to temp 0 (le_bytes 8 ((m + get_or deltas (i % 32) 0) % 2 ^ 64)))
  unfolding FixedFrameOfReference.add_each
  add_one deltas m i temp fits = rw fits refl

  frame_compressed :
      (metadata : CompressionMetadata) (m : ℕ) (src : List ℕ) (n : ℕ) (dst : List ℕ)
      → metadata.min ≡ node m
      → 256 ≤ length src
      → FixedFrameOfReference.compress_next_page as_i64 metadata src n dst
        ≡ ok (record {
          dst = pack_32 (map (λ val. delta_of val m) (words 32 0 src)) metadata.bit_width dst;
          size = compressed_size metadata.bit_width;
          processed = min n 32;
        })
  unfolding FixedFrameOfReference.compress_next_page FixedFrameOfReference.frame_min
  frame_compressed metadata m src n dst e whole =
      bind_ok
        (λ values. ok (record {
          dst =
              pack_32
                (map (λ val. delta_of val (FixedFrameOfReference.frame_min as_i64 metadata.min))
                  values)
                metadata.bit_width dst;
          size = compressed_size metadata.bit_width;
          processed = min n 32;
        }))
        (read_words_lem internal 32 0 src (omega arith))
      ∙ ap
          (λ (u : Value). ok (record {
            dst =
                pack_32
                  (map (λ val. delta_of val (FixedFrameOfReference.frame_min as_i64 u))
                    (words 32 0 src))
                  metadata.bit_width dst;
            size = compressed_size metadata.bit_width;
            processed = min n 32;
          }))
          e

  frame_read :
      (metadata : CompressionMetadata) (m : ℕ) (page : List ℕ) (i d : ℕ) (temp : List ℕ)
      → metadata.min ≡ node m
      → length temp ≡ 256
      → get_or (unpack_32 page metadata.bit_width (replicate 32 0)) (i % 32) 0 ≡ d
      → FixedFrameOfReference.decompress_from_page as_i64 metadata page i temp 0 1
        ≡ ok (copy_to temp 0 (le_bytes 8 ((m + d) % 2 ^ 64)))
  unfolding FixedFrameOfReference.decompress_from_page FixedFrameOfReference.frame_min
  frame_read metadata m page i d temp e room f =
      let fits : leb (0 * 8 + 8) (length temp) ≡ true = ground arith in
      add_one (unpack_32 page metadata.bit_width (replicate 32 0))
        (FixedFrameOfReference.frame_min as_i64 metadata.min) i temp fits
      ∙ ap
          (λ (u : Value).
            (ok (
              copy_to temp 0 (
                le_bytes 8 (
                  (FixedFrameOfReference.frame_min as_i64 u
                    + get_or (unpack_32 page metadata.bit_width (replicate 32 0)) (i % 32) 0)
                  % 2 ^ 64)))))
          e
      ∙ ap (λ (a : ℕ). ok (copy_to temp 0 (le_bytes 8 ((m + a) % 2 ^ 64)))) f

  pub fixed_frame_of_reference-IsCodecFor :
      (metadata : CompressionMetadata) (m : ℕ)
      → metadata.min ≡ node m
      → 0 < metadata.bit_width
      → metadata.bit_width < 64
      → IsCodecFor
          (get_alg as_i64 fixed_frame_of_reference 8)
          metadata
          (IsNear m metadata.bit_width)
  unfolding get_alg
  fixed_frame_of_reference-IsCodecFor metadata m e some_bits narrow values padding some_values few
        fit whole =
      (
        record {
          dst =
              pack_32 (map (λ val. delta_of val m) (words 32 0 (block_bytes values ++ padding)))
                metadata.bit_width zero_page;
          size = compressed_size metadata.bit_width;
          processed = min (length values) 32;
        },
        (
          frame_compressed metadata m (block_bytes values ++ padding) (length values) zero_page e
              (omega arith),
          omega arith,
          λ i temp inside room. (
            copy_to temp 0 (le_bytes 8 (get_or values i 0)),
            (
              frame_read metadata m _ i (get_or values i 0 - m) temp e room (
                    delta_back values padding m metadata.bit_width i some_bits narrow few inside
                      fit)
                  ∙ ap (λ (v : ℕ). ok (copy_to temp 0 (le_bytes 8 v)))
                      (frame_back (get_or values i 0) m metadata.bit_width
                        (All-get_or _ values i inside fit)),
              slice-put temp (le_bytes 8 (get_or values i 0))
                  (length-le_bytes 8 (get_or values i 0)),
            ),
          ),
        ),
      )
