-- ===== src/Compression/PackedCodecs.antt =====
-- crates/lightning-core/src/storage/compression/integer_bitpacking.rs: what is compressed is read back.
use lightning_db.Prelude.{
  if_false, ℕ, zero, suc, ◌+◌, ◌%◌, ◌^◌, ◌≤◌, ◌<◌, ◌≡◌, ap, ◌∙◌, min, List, [], ◌∷◌, ◌++◌, ◌==◌,
  arith, length, get_or, replicate, take, Result, ok, ◌>>=◌, All, length-replicate, get_or-map,
}
use lightning_db.Prelude.Bytes.{le_bytes, copy_to, length-le_bytes}
use native.Mathlib.Nat.{mod-eq_of_lt}
use lightning_db.Prelude.Bits.{bit-lt-pow, lt-pow_of_bits}
use lightning_db.Compression.{pack_32, unpack_32}
use lightning_db.Compression.Codecs.{
  CompressionMetadata, compressed_size, integer_bitpacking, out_of_range, emit_each,
}
use lightning_db.Compression.Codecs.IntegerBitpacking
use lightning_db.Compression.Algs.{
  get_alg, block_bytes, zero_page, length-zero_page, get_or-zero_page, IsCodecFor,
}
use lightning_db.Compression.Blocks.{
  slice-put, emit_one, words, length-words, read_words_lem, word-block_bytes, unpack_32-packed,
}

pub All-get_or :
    (P : ℕ → Type 0) (values : List ℕ) (j : ℕ)
    → j < length values
    → All P values
    → P (get_or values j 0)
All-get_or P [] j h p = absurd (omega arith)
All-get_or P (v ∷ values) zero h p = p.0
All-get_or P (v ∷ values) (suc j) h p = All-get_or P values j (omega arith) p.1

pub lt-pow_mono : (w v : ℕ) → w < 64 → v < 2 ^ w → v < 2 ^ 64
lt-pow_mono w v h small = lt-pow_of_bits 64 v λ i p. bit-lt-pow w v i small (omega arith)

-- Value i of 32 comes back from the page.
pub unpacked :
    (ws : List ℕ) (w i j v : ℕ)
    → 0 < w
    → w < 64
    → length ws ≡ 32
    → i < 32
    → j ≡ i
    → get_or ws i 0 ≡ v
    → v < 2 ^ w
    → get_or
        (unpack_32
          (copy_to zero_page 0 (take (compressed_size w) (pack_32 ws w zero_page)))
          w
          (replicate 32 0))
        (j % 32)
        0
      ≡ v
unpacked ws w i j v some_bits narrow l few same e fit =
    let place : j % 32 ≡ i = omega arith in
    rw place (
      ap (λ (vs : List ℕ). get_or vs i 0)
        (unpack_32-packed zero_page length-zero_page get_or-zero_page ws w (replicate 32 0)
          some_bits narrow l (length-replicate {A = ℕ} 32 0))
      ∙ get_or-map ws (λ v. v % 2 ^ w) i 0 0 (omega (arith, l))
      ∙ ap (λ (v : ℕ). v % 2 ^ w) e
      ∙ mod-eq_of_lt fit)

pub bind_ok :
    {E A B : Type 0} {m : Result E A} {a : A} (f : A → Result E B) → m ≡ ok a → (m >>= f) ≡ f a
bind_ok f h = ap (λ r. r >>= f) h

-- The results of both operations where the width is not 0.
bitpacking_compressed :
    (metadata : CompressionMetadata) (src : List ℕ) (n : ℕ) (dst : List ℕ)
    → 0 < metadata.bit_width
    → 256 ≤ length src
    → IntegerBitpacking.compress_next_page metadata src n dst
      ≡ ok (record {
        dst = pack_32 (words 32 0 src) metadata.bit_width dst;
        size = compressed_size metadata.bit_width;
        processed = min n 32;
      })
unfolding IntegerBitpacking.compress_next_page
bitpacking_compressed metadata src n dst some_bits whole =
    if_false (metadata.bit_width == 0) (ok (record { dst = dst; size = 0; processed = n })) _
      (ground arith)
    ∙ bind_ok
        (λ values. ok (record {
          dst = pack_32 values metadata.bit_width dst;
          size = compressed_size metadata.bit_width;
          processed = min n 32;
        }))
        (read_words_lem out_of_range 32 0 src (omega arith))

bitpacking_read :
    (metadata : CompressionMetadata) (page : List ℕ) (i v : ℕ) (temp : List ℕ)
    → 0 < metadata.bit_width
    → length temp ≡ 256
    → get_or (unpack_32 page metadata.bit_width (replicate 32 0)) ((i + 0) % 32) 0 ≡ v
    → IntegerBitpacking.decompress_from_page metadata page i temp 0 1
      ≡ ok (copy_to temp 0 (le_bytes 8 v))
unfolding IntegerBitpacking.decompress_from_page
bitpacking_read metadata page i v temp some_bits room e =
    if_false (metadata.bit_width == 0) (emit_each 1 (λ j. replicate 8 0) 0 temp 0) _ (ground arith)
    ∙ emit_one
        (λ j.
          le_bytes 8 (get_or (unpack_32 page metadata.bit_width (replicate 32 0)) ((i + j) % 32) 0))
        temp (length-le_bytes 8 _) room
    ∙ ap (λ (u : ℕ). ok (copy_to temp 0 (le_bytes 8 u))) e

pub integer_bitpacking-IsCodecFor :
    (as_i64 : ℕ → ℕ) (metadata : CompressionMetadata)
    → 0 < metadata.bit_width
    → metadata.bit_width < 64
    → IsCodecFor (get_alg as_i64 integer_bitpacking 8) metadata (λ v. v < 2 ^ metadata.bit_width)
unfolding get_alg
integer_bitpacking-IsCodecFor as_i64 metadata some_bits narrow values padding some_values few fit
      whole =
    (
      record {
        dst = pack_32 (words 32 0 (block_bytes values ++ padding)) metadata.bit_width zero_page;
        size = compressed_size metadata.bit_width;
        processed = min (length values) 32;
      },
      (
        bitpacking_compressed metadata (block_bytes values ++ padding) (length values) zero_page
            some_bits (omega arith),
        omega arith,
        λ i temp inside room. (
          copy_to temp 0 (le_bytes 8 (get_or values i 0)),
          (
            bitpacking_read metadata _ i (get_or values i 0) temp some_bits room (
                unpacked (words 32 0 (block_bytes values ++ padding)) metadata.bit_width i (i + 0) _
                  some_bits narrow (length-words 32 0 (block_bytes values ++ padding)) (omega arith)
                  (omega arith)
                  (word-block_bytes values padding i inside few
                    (lt-pow_mono metadata.bit_width _ narrow (All-get_or _ values i inside fit)))
                  (All-get_or _ values i inside fit)),
            slice-put temp (le_bytes 8 (get_or values i 0)) (length-le_bytes 8 (get_or values i 0)),
          ),
        ),
      ),
    )
