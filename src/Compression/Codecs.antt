-- ===== src/Compression/Codecs.antt =====
-- crates/lightning-core/src/storage/compression: the codecs of a page. An element has 8 bytes.
-- Slices out of range, which panic in Rust, are errors of their own.
pub mod Constant
pub mod IntegerBitpacking
pub mod FixedFrameOfReference
pub mod Rle
pub mod Dict
pub mod Uncompressed
use lightning_db.Prelude.{
  ℕ, zero, suc, ◌+◌, ◌-◌, ◌*◌, ◌/◌, ◌%◌, ◌^◌, min, Bool, true, false, ◌&&◌, ◌||◌, List, [], ◌∷◌,
  leb, ltb, ◌==◌, if◌then◌else◌, length, get_or, replicate, Option, Result, ok, err, ◌>>=◌, take,
}
use lightning_db.Prelude.Bytes.{le_bytes, from_le_bytes, slice, copy_to}

pub data CompressionType : Type 0 where
  uncompressed : CompressionType
  integer_bitpacking : CompressionType
  constant : CompressionType
  fixed_frame_of_reference : CompressionType
  rle : CompressionType
  dict : CompressionType

-- The values of a column of 8 bytes: the bits of a number are kept as they are.
pub data Value : Type 0 where
  null : Value
  node : ℕ → Value
  number : ℕ → Value

pub record CompressionMetadata : Type 0 where
  pub min : Value
  pub max : Value
  pub compression : CompressionType
  pub bit_width : ℕ

pub data CodecError : Type 0 where
  internal : CodecError
  out_of_range : CodecError

-- src[start..start + n], and dst[start..].copy_from_slice(bytes)
abbrev pub part : List ℕ → ℕ → ℕ → Result CodecError (List ℕ)
part src start n = if leb (start + n) (length src) then ok (slice src start n) else err out_of_range

abbrev pub put : List ℕ → ℕ → List ℕ → Result CodecError (List ℕ)
put dst start bytes =
    if leb (start + length bytes) (length dst)
    then ok (copy_to dst start bytes)
    else err out_of_range

unfoldable pub to_le_bytes : Value → List ℕ
to_le_bytes null = replicate 8 0
to_le_bytes (node id) = le_bytes 8 id
to_le_bytes (number bits) = le_bytes 8 bits

-- (compressed_size, num_values_processed), beside the buffer
pub record Compressed : Type 0 where
  pub dst : List ℕ
  pub size : ℕ
  pub processed : ℕ

-- for i in 0..n { dst[(dst_offset + i) * 8..].copy_from_slice(value(i)) }
unfoldable pub emit_each : ℕ → (ℕ → List ℕ) → ℕ → List ℕ → ℕ → Result CodecError (List ℕ)
emit_each zero value i dst dst_ptr = ok dst
emit_each (suc n) value i dst dst_ptr = do
  dst' ← put dst (dst_ptr * 8) (value i)
  emit_each n value (i + 1) dst' (dst_ptr + 1)

-- The words of the block, `n` of them from place i on, with what a short buffer gives.
unfoldable pub read_words : CodecError → ℕ → ℕ → List ℕ → Result CodecError (List ℕ)
read_words short zero i src = ok []
read_words short (suc n) i src =
    let rest = read_words short n (i + 1) src in
    if leb (i * 8 + 8) (length src)
    then (rest >>= λ words. ok (from_le_bytes (slice src (i * 8) 8) ∷ words))
    else err short

abbrev pub compressed_size : ℕ → ℕ
compressed_size bit_width = (32 * bit_width + 7) / 8
