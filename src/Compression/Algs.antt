-- ===== src/Compression/Algs.antt =====
-- crates/lightning-core/src/storage/compression/mod.rs: the interface of the codecs, and what a codec
-- promises for a block of at most 32 values. crates/lightning-core/src/storage/column.rs: get_alg.
use lightning_db.Prelude.{
  ℕ, ◌≤◌, ◌<◌, ◌≡◌, List, [], ◌∷◌, ◌++◌, length, get_or, Result, ok, All, replicate, take,
  length-replicate, get_or-replicate,
}
use lightning_db.Prelude.Bytes.{le_bytes, slice, copy_to}
use lightning_db.Compression.Codecs.{
  CompressionType, CompressionMetadata, CodecError, Compressed, uncompressed, integer_bitpacking,
  constant, fixed_frame_of_reference, rle, dict,
}
use lightning_db.Compression.Codecs.Constant
use lightning_db.Compression.Codecs.Uncompressed
use lightning_db.Compression.Codecs.IntegerBitpacking
use lightning_db.Compression.Codecs.FixedFrameOfReference
use lightning_db.Compression.Codecs.Rle
use lightning_db.Compression.Codecs.Dict

-- src, num_values_remaining, dst, metadata; and src, src_offset, dst, dst_offset, num_values, metadata
pub record CompressionAlg : Type 0 where
  pub compress_next_page : List ℕ → ℕ → List ℕ → CompressionMetadata → Result CodecError Compressed
  pub decompress_from_page :
      List ℕ → ℕ → List ℕ → ℕ → ℕ → CompressionMetadata → Result CodecError (List ℕ)

module _ (as_i64 : ℕ → ℕ) where
  unfoldable pub get_alg : CompressionType → ℕ → CompressionAlg
  get_alg uncompressed element_size = record {
    compress_next_page =
        λ src n dst metadata. Uncompressed.compress_next_page element_size src n dst;
    decompress_from_page =
        λ src i dst j n metadata. Uncompressed.decompress_from_page element_size src i dst j n;
  }
  get_alg integer_bitpacking element_size = record {
    compress_next_page =
        λ src n dst metadata. IntegerBitpacking.compress_next_page metadata src n dst;
    decompress_from_page =
        λ src i dst j n metadata. (IntegerBitpacking.decompress_from_page metadata src i dst j n);
  }
  get_alg constant element_size = record {
    compress_next_page = λ src n dst metadata. Constant.compress_next_page src n dst;
    decompress_from_page = λ src i dst j n metadata. Constant.decompress_from_page metadata dst j n;
  }
  get_alg fixed_frame_of_reference element_size = record {
    compress_next_page =
        λ src n dst metadata. (FixedFrameOfReference.compress_next_page as_i64 metadata src n dst);
    decompress_from_page = λ src i dst j n metadata.
        (FixedFrameOfReference.decompress_from_page as_i64 metadata src i dst j n);
  }
  get_alg rle element_size = record {
    compress_next_page = λ src n dst metadata. Rle.compress_next_page src n dst;
    decompress_from_page = λ src i dst j n metadata. Rle.decompress_from_page src i dst j n;
  }
  get_alg dict element_size = record {
    compress_next_page = λ src n dst metadata. Dict.compress_next_page src n dst;
    decompress_from_page = λ src i dst j n metadata. Dict.decompress_from_page src i dst j n;
  }

-- The bytes of a block of values.
unfoldable pub block_bytes : List ℕ → List ℕ
block_bytes [] = []
block_bytes (v ∷ values) = le_bytes 8 v ++ block_bytes values

-- [0u8; 4096]
unfoldable pub zero_page : List ℕ
zero_page = replicate 4096 0

pub length-zero_page : length zero_page ≡ 4096
unfolding zero_page
length-zero_page = length-replicate {A = ℕ} 4096 0

pub get_or-zero_page : (i : ℕ) → get_or zero_page i 0 ≡ 0
unfolding zero_page
get_or-zero_page i = get_or-replicate {A = ℕ} 4096 i 0

-- A page of the file has the compressed bytes, and zeros behind.
abbrev pub frame_of : Compressed → List ℕ
frame_of c = copy_to zero_page 0 (take c.size c.dst)

-- A read of one value of the compressed block gives that value.
abbrev pub DecodesTo : CompressionAlg → CompressionMetadata → List ℕ → List ℕ → Type 0
DecodesTo alg metadata frame values =
    (i : ℕ) (temp : List ℕ)
    → i < length values
    → length temp ≡ 256
    → (out : List ℕ) × (alg.decompress_from_page frame i temp 0 1 metadata ≡ ok out
        × slice out 0 8 ≡ le_bytes 8 (get_or values i 0))

-- Blocks of values with the property P, padded to 256 bytes, can be compressed whole and read back.
abbrev pub IsCodecFor : CompressionAlg → CompressionMetadata → (ℕ → Type 0) → Type 0
IsCodecFor alg metadata P =
    (values padding : List ℕ)
    → 0 < length values
    → length values ≤ 32
    → All P values
    → length (block_bytes values ++ padding) ≡ 256
    → (c : Compressed) × (alg.compress_next_page (block_bytes values ++ padding) (length values)
            zero_page metadata
          ≡ ok c
        × c.processed ≡ length values
        × DecodesTo alg metadata (frame_of c) values)
