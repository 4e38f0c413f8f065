-- ===== src/Column.antt =====
-- crates/lightning-core/src/storage/column.rs: a column of nodes, as it is compressed and read.
pub mod Blocks
pub mod Optimize
mod Reads
mod Tests
use lightning_db.Prelude.{
  ℕ, zero, suc, ◌+◌, ◌-◌, ◌*◌, ◌/◌, ◌%◌, ◌^◌, min, Bool, true, false, ◌&&◌, ◌||◌, List, [], ◌∷◌,
  leb, ltb, ◌==◌, ◌≡◌, if◌then◌else◌, length, get_or, replicate, length-replicate, is_empty, Option,
  none, some, Result, ok, err, ◌>>=◌, take, drop,
}
use lightning_db.Prelude.Bytes.{le_bytes, from_le_bytes, slice, copy_to}
use lightning_db.Compression.Codecs.{
  Value, CompressionType, CompressionMetadata, CodecError, Compressed, null, node, number, internal,
  uncompressed, integer_bitpacking, constant, fixed_frame_of_reference, rle, dict,
}
use lightning_db.Compression.Algs.{CompressionAlg, get_alg, zero_page, frame_of}
use lightning_db.Compression.Analyzer.{analyze_integer_chunk}

-- `values` are what a scan of the pages gives while the column is not compressed; `pages` is the file
-- once it is.
pub record Column : Type 0 where
  pub values : List ℕ
  pub pages : List (List ℕ)
  pub compression_meta : Option CompressionMetadata
  pub compressed : Bool

-- vec![0u8; 32 * 8]
unfoldable pub zero_block : List ℕ
zero_block = replicate 256 0

pub length-zero_block : length zero_block ≡ 256
unfolding zero_block
length-zero_block = length-replicate {A = ℕ} 256 0

-- The loop that serializes a block: the bytes behind it stay from the block before.
unfoldable pub fill : ℕ → List ℕ → List ℕ → List ℕ
fill i [] src = src
fill i (v ∷ values) src = fill (i + 1) values (copy_to src (i * 8) (le_bytes 8 v))

-- The loop over the blocks, a page for each. `values` are those that are not written yet; a round
-- writes one at least.
unfoldable pub reencode_loop :
    ℕ → CompressionAlg → CompressionMetadata → List ℕ → List ℕ → Result CodecError (List (List ℕ))
unfolding fill
reencode_loop zero alg metadata values src = ok []
reencode_loop (suc fuel) alg metadata values src =
    let blk = min 32 (length values) in
    let src' = fill 0 (take blk values) src in
    let next = λ (c : Compressed).
      (let rest = reencode_loop fuel alg metadata (drop c.processed values) src' in
        if c.processed == 0 then ok [] else (rest >>= λ pages. ok (frame_of c ∷ pages))) in
    if is_empty values then ok [] else (alg.compress_next_page src' blk zero_page metadata >>= next)

abbrev pub with_pages : Column → CompressionMetadata → List (List ℕ) → Column
with_pages c metadata pages = record {
  values = c.values;
  pages = pages;
  compression_meta = some metadata;
  compressed = true;
}

abbrev pub is_uncompressed : CompressionType → Bool
is_uncompressed uncompressed = true
is_uncompressed integer_bitpacking = false
is_uncompressed constant = false
is_uncompressed fixed_frame_of_reference = false
is_uncompressed rle = false
is_uncompressed dict = false

abbrev pub has_meta : Option CompressionMetadata → Bool
has_meta none = false
has_meta (some metadata) = true

-- `as_i64` is the cast of a number, `estimate` the count of distinct values.
module _ (as_i64 : ℕ → ℕ) (estimate : List ℕ → ℕ) where
  -- `other_active`: another transaction is active.
  unfoldable pub reencode_compressed :
      Bool → Column → CompressionMetadata → Result CodecError Column
  unfolding reencode_loop
  reencode_compressed other_active c metadata =
      if other_active
      then ok c
      else if ltb (length c.values) 32
      then ok c
      else (reencode_loop (length c.values) (get_alg as_i64 metadata.compression 8) metadata
            c.values zero_block
          >>= λ pages. ok (with_pages c metadata pages))

  -- The choice of a codec, and the new pages.
  unfoldable pub optimize : Bool → Column → Result CodecError Column
  unfolding reencode_compressed
  optimize other_active c =
      let metadata = analyze_integer_chunk estimate (take (min (length c.values) 4096) c.values) in
      if ltb (length c.values) 32 || has_meta c.compression_meta
      then ok c
      else if is_uncompressed metadata.compression
      then ok c
      else reencode_compressed other_active c metadata

  -- A value of the block that holds the row.
  unfoldable pub block_value : CompressionMetadata → List (List ℕ) → ℕ → Result CodecError Value
  block_value metadata pages row_id =
      let temp =
        (get_alg as_i64 metadata.compression 8).decompress_from_page (get_or pages (row_id / 32) [])
          (row_id % 32) zero_block 0 1 metadata in
      if leb (length pages) (row_id / 32)
      then err internal
      else (temp >>= λ out. ok (node (from_le_bytes (slice out 0 8))))

  unfoldable pub value_with :
      Column → ℕ → CompressionType → CompressionMetadata → Result CodecError Value
  unfolding block_value
  value_with c row_id constant metadata = ok metadata.min
  value_with c row_id uncompressed metadata = ok (node (get_or c.values row_id 0))
  value_with c row_id integer_bitpacking metadata = block_value metadata c.pages row_id
  value_with c row_id fixed_frame_of_reference metadata = block_value metadata c.pages row_id
  value_with c row_id rle metadata = block_value metadata c.pages row_id
  value_with c row_id dict metadata = block_value metadata c.pages row_id

  unfoldable pub get_plain_value : Column → ℕ → Result CodecError Value
  unfolding value_with
  get_plain_value c row_id = elim c.compression_meta [
    | none ↦ ok (node (get_or c.values row_id 0))
    | some metadata ↦ value_with c row_id metadata.compression metadata
  ]
