-- ===== src/Column/Optimize.antt =====
-- crates/lightning-core/src/storage/column.rs: what is read after `optimize`.
use lightning_db.Prelude.{
  if_false, ℕ, zero, suc, ◌/◌, ◌^◌, ◌≤◌, ◌<◌, ◌≡◌, refl, ap, ◌∙◌, min, Bool, true, false, ◌||◌,
  ◌==◌, List, [], ◌∷◌, arith, leb, ltb, if◌then◌else◌, length, get_or, take, drop, none, ok, err,
  All,
}
use lightning_db.Prelude.Bytes.{from_le_bytes, slice, from_le_bytes-le_bytes}
use lightning_db.Compression.Codecs.{
  CompressionType, CompressionMetadata, Compressed, internal, node, uncompressed,
  integer_bitpacking, constant, fixed_frame_of_reference, rle, dict,
}
use lightning_db.Compression.Codecs.Constant
use lightning_db.Compression.Algs.{IsCodecFor, get_alg, zero_page, frame_of}
use lightning_db.Compression.Analyzer.{analyze_integer_chunk}
use lightning_db.Compression.PackedCodecs.{All-get_or, bind_ok}
use lightning_db.Column.{
  Column, with_pages, reencode_loop, reencode_compressed, optimize, block_value, value_with,
  get_plain_value, is_uncompressed, has_meta, fill, zero_block, length-zero_block,
}
use lightning_db.Column.Blocks.{Reads, reencode_loop-Reads}

if_same : {A : Type 0} (b : Bool) (x y : A) → y ≡ x → (if b then x else y) ≡ x
if_same true x y h = refl
if_same false x y h = h

module _ (as_i64 : ℕ → ℕ) (estimate : List ℕ → ℕ) where
  -- Every row reads as its value.
  abbrev pub ReadsAll : Column → List ℕ → Type 0
  ReadsAll c values =
      (row : ℕ)
      → row < length values
      → get_plain_value as_i64 estimate c row ≡ ok (node (get_or values row 0))

  abbrev pub CanOptimize : Column → Type 0
  CanOptimize c = (c' : Column) × (optimize as_i64 estimate false c ≡ ok c' × ReadsAll c' c.values)

  block_value-read :
      (metadata : CompressionMetadata) (pages : List (List ℕ)) (row v : ℕ)
      → v < 2 ^ 64
      → Reads (get_alg as_i64 metadata.compression 8) metadata pages row v
      → block_value as_i64 estimate metadata pages row ≡ ok (node v)
  unfolding block_value
  block_value-read metadata pages row v small reads =
      let there : leb (length pages) (row / 32) ≡ false = ground (arith, reads.0) in
      let read = reads.1 zero_block length-zero_block in
      if_false (leb (length pages) (row / 32)) (err internal) _ there
      ∙ bind_ok (λ (out : List ℕ). ok (node (from_le_bytes (slice out 0 8)))) read.1.0
      ∙ ap (λ (bytes : List ℕ). ok (node (from_le_bytes bytes))) read.1.1
      ∙ ap (λ (n : ℕ). ok (node n)) (from_le_bytes-le_bytes 8 v small)

  -- The codecs of blocks.
  abbrev pub in_blocks : CompressionType → Bool
  in_blocks constant = false
  in_blocks uncompressed = false
  in_blocks integer_bitpacking = true
  in_blocks fixed_frame_of_reference = true
  in_blocks rle = true
  in_blocks dict = true

  value_with-blocks :
      (c : Column) (row : ℕ) (t : CompressionType) (metadata : CompressionMetadata)
      → in_blocks t ≡ true
      → value_with as_i64 estimate c row t metadata
        ≡ block_value as_i64 estimate metadata c.pages row
  unfolding value_with
  value_with-blocks c row constant metadata h = absurd (ground (arith, h))
  value_with-blocks c row uncompressed metadata h = absurd (ground (arith, h))
  value_with-blocks c row integer_bitpacking metadata h = refl
  value_with-blocks c row fixed_frame_of_reference metadata h = refl
  value_with-blocks c row rle metadata h = refl
  value_with-blocks c row dict metadata h = refl

  pub reencoded :
      (P : ℕ → Type 0) (c : Column) (metadata : CompressionMetadata)
      → in_blocks metadata.compression ≡ true
      → IsCodecFor (get_alg as_i64 metadata.compression 8) metadata P
      → All P c.values
      → All (λ v. v < 2 ^ 63) c.values
      → 32 ≤ length c.values
      → (c' : Column) × (reencode_compressed as_i64 estimate false c metadata ≡ ok c'
          × ReadsAll c' c.values)
  unfolding reencode_compressed get_plain_value
  reencoded P c metadata blocks codec fit small many =
      let alg = get_alg as_i64 metadata.compression 8 in
      let written =
        reencode_loop-Reads P alg metadata codec (length c.values) c.values zero_block (omega arith)
          length-zero_block fit in
      let enough : ltb (length c.values) 32 ≡ false = ground arith in
      (
        with_pages c metadata written.0,
        (
          if_false (ltb (length c.values) 32) (ok c) _ enough
              ∙ bind_ok (λ pages. ok (with_pages c metadata pages)) written.1.0,
          λ row p.
              (value_with-blocks (with_pages c metadata written.0) row metadata.compression metadata
                  blocks
                ∙ block_value-read metadata written.0 row (get_or c.values row 0)
                    (omega (arith, All-get_or (λ v. v < 2 ^ 63) c.values row p small))
                    (written.1.1 row p)),
        ),
      )

  pub plain_value :
      (c : Column) (row : ℕ)
      → c.compression_meta ≡ none
      → get_plain_value as_i64 estimate c row ≡ ok (node (get_or c.values row 0))
  unfolding get_plain_value
  plain_value c row e = rw e refl

  abbrev pub chosen : Column → CompressionMetadata
  chosen c = analyze_integer_chunk estimate (take (min (length c.values) 4096) c.values)

  pub optimize-small :
      (c : Column) → ltb (length c.values) 32 ≡ true → optimize as_i64 estimate false c ≡ ok c
  unfolding optimize
  optimize-small c h = rw h refl

  pub optimize-unchanged :
      (c : Column) → (chosen c).compression ≡ uncompressed → optimize as_i64 estimate false c ≡ ok c
  unfolding optimize
  optimize-unchanged c e =
      if_same (ltb (length c.values) 32 || has_meta c.compression_meta) (ok c) _ (
        ap
          (λ (t : CompressionType).
            (if is_uncompressed t
              then ok c
              else reencode_compressed as_i64 estimate false c (chosen c)))
          e)

  pub optimize-reencodes :
      (c : Column)
      → ltb (length c.values) 32 ≡ false
      → c.compression_meta ≡ none
      → is_uncompressed (chosen c).compression ≡ false
      → optimize as_i64 estimate false c ≡ reencode_compressed as_i64 estimate false c (chosen c)
  unfolding optimize
  optimize-reencodes c many fresh e =
      let go_on : (ltb (length c.values) 32 || has_meta c.compression_meta) ≡ false =
        ap (λ (b : Bool). b || has_meta c.compression_meta) many ∙ ap has_meta fresh in
      if_false (ltb (length c.values) 32 || has_meta c.compression_meta) (ok c) _ go_on
      ∙ if_false (is_uncompressed (chosen c).compression) (ok c) _ e

  -- The codec of a constant writes an empty page for every block.
  constant_loop :
      (metadata : CompressionMetadata) (fuel : ℕ) (values src : List ℕ)
      → (pages : List (List ℕ)) × (reencode_loop fuel
            (get_alg as_i64 constant 8)
            metadata
            values
            src
          ≡ ok pages)
  unfolding reencode_loop get_alg Constant.compress_next_page
  constant_loop metadata zero values src = ([], refl)
  constant_loop metadata (suc fuel) [] src = ([], refl)
  constant_loop metadata (suc fuel) (v ∷ values) src =
      let blk : ℕ = min 32 (suc (length values)) in
      let rest =
        constant_loop metadata fuel (drop blk (v ∷ values)) (fill 0 (take blk (v ∷ values)) src) in
      let c : Compressed = record { dst = zero_page; size = 0; processed = blk } in
      (
        frame_of c ∷ rest.0,
        if_false (blk == 0) (ok []) _ (ground arith)
            ∙ bind_ok (λ (pages : List (List ℕ)). ok (frame_of c ∷ pages)) rest.1,
      )

  constant_value :
      (c : Column) (row : ℕ) (metadata : CompressionMetadata) (v : ℕ)
      → metadata.min ≡ node v
      → value_with as_i64 estimate c row constant metadata ≡ ok (node v)
  unfolding value_with
  constant_value c row metadata v m = ap ok m

  pub constant-reencoded :
      (c : Column) (metadata : CompressionMetadata) (v : ℕ)
      → metadata.compression ≡ constant
      → metadata.min ≡ node v
      → 32 ≤ length c.values
      → (c' : Column) × (reencode_compressed as_i64 estimate false c metadata ≡ ok c'
          × ((row : ℕ) → get_plain_value as_i64 estimate c' row ≡ ok (node v)))
  unfolding reencode_compressed get_plain_value
  constant-reencoded c metadata v e m many =
      let written = constant_loop metadata (length c.values) c.values zero_block in
      let enough : ltb (length c.values) 32 ≡ false = ground arith in
      (
        with_pages c metadata written.0,
        (
          if_false (ltb (length c.values) 32) (ok c) _ enough
              ∙ bind_ok (λ pages. ok (with_pages c metadata pages))
                  (ap
                      (λ (t : CompressionType).
                        (reencode_loop (length c.values) (get_alg as_i64 t 8) metadata c.values
                          zero_block))
                      e
                    ∙ written.1),
          λ row.
              ap
                (λ (t : CompressionType).
                  (value_with as_i64 estimate (with_pages c metadata written.0) row t metadata))
                e
              ∙ constant_value (with_pages c metadata written.0) row metadata v m,
        ),
      )
