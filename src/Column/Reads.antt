-- ===== src/Column/Reads.antt =====
-- crates/lightning-core/src/storage/column.rs: reads after `optimize`, as the codec was chosen.
use lightning_db.Prelude.{
  ℕ, ◌≤◌, ◌<◌, ◌≡◌, ◌^◌, ap, sym, ◌∙◌, subst, min, false, List, arith, ltb, Bool-cases, inl, inr,
  length, take, take_all, none, ok, All, length-take,
}
use lightning_db.Compression.Codecs.{CompressionType, node}
use lightning_db.Compression.Algs.{IsCodecFor, get_alg}
use lightning_db.Compression.Choice.{
  Suits, one_value, framed, packed, runs, indexed, unchanged, analyze_integer_chunk-Suits,
  analyze_integer_chunk-constant,
}
use lightning_db.Compression.PackedCodecs.{All-get_or, integer_bitpacking-IsCodecFor}
use lightning_db.Compression.FrameCodec.{IsNear, fixed_frame_of_reference-IsCodecFor}
use lightning_db.Compression.DictCodec.{dict-IsCodecFor}
use lightning_db.Compression.RunCodec.{rle-IsCodecFor}
use lightning_db.Column.{Column, optimize, reencode_compressed, get_plain_value, is_uncompressed}
use lightning_db.Column.Optimize.{
  ReadsAll, CanOptimize, in_blocks, chosen, reencoded, plain_value, optimize-small,
  optimize-unchanged, optimize-reencodes, constant-reencoded,
}

module _ (as_i64 : ℕ → ℕ) (estimate : List ℕ → ℕ) where
  -- A column that stays as it is.
  stays :
      (c : Column)
      → c.compression_meta ≡ none
      → optimize as_i64 estimate false c ≡ ok c
      → CanOptimize as_i64 estimate c
  stays c fresh e = (c, (e, λ row p. plain_value as_i64 estimate c row fresh))

  -- A column that is written anew.
  anew :
      (c : Column)
      → ltb (length c.values) 32 ≡ false
      → c.compression_meta ≡ none
      → is_uncompressed (chosen as_i64 estimate c).compression ≡ false
      → (c' : Column) × (reencode_compressed as_i64 estimate false c (chosen as_i64 estimate c)
            ≡ ok c'
          × ReadsAll as_i64 estimate c' c.values)
      → CanOptimize as_i64 estimate c
  anew c many fresh e new =
      (new.0, (optimize-reencodes as_i64 estimate c many fresh e ∙ new.1.0, new.1.1))

  sample_whole :
      (c : Column) → length c.values ≤ 4096 → take (min (length c.values) 4096) c.values ≡ c.values
  sample_whole c few = take_all (min (length c.values) 4096) c.values (omega arith)

  by_choice :
      (c : Column)
      → c.compression_meta ≡ none
      → ltb (length c.values) 32 ≡ false
      → All (λ v. v < 2 ^ 63) c.values
      → Suits (chosen as_i64 estimate c) c.values
      → CanOptimize as_i64 estimate c
  by_choice c fresh many small (unchanged e) =
      stays c fresh (optimize-unchanged as_i64 estimate c e)
  by_choice c fresh many small (runs e) =
      let metadata = chosen as_i64 estimate c in
      anew c many fresh (ap is_uncompressed e) (
        reencoded as_i64 estimate (λ v. v < 2 ^ 63) c metadata (ap (in_blocks as_i64 estimate) e)
          (subst
            (λ (t : CompressionType). IsCodecFor (get_alg as_i64 t 8) metadata (λ v. v < 2 ^ 63))
            (sym e) (rle-IsCodecFor as_i64 metadata (λ v. v < 2 ^ 63)))
          small small (ground arith))
  by_choice c fresh many small (indexed e) =
      let metadata = chosen as_i64 estimate c in
      anew c many fresh (ap is_uncompressed e) (
        reencoded as_i64 estimate (λ v. v < 2 ^ 63) c metadata (ap (in_blocks as_i64 estimate) e)
          (subst
            (λ (t : CompressionType). IsCodecFor (get_alg as_i64 t 8) metadata (λ v. v < 2 ^ 63))
            (sym e) (dict-IsCodecFor as_i64 metadata (λ v. v < 2 ^ 63)))
          small small (ground arith))
  by_choice c fresh many small (packed e some_bits narrow fit) =
      let metadata = chosen as_i64 estimate c in
      anew c many fresh (ap is_uncompressed e) (
        reencoded as_i64 estimate (λ v. v < 2 ^ metadata.bit_width) c metadata
          (ap (in_blocks as_i64 estimate) e)
          (subst
            (λ (t : CompressionType).
              (IsCodecFor (get_alg as_i64 t 8) metadata (λ v. v < 2 ^ metadata.bit_width)))
            (sym e) (integer_bitpacking-IsCodecFor as_i64 metadata some_bits narrow))
          fit small (ground arith))
  by_choice c fresh many small (framed lo e m some_bits narrow fit) =
      let metadata = chosen as_i64 estimate c in
      anew c many fresh (ap is_uncompressed e) (
        reencoded as_i64 estimate (IsNear lo metadata.bit_width) c metadata
          (ap (in_blocks as_i64 estimate) e)
          (subst
            (λ (t : CompressionType).
              IsCodecFor (get_alg as_i64 t 8) metadata (IsNear lo metadata.bit_width))
            (sym e) (fixed_frame_of_reference-IsCodecFor as_i64 metadata lo m some_bits narrow))
          fit small (ground arith))
  by_choice c fresh many small (one_value v e m same) =
      let new =
        constant-reencoded as_i64 estimate c (chosen as_i64 estimate c) v e m (ground arith) in
      anew c many fresh (ap is_uncompressed e) (
        new.0,
        (
          new.1.0,
          λ row p.
              new.1.1 row
              ∙ ap (λ (u : ℕ). ok (node u)) (sym (All-get_or (λ x. x ≡ v) c.values row p same)),
        ),
      )

  -- A node column of at most 4096 values below 2^63 that is not compressed yet: whichever codec the
  -- analyzer chooses, `optimize` succeeds, and every row reads as before.
  pub optimize-ReadsAll :
      (c : Column)
      → c.compression_meta ≡ none
      → length c.values ≤ 4096
      → All (λ v. v < 2 ^ 63) c.values
      → (c' : Column) × (optimize as_i64 estimate false c ≡ ok c'
          × ReadsAll as_i64 estimate c' c.values)
  optimize-ReadsAll c fresh few small = elim (Bool-cases (ltb (length c.values) 32)) [
    | inl tiny ↦ stays c fresh (optimize-small as_i64 estimate c tiny)
    | inr many ↦ by_choice c fresh many small (
        subst (Suits (chosen as_i64 estimate c)) (sample_whole c few) (
          analyze_integer_chunk-Suits estimate (take (min (length c.values) 4096) c.values)
            (subst (All (λ v. v < 2 ^ 63)) (sym (sample_whole c few)) small)))
  ]

  -- A node column of 32 values or more that is not compressed yet, whose first 4096 values are all v:
  -- after `optimize` every row reads as v, also a row behind them that held another value.
  pub optimize-loses :
      (c : Column) (v : ℕ)
      → c.compression_meta ≡ none
      → 32 ≤ length c.values
      → All (λ x. x ≡ v) (take (min (length c.values) 4096) c.values)
      → (c' : Column) × (optimize as_i64 estimate false c ≡ ok c'
          × ((row : ℕ) → get_plain_value as_i64 estimate c' row ≡ ok (node v)))
  optimize-loses c v fresh many same =
      let sample = take (min (length c.values) 4096) c.values in
      let constant_one =
        analyze_integer_chunk-constant estimate v sample
          (omega (arith, length-take (min (length c.values) 4096) c.values)) same in
      let new =
        constant-reencoded as_i64 estimate c (chosen as_i64 estimate c) v constant_one.0
          constant_one.1 many in
      (
        new.0,
        (
          optimize-reencodes as_i64 estimate c (ground arith) fresh
                (ap is_uncompressed constant_one.0)
              ∙ new.1.0,
          new.1.1,
        ),
      )
