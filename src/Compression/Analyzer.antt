-- ===== src/Compression/Analyzer.antt =====
-- crates/lightning-core/src/storage/compression/analyzer.rs: the choice of a codec for node columns.
use lightning_db.Prelude.{
  ℕ, ◌+◌, ◌-◌, ◌*◌, ◌/◌, Bool, true, false, ◌&&◌, List, [], ◌∷◌, ltb, ◌==◌, if◌then◌else◌, length,
}
use lightning_db.Compression.Codecs.{
  CompressionMetadata, CompressionType, null, node, uncompressed, integer_bitpacking, constant,
  fixed_frame_of_reference, rle, dict,
}
use lightning_db.Compression.Codecs.Dict.{bit_length}

-- The variables of the loop of analyze_integer_chunk.
pub record Seen : Type 0 where
  pub all_same : Bool
  pub count_same : ℕ
  pub prev : ℕ
  pub min : ℕ
  pub max : ℕ

unfoldable pub see : ℕ → Seen → ℕ → Seen
see first s val = record {
  all_same = s.all_same && (val == first);
  count_same = if val == s.prev then s.count_same + 1 else s.count_same;
  prev = val;
  min = if ltb val s.min then val else s.min;
  max = if ltb s.max val then val else s.max;
}

unfoldable pub see_each : ℕ → List ℕ → Seen → Seen
unfolding see
see_each first [] s = s
see_each first (val ∷ values) s = see_each first values (see first s val)

abbrev pub unseen : ℕ → Seen
unseen first = record { all_same = true; count_same = 0; prev = first; min = first; max = first }

unfoldable pub calculate_bit_width : ℕ → ℕ
unfolding bit_length
calculate_bit_width range = bit_length 64 range

abbrev pub choice : Seen → CompressionType → ℕ → CompressionMetadata
choice s compression bit_width = record {
  min = node s.min;
  max = node s.max;
  compression = compression;
  bit_width = bit_width;
}

-- The early returns, by their tests, and the match on the bounds.
unfoldable pub choose : Bool → Bool → Bool → ℕ → Seen → CompressionMetadata
choose true mostly_runs few_distinct bit_width s = choice s constant 0
choose false true few_distinct bit_width s = choice s rle 0
choose false false true bit_width s = choice s dict 0
choose false false false bit_width s =
    if ltb bit_width 64
    then if ltb 0 s.min
      then choice s fixed_frame_of_reference bit_width
      else choice s integer_bitpacking bit_width
    else choice s uncompressed 0

-- Without bounds from outside. `estimate` is the estimator's count of distinct values.
unfoldable pub analyze_integer_chunk : (List ℕ → ℕ) → List ℕ → CompressionMetadata
unfolding see_each calculate_bit_width choose
analyze_integer_chunk estimate [] = record {
  min = null;
  max = null;
  compression = uncompressed;
  bit_width = 0;
}
analyze_integer_chunk estimate (first ∷ rest) =
    let values = first ∷ rest in
    let s = see_each first values (unseen first) in
    choose s.all_same (ltb (length values * 3 / 4) s.count_same && ltb 64 (length values))
      (ltb (estimate values) (length values / 4) && ltb 64 (length values))
      (calculate_bit_width (s.max - s.min)) s
