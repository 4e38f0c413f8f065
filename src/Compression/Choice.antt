-- ===== src/Compression/Choice.antt =====
-- crates/lightning-core/src/storage/compression/analyzer.rs: the chosen codec suits the values.
use lightning_db.Prelude.{
  ℕ, zero, suc, ◌-◌, ◌*◌, ◌/◌, ◌^◌, ◌≤◌, ◌<◌, ◌≡◌, refl, ap, sym, ◌∙◌, subst, Bool, true, false,
  ◌&&◌, List, [], ◌∷◌, arith, ltb, ◌==◌, Bool-cases, inl, inr, length, All,
}
use lightning_db.Prelude.Bits.{pow-suc}
use lightning_db.Compression.Codecs.{
  CompressionMetadata, node, uncompressed, integer_bitpacking, constant, fixed_frame_of_reference,
  rle, dict,
}
use lightning_db.Compression.Codecs.Dict.{bit_length}
use lightning_db.Compression.Analyzer.{
  Seen, see, see_each, unseen, choose, calculate_bit_width, analyze_integer_chunk,
}
use lightning_db.Compression.FrameCodec.{IsNear}

pub lt-bit_length : (fuel n : ℕ) → n < 2 ^ fuel → n < 2 ^ bit_length fuel n
unfolding bit_length
lt-bit_length zero n h = omega arith
lt-bit_length (suc fuel) n h = elim (Bool-cases (n == 0)) [
  | inl none ↦ rw none (ground arith)
  | inr some_bits ↦
      let half = lt-bit_length fuel (n / 2) (omega (arith, h, pow-suc fuel)) in
      rw some_bits (omega (arith, half, pow-suc (bit_length fuel (n / 2))))
]

pub bit_length-pos : (fuel n : ℕ) → 0 < fuel → 0 < n → 0 < bit_length fuel n
unfolding bit_length
bit_length-pos zero n p h = absurd (omega arith)
bit_length-pos (suc fuel) n p h = ground arith

-- The bounds hold the first value, and differ once two values differ.
abbrev IsSeen : ℕ → Seen → Type 0
IsSeen first s = s.min ≤ first × first ≤ s.max × (s.all_same ≡ false → s.min < s.max)

see-IsSeen : (first : ℕ) (s : Seen) (val : ℕ) → IsSeen first s → IsSeen first (see first s val)
unfolding see
see-IsSeen first s val seen = (
  ground (arith, seen.0),
  ground (arith, seen.1),
  λ e. elim (Bool-cases s.all_same) [
    | inl same ↦ ground (arith, seen.0, seen.1)
    | inr differs ↦ ground (arith, seen.2 differs)
  ],
)

see-min :
    (first : ℕ) (s : Seen) (val : ℕ) → (see first s val).min ≤ s.min × (see first s val).min ≤ val
unfolding see
see-min first s val = (ground arith, ground arith)

see-max :
    (first : ℕ) (s : Seen) (val : ℕ) → s.max ≤ (see first s val).max × val ≤ (see first s val).max
unfolding see
see-max first s val = (ground arith, ground arith)

see_each-bounds :
    (first : ℕ) (values : List ℕ) (s : Seen)
    → IsSeen first s
    → (see_each first values s).min ≤ s.min
      × s.max ≤ (see_each first values s).max
      × All (λ v. (see_each first values s).min ≤ v × v ≤ (see_each first values s).max) values
      × IsSeen first (see_each first values s)
unfolding see_each
see_each-bounds first [] s seen = (omega arith, omega arith, tt, seen)
see_each-bounds first (val ∷ values) s seen =
    let later = see_each-bounds first values (see first s val) (see-IsSeen first s val seen) in
    let low = see-min first s val in
    let high = see-max first s val in
    (
      omega (arith, later.0, low.0),
      omega (arith, later.1, high.0),
      ((omega (arith, later.0, low.1), omega (arith, later.1, high.1)), later.2),
      later.3,
    )

see_each-all_same :
    (first : ℕ) (values : List ℕ) (s : Seen)
    → (see_each first values s).all_same ≡ true
    → s.all_same ≡ true × All (λ v. v ≡ first) values
unfolding see_each see
see_each-all_same first [] s e = (e, tt)
see_each-all_same first (val ∷ values) s e =
    let later = see_each-all_same first values (see first s val) e in
    (ground (arith, later.0), (ground (arith, later.0), later.1))

see_each-of_same :
    (first : ℕ) (values : List ℕ) (s : Seen)
    → All (λ v. v ≡ first) values
    → s.all_same ≡ true
    → s.min ≡ first
    → (see_each first values s).all_same ≡ true × (see_each first values s).min ≡ first
unfolding see_each see
see_each-of_same first [] s same e m = (e, m)
see_each-of_same first (val ∷ values) s same e m =
    see_each-of_same first values (see first s val) same.1 (ground (arith, same.0))
      (ground (arith, same.0))

-- The codec of the metadata gives every value back.
pub data Suits (m : CompressionMetadata) (values : List ℕ) : Type 0 where
  one_value :
      (v : ℕ) → m.compression ≡ constant → m.min ≡ node v → All (λ x. x ≡ v) values → Suits m values
  framed :
      (lo : ℕ)
      → m.compression ≡ fixed_frame_of_reference
      → m.min ≡ node lo
      → 0 < m.bit_width
      → m.bit_width < 64
      → All (IsNear lo m.bit_width) values
      → Suits m values
  packed :
      m.compression ≡ integer_bitpacking
      → 0 < m.bit_width
      → m.bit_width < 64
      → All (λ v. v < 2 ^ m.bit_width) values
      → Suits m values
  runs : m.compression ≡ rle → Suits m values
  indexed : m.compression ≡ dict → Suits m values
  unchanged : m.compression ≡ uncompressed → Suits m values

in_frame :
    (lo hi w : ℕ) (values : List ℕ)
    → hi < 2 ^ 63
    → hi - lo < 2 ^ w
    → All (λ v. lo ≤ v × v ≤ hi) values
    → All (IsNear lo w) values
in_frame lo hi w [] small fit h = tt
in_frame lo hi w (v ∷ values) small fit h = (
  (h.0.0, omega (arith, h.0.1, fit), omega (arith, h.0.1)),
  in_frame lo hi w values small fit h.1,
)

below_bound :
    (lo hi w : ℕ) (values : List ℕ)
    → lo ≡ 0
    → hi - lo < 2 ^ w
    → All (λ v. lo ≤ v × v ≤ hi) values
    → All (λ v. v < 2 ^ w) values
below_bound lo hi w [] z fit h = tt
below_bound lo hi w (v ∷ values) z fit h =
    (omega (arith, h.0.1, fit), below_bound lo hi w values z fit h.1)

see_each-max_lt :
    (first bound : ℕ) (values : List ℕ) (s : Seen)
    → s.max < bound
    → All (λ v. v < bound) values
    → (see_each first values s).max < bound
unfolding see_each see
see_each-max_lt first bound [] s h small = h
see_each-max_lt first bound (val ∷ values) s h small =
    see_each-max_lt first bound values (see first s val) (ground (arith, small.0)) small.1

choose-Suits :
    (all_same mostly_runs few_distinct : Bool) (w first : ℕ) (s : Seen) (values : List ℕ)
    → (all_same ≡ true → All (λ v. v ≡ first) values × s.min ≡ first)
    → (all_same ≡ false → 0 < w)
    → s.max < 2 ^ 63
    → s.max - s.min < 2 ^ w
    → All (λ v. s.min ≤ v × v ≤ s.max) values
    → Suits (choose all_same mostly_runs few_distinct w s) values
unfolding choose
choose-Suits true mostly_runs few_distinct w first s values same some_bits top fit bounds =
    one_value first refl (ap node (same refl).1) (same refl).0
choose-Suits false true few_distinct w first s values same some_bits top fit bounds = runs refl
choose-Suits false false true w first s values same some_bits top fit bounds = indexed refl
choose-Suits false false false w first s values same some_bits top fit bounds =
    elim (Bool-cases (ltb w 64)) [
      | inr wide ↦ rw wide (unchanged refl)
      | inl narrow ↦ elim (Bool-cases (ltb 0 s.min)) [
        | inl above ↦
            rw (narrow, above)
              (framed s.min refl refl (some_bits refl) (ground arith)
                (in_frame s.min s.max w values top fit bounds))
        | inr zero_based ↦
            rw (narrow, zero_based)
              (packed refl (some_bits refl) (ground arith)
                (below_bound s.min s.max w values (ground arith) fit bounds))
      ]
    ]

unseen-IsSeen : (first : ℕ) → IsSeen first (unseen first)
unseen-IsSeen first = (omega arith, omega arith, λ e. absurd (ground (arith, e)))

pub analyze_integer_chunk-Suits :
    (estimate : List ℕ → ℕ) (values : List ℕ)
    → All (λ v. v < 2 ^ 63) values
    → Suits (analyze_integer_chunk estimate values) values
unfolding analyze_integer_chunk calculate_bit_width
analyze_integer_chunk-Suits estimate [] small = unchanged refl
analyze_integer_chunk-Suits estimate (first ∷ rest) small =
    let values : List ℕ = first ∷ rest in
    let s = see_each first values (unseen first) in
    let bounds = see_each-bounds first values (unseen first) (unseen-IsSeen first) in
    let top = see_each-max_lt first (2 ^ 63) values (unseen first) small.0 small in
    choose-Suits s.all_same (ltb (length values * 3 / 4) s.count_same && ltb 64 (length values))
      (ltb (estimate values) (length values / 4) && ltb 64 (length values))
      (bit_length 64 (s.max - s.min)) first s values
      (λ e.
        let same = see_each-all_same first values (unseen first) e in
        (same.1, (see_each-of_same first values (unseen first) same.1 refl refl).1))
      (λ e. bit_length-pos 64 (s.max - s.min) (omega arith) (omega (arith, bounds.3.2 e))) top
      (lt-bit_length 64 (s.max - s.min) (omega (arith, top))) bounds.2

choose_constant :
    (all_same mostly_runs few_distinct : Bool) (w : ℕ) (s : Seen) (v : ℕ)
    → all_same ≡ true
    → s.min ≡ v
    → (choose all_same mostly_runs few_distinct w s).compression ≡ constant
      × (choose all_same mostly_runs few_distinct w s).min ≡ node v
unfolding choose
choose_constant true mostly_runs few_distinct w s v e m = (refl, ap node m)
choose_constant false mostly_runs few_distinct w s v e m = absurd (ground (arith, e))

same_as_first :
    (first v : ℕ) (values : List ℕ)
    → first ≡ v
    → All (λ x. x ≡ v) values
    → All (λ x. x ≡ first) values
same_as_first first v values e same = subst (λ (u : ℕ). All (λ x. x ≡ u) values) (sym e) same

-- Values that are all the same are stored once.
pub analyze_integer_chunk-constant :
    (estimate : List ℕ → ℕ) (v : ℕ) (values : List ℕ)
    → 0 < length values
    → All (λ x. x ≡ v) values
    → (analyze_integer_chunk estimate values).compression ≡ constant
      × (analyze_integer_chunk estimate values).min ≡ node v
unfolding analyze_integer_chunk
analyze_integer_chunk-constant estimate v [] h same = absurd (omega arith)
analyze_integer_chunk-constant estimate v (first ∷ rest) h same =
    let values : List ℕ = first ∷ rest in
    let s = see_each first values (unseen first) in
    let seen =
      see_each-of_same first values (unseen first) (same_as_first first v values same.0 same) refl
        refl in
    choose_constant s.all_same (ltb (length values * 3 / 4) s.count_same && ltb 64 (length values))
      (ltb (estimate values) (length values / 4) && ltb 64 (length values))
      (calculate_bit_width (s.max - s.min)) s v seen.0 (seen.1 ∙ same.0)
