-- ===== src/Csr/Offsets.antt =====
-- crates/lightning-core/src/storage/index/csr.rs, `build`: the table of offsets.
use lightning_db.Prelude.{
  ℕ, zero, suc, ◌+◌, ◌<◌, ◌≡◌, refl, ap, ◌∙◌, false, List, [], ◌∷◌, arith, leb, ◌==◌, if◌then◌else◌,
  Bool-cases, inl, inr, length, get_or, set, length-set, get_or-set, ap₂, replicate,
  length-replicate, get_or-replicate,
}
use lightning_db.Csr.{Edge}
use lightning_db.Csr.Build.{sort_by_source, count_sources, prefix_sums}
use lightning_db.Csr.Sorting.{below, below-sort_by_source}

-- The edges that are counted at a place of the table.
abbrev counted_at : ℕ → List Edge → ℕ
counted_at i [] = 0
counted_at i (e ∷ edges) = if suc e.0 == i then suc (counted_at i edges) else counted_at i edges

counted_up :
    (i : ℕ) (edges : List Edge) → below i edges + counted_at (suc i) edges ≡ below (suc i) edges
counted_up i [] = omega arith
counted_up i (e ∷ edges) = ground (arith, counted_up i edges)

none_at_first : (edges : List Edge) → counted_at 0 edges ≡ 0
none_at_first [] = refl
none_at_first (e ∷ edges) = ground (arith, none_at_first edges)

none_below_first : (edges : List Edge) → below 0 edges ≡ 0
none_below_first [] = refl
none_below_first (e ∷ edges) = ground (arith, none_below_first edges)

pub length-count_sources :
    (n : ℕ) (offsets : List ℕ) (edges : List Edge)
    → length (count_sources n offsets edges) ≡ length offsets
unfolding count_sources
length-count_sources n offsets [] = refl
length-count_sources n offsets (e ∷ edges) =
    length-count_sources n
      (if leb e.0 n then set offsets (suc e.0) (get_or offsets (suc e.0) 0 + 1) else offsets) edges
    ∙ elim (Bool-cases (leb e.0 n)) [
      | inl inside ↦ rw inside (length-set offsets (suc e.0) _)
      | inr outside ↦ rw outside refl
    ]

-- One edge more.
count_one :
    (n : ℕ) (offsets : List ℕ) (e : Edge) (i : ℕ)
    → i < length offsets
    → length offsets ≡ n + 2
    → get_or
        (if leb e.0 n then set offsets (suc e.0) (get_or offsets (suc e.0) 0 + 1) else offsets)
        i
        0
      ≡ (if suc e.0 == i then suc (get_or offsets i 0) else get_or offsets i 0)
count_one n offsets e i h l = elim (Bool-cases (leb e.0 n)) [
  | inl inside ↦
      let read =
        get_or-set offsets (suc e.0) i (get_or offsets (suc e.0) 0 + 1) 0
          (ground (arith, inside, l)) in
      elim (Bool-cases (suc e.0 == i)) [
        | inl here ↦
            let e' : suc e.0 ≡ i = ground (arith, here) in
            rw inside (read ∙ rw here (ap (λ (k : ℕ). get_or offsets k 0 + 1) e' ∙ omega arith))
        | inr elsewhere ↦ rw inside (read ∙ rw elsewhere refl)
      ]
  | inr outside ↦
      let elsewhere : (suc e.0 == i) ≡ false = ground (arith, outside, l, h) in
      rw (outside, elsewhere) refl
]

get_or-count_sources :
    (n : ℕ) (offsets : List ℕ) (edges : List Edge) (i : ℕ)
    → i < length offsets
    → length offsets ≡ n + 2
    → get_or (count_sources n offsets edges) i 0 ≡ get_or offsets i 0 + counted_at i edges
unfolding count_sources
get_or-count_sources n offsets [] i h l = omega arith
get_or-count_sources n offsets (e ∷ edges) i h l =
    let next : List ℕ =
      if leb e.0 n then set offsets (suc e.0) (get_or offsets (suc e.0) 0 + 1) else offsets in
    let same : length next ≡ length offsets = length-count_sources n offsets (e ∷ []) in
    let rest = get_or-count_sources n next edges i (omega (arith, same)) (same ∙ l) in
    rest ∙ ap (λ (k : ℕ). k + counted_at i edges) (count_one n offsets e i h l) ∙ ground arith

get_or-prefix_sums :
    (edges : List Edge) (counts : List ℕ) (previous k i : ℕ)
    → i < length counts
    → previous + counted_at k edges ≡ below k edges
    → ((j : ℕ) → j < length counts → get_or counts j 0 ≡ counted_at (k + j) edges)
    → get_or (prefix_sums previous counts) i 0 ≡ below (k + i) edges
unfolding prefix_sums
get_or-prefix_sums edges [] previous k i h start same = absurd (omega arith)
get_or-prefix_sums edges (count ∷ counts) previous k zero h start same =
    let first =
      same 0 (omega arith)
      ∙ ap (λ (n : ℕ). counted_at n edges) (let e : k + 0 ≡ k = omega arith in e) in
    ap (λ (n : ℕ). previous + n) first
    ∙ start
    ∙ ap (λ (n : ℕ). below n edges) (let e : k ≡ k + 0 = omega arith in e)
get_or-prefix_sums edges (count ∷ counts) previous k (suc i) h start same =
    let first =
      same 0 (omega arith)
      ∙ ap (λ (n : ℕ). counted_at n edges) (let e : k + 0 ≡ k = omega arith in e) in
    let sum : previous + count ≡ below k edges = ap (λ (n : ℕ). previous + n) first ∙ start in
    get_or-prefix_sums edges counts (previous + count) (suc k) i (omega arith)
      (ap (λ (n : ℕ). n + counted_at (suc k) edges) sum ∙ counted_up k edges)
      (λ j p.
        same (suc j) (omega arith)
        ∙ ap (λ (n : ℕ). counted_at n edges) (let e : k + suc j ≡ suc k + j = omega arith in e))
    ∙ ap (λ (n : ℕ). below n edges) (let e : suc k + i ≡ k + suc i = omega arith in e)

length-prefix_sums :
    (previous : ℕ) (counts : List ℕ) → length (prefix_sums previous counts) ≡ length counts
unfolding prefix_sums
length-prefix_sums previous [] = refl
length-prefix_sums previous (count ∷ counts) = ap suc (length-prefix_sums (previous + count) counts)

-- The table of offsets: at a place, the number of the edges of the nodes below it.
abbrev pub offsets_of : ℕ → List Edge → List ℕ
offsets_of num_nodes edges =
    prefix_sums 0 (count_sources num_nodes (replicate (num_nodes + 2) 0) (sort_by_source edges))

pub length-offsets_of : (n : ℕ) (edges : List Edge) → length (offsets_of n edges) ≡ n + 2
length-offsets_of n edges =
    length-prefix_sums 0 _
    ∙ length-count_sources n (replicate (n + 2) 0) (sort_by_source edges)
    ∙ length-replicate {A = ℕ} (n + 2) 0

pub get_or-offsets_of :
    (n : ℕ) (edges : List Edge) (i : ℕ)
    → i < n + 2
    → get_or (offsets_of n edges) i 0 ≡ below i edges
get_or-offsets_of n edges i h =
    let zeros : List ℕ = replicate (n + 2) 0 in
    let l : length zeros ≡ n + 2 = length-replicate {A = ℕ} (n + 2) 0 in
    let sorted : List Edge = sort_by_source edges in
    let l' = length-count_sources n zeros sorted in
    get_or-prefix_sums sorted (count_sources n zeros sorted) 0 0 i (omega (arith, l, l'))
      (omega (arith, none_at_first sorted, none_below_first sorted))
      (λ j p.
        get_or-count_sources n zeros sorted j (omega (arith, p, l')) l
        ∙ ap (λ (k : ℕ). k + counted_at j sorted) (get_or-replicate {A = ℕ} (n + 2) j 0)
        ∙ ap₂ (λ (a b : ℕ). a + counted_at b sorted) refl (let e : j ≡ 0 + j = omega arith in e)
        ∙ omega arith)
    ∙ ap (λ (k : ℕ). below k sorted) (let e : 0 + i ≡ i = omega arith in e)
    ∙ below-sort_by_source i edges
