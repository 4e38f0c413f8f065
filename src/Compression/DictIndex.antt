-- ===== src/Compression/DictIndex.antt =====
-- crates/lightning-core/src/storage/compression/dict.rs: the dictionary and the indices of a block.
use lightning_db.Prelude.{
  ℕ, zero, suc, ◌+◌, ◌-◌, ◌*◌, ◌≤◌, ◌<◌, ◌≡◌, refl, ap, ◌∙◌, true, false, List, [], ◌∷◌, ◌++◌,
  arith, leb, ltb, Bool-cases, inl, inr, length, get_or, Option, none, some, ok, All, length-append,
}
use lightning_db.Prelude.Bytes.{
  slice, copy_to, bytes_eq, bytes_eq_iff, length-slice, slice_of, length-copy_to, get_or-copy_to,
  get_or-append,
}
use lightning_db.Compression.Codecs.Dict.{index_of, intern, index_loop, write_dict}

-- Entries of 8 bytes.
abbrev pub OfWords : List (List ℕ) → Type 0
OfWords dict = All (λ (entry : List ℕ). length entry ≡ 8) dict

OfWords-append :
    (dict : List (List ℕ)) (val : List ℕ)
    → OfWords dict
    → length val ≡ 8
    → OfWords (dict ++ (val ∷ []))
OfWords-append [] val words l = (l, tt)
OfWords-append (entry ∷ dict) val words l = (words.0, OfWords-append dict val words.1 l)

index_of-finds :
    (val : List ℕ) (dict : List (List ℕ)) (i k : ℕ)
    → index_of val dict i ≡ some k
    → i ≤ k × k < i + length dict × get_or dict (k - i) [] ≡ val
unfolding index_of
index_of-finds val [] i k e = absurd (cc)
index_of-finds val (entry ∷ dict) i k e = elim (Bool-cases (bytes_eq entry val)) [
  | inl same ↦
      let e' : i ≡ k = ground (arith, e, same) in
      let place : k - i ≡ 0 = omega (arith, e') in
      (
        omega (arith, e'),
        omega (arith, e'),
        ap (λ (j : ℕ). get_or (entry ∷ dict) j []) place ∙ (bytes_eq_iff entry val).0 same,
      )
  | inr differ ↦
      let later = index_of-finds val dict (i + 1) k (ground (arith, e, differ)) in
      let place : k - i ≡ suc (k - (i + 1)) = omega (arith, later.0) in
      (
        omega (arith, later.0),
        omega (arith, later.1),
        ap (λ (j : ℕ). get_or (entry ∷ dict) j []) place ∙ later.2,
      )
]

-- One step: the value stands at its index, and what was there stays.
abbrev pub Interned : List ℕ → List (List ℕ) → List (List ℕ) × ℕ → Type 0
Interned val dict step =
    OfWords step.0
    × step.1 < length step.0
    × get_or step.0 step.1 [] ≡ val
    × length dict ≤ length step.0
    × length step.0 ≤ suc (length dict)
    × ((k : ℕ) → k < length dict → get_or step.0 k [] ≡ get_or dict k [])

intern-Interned :
    (val : List ℕ) (dict : List (List ℕ)) (found : Option ℕ)
    → length val ≡ 8
    → OfWords dict
    → ((k : ℕ) → found ≡ some k → k < length dict × get_or dict k [] ≡ val)
    → Interned val dict (intern val dict found)
unfolding intern
intern-Interned val dict none l words there =
    let grown = length-append dict (val ∷ []) in
    let here : ltb (length dict) (length dict) ≡ false = ground arith in
    let place : length dict - length dict ≡ 0 = omega arith in
    (
      OfWords-append dict val words l,
      omega (arith, grown),
      get_or-append dict (val ∷ []) (length dict) [] ∙ rw (here, place) refl,
      omega (arith, grown),
      omega (arith, grown),
      λ k h.
          let before : ltb k (length dict) ≡ true = ground arith in
          get_or-append dict (val ∷ []) k [] ∙ rw before refl,
    )
intern-Interned val dict (some i) l words there =
    let at = there i refl in (words, at.0, at.1, omega arith, omega arith, λ k h. refl)

module _ (src : List ℕ) (n : ℕ) (all_there : n * 8 ≤ length src) where
  -- The dictionary after the values from `i` on, `m` of them, and their indices.
  pub record Dictionary (i m : ℕ) (dict dict' : List (List ℕ)) (indices : List ℕ) : Type 0 where
    pub words : OfWords dict'
    pub count : length indices ≡ m
    pub grows : length dict ≤ length dict'
    pub bounded : length dict' ≤ length dict + m
    pub keeps : (k : ℕ) → k < length dict → get_or dict' k [] ≡ get_or dict k []
    pub inside : (s : ℕ) → s < m → get_or indices s 0 < length dict'
    pub values : (s : ℕ) → s < m → get_or dict' (get_or indices s 0) [] ≡ slice src ((i + s) * 8) 8

  abbrev pub Indexes : ℕ → ℕ → List (List ℕ) → Type 0
  Indexes i m dict =
      (dict' : List (List ℕ)) × ((indices : List ℕ) × (index_loop m i src dict ≡ ok (dict', indices)
          × Dictionary i m dict dict' indices))

  indexed_step :
      (i m : ℕ) (dict : List (List ℕ)) (step : List (List ℕ) × ℕ) (dict' : List (List ℕ))
      (indices : List ℕ)
      → Interned (slice src (i * 8) 8) dict step
      → Dictionary (i + 1) m step.0 dict' indices
      → Dictionary i (suc m) dict dict' (step.1 ∷ indices)
  indexed_step i m dict step dict' indices interned rest = record {
    words = rest.words;
    count = ap suc rest.count;
    grows = omega (arith, rest.grows, interned.3);
    bounded = omega (arith, rest.bounded, interned.4);
    keeps = λ k h. rest.keeps k (omega (arith, interned.3)) ∙ interned.5 k h;
    inside = inside_step;
    values = values_step;
  }
    where
      inside_step : (s : ℕ) → s < suc m → get_or (step.1 ∷ indices) s 0 < length dict'
      inside_step zero h = omega (arith, rest.grows, interned.1)
      inside_step (suc s) h = rest.inside s (omega arith)

      values_step :
          (s : ℕ)
          → s < suc m
          → get_or dict' (get_or (step.1 ∷ indices) s 0) [] ≡ slice src ((i + s) * 8) 8
      values_step zero h =
          rest.keeps step.1 interned.1
          ∙ interned.2
          ∙ ap (λ (a : ℕ). slice src (a * 8) 8) (let e : i ≡ i + 0 = omega arith in e)
      values_step (suc s) h =
          rest.values s (omega arith)
          ∙ ap (λ (a : ℕ). slice src (a * 8) 8) (let e : i + 1 + s ≡ i + suc s = omega arith in e)

  pub index_loop-Indexes :
      (m i : ℕ) (dict : List (List ℕ)) → i + m ≤ n → OfWords dict → Indexes i m dict
  unfolding index_loop
  index_loop-Indexes zero i dict h words = (
    dict,
    (
      [],
      (
        refl,
        record {
          words = words;
          count = refl;
          grows = omega arith;
          bounded = omega arith;
          keeps = λ k h. refl;
          inside = λ s h. absurd (omega arith);
          values = λ s h. absurd (omega arith);
        },
      ),
    ),
  )
  index_loop-Indexes (suc m) i dict h words =
      let val : List ℕ = slice src (i * 8) 8 in
      let here : leb (i * 8 + 8) (length src) ≡ true = ground arith in
      let l = length-slice src (i * 8) 8 (omega arith) in
      let interned = intern-Interned val dict (index_of val dict 0) l words λ k e.
        (let found = index_of-finds val dict 0 k e in
          let place : k ≡ k - 0 = omega arith in
          (omega (arith, found.1), ap (λ (j : ℕ). get_or dict j []) place ∙ found.2)) in
      let step = intern val dict (index_of val dict 0) in
      let (dict', (indices, (e, rest))) =
        index_loop-Indexes m (i + 1) step.0 (omega arith) interned.0 in
      (
        dict',
        (
          step.1 ∷ indices,
          (rw (here, e) refl, indexed_step i m dict step dict' indices interned rest),
        ),
      )

-- The bytes of the dictionary.
pub length-write_dict :
    (dict : List (List ℕ)) (o : ℕ) (dst : List ℕ)
    → OfWords dict
    → o + length dict * 8 ≤ length dst
    → length (write_dict dict o dst) ≡ length dst
unfolding write_dict
length-write_dict [] o dst words h = refl
length-write_dict (val ∷ dict) o dst words h =
    let l = length-copy_to dst o val (omega (arith, words.0)) in
    length-write_dict dict (o + 8) (copy_to dst o val) words.1 (omega (arith, l)) ∙ l

pub write_dict_before :
    (dict : List (List ℕ)) (o : ℕ) (dst : List ℕ) (i : ℕ)
    → OfWords dict
    → o + length dict * 8 ≤ length dst
    → i < o
    → get_or (write_dict dict o dst) i 0 ≡ get_or dst i 0
unfolding write_dict
write_dict_before [] o dst i words h before = refl
write_dict_before (val ∷ dict) o dst i words h before =
    let l = length-copy_to dst o val (omega (arith, words.0)) in
    write_dict_before dict (o + 8) (copy_to dst o val) i words.1 (omega (arith, l)) (omega arith)
    ∙ ground (arith, get_or-copy_to dst o val i 0 (omega (arith, words.0)))

pub write_dict_behind :
    (dict : List (List ℕ)) (o : ℕ) (dst : List ℕ) (i : ℕ)
    → OfWords dict
    → o + length dict * 8 ≤ length dst
    → o + length dict * 8 ≤ i
    → get_or (write_dict dict o dst) i 0 ≡ get_or dst i 0
unfolding write_dict
write_dict_behind [] o dst i words h behind = refl
write_dict_behind (val ∷ dict) o dst i words h behind =
    let l = length-copy_to dst o val (omega (arith, words.0)) in
    write_dict_behind dict (o + 8) (copy_to dst o val) i words.1 (omega (arith, l)) (omega arith)
    ∙ ground (arith, get_or-copy_to dst o val i 0 (omega (arith, words.0)), words.0)

pub slice-write_dict :
    (dict : List (List ℕ)) (o : ℕ) (dst : List ℕ) (k : ℕ)
    → OfWords dict
    → o + length dict * 8 ≤ length dst
    → k < length dict
    → slice (write_dict dict o dst) (o + k * 8) 8 ≡ get_or dict k []
unfolding write_dict
slice-write_dict [] o dst k words h inside = absurd (omega arith)
slice-write_dict (val ∷ dict) o dst zero words h inside =
    let l = length-copy_to dst o val (omega (arith, words.0)) in
    let whole = length-write_dict dict (o + 8) (copy_to dst o val) words.1 (omega (arith, l)) in
    slice_of (write_dict dict (o + 8) (copy_to dst o val)) val (o + 0 * 8) 8
      (omega (arith, whole, l)) words.0
      λ i p.
        (write_dict_before dict (o + 8) (copy_to dst o val) (o + 0 * 8 + i) words.1
            (omega (arith, l)) (omega arith)
          ∙ get_or-copy_to dst o val (o + 0 * 8 + i) 0 (omega (arith, words.0))
          ∙ (let place : o + 0 * 8 + i - o ≡ i = omega arith in
              ground (arith, words.0, ap (λ (j : ℕ). get_or val j 0) place)))
slice-write_dict (val ∷ dict) o dst (suc k) words h inside =
    let l = length-copy_to dst o val (omega (arith, words.0)) in
    ap (λ (a : ℕ). slice (write_dict dict (o + 8) (copy_to dst o val)) a 8)
      (let e : o + suc k * 8 ≡ o + 8 + k * 8 = omega arith in e)
    ∙ slice-write_dict dict (o + 8) (copy_to dst o val) k words.1 (omega (arith, l)) (omega arith)
