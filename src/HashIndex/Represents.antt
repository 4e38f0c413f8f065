-- ===== src/HashIndex/Represents.antt =====
-- crates/lightning-core/src/storage/index/hash_index.rs: an index as the rows of each key.
use lightning_db.Prelude.{
  ℕ, suc, ◌%◌, ◌<◌, ◌≡◌, ◌≢◌, max, refl, ap, sym, subst, ◌∙◌, true, false, List, [], ◌∷◌, ◌++◌,
  arith, ◌==◌, inl, inr, if◌then◌else◌, length, take, Result, ok, ◌>>=◌, Option, none, some,
  Bool-cases, length-replicate, get_or-replicate, ◌-◌, take_eq,
}
use lightning_db.HashIndex.Values.{Value, IndexError, value_eq, value_eq_iff}
use lightning_db.HashIndex.Pairs.{rows_of, remove_first, capped}
use lightning_db.HashIndex.Keys.{nothing}
use lightning_db.HashIndex.Chains.{Chain, last_at, Chain-elsewhere, Untouched, lookup_loop-Chain}
use lightning_db.HashIndex.{
  HashIndex, BucketPage, make_index, empty_page, read_header, lookup, lookup_multi, lookup_loop,
  first, compute_hash, initialize_header, open_or_create_with_buckets,
}

-- The rows of each key with one more.
abbrev pub added : Value → ℕ → (Value → List ℕ) → Value → List ℕ
added key row rows k = if value_eq key k then rows k ++ (row ∷ []) else rows k

-- The rows of each key without the first such one.
abbrev pub removed : Value → ℕ → (Value → List ℕ) → Value → List ℕ
removed key row rows k = if value_eq key k then remove_first row (rows k) else rows k

abbrev pub up_to : Option ℕ → List ℕ → List ℕ
up_to none rows = rows
up_to (some l) rows = take l rows

no_results : (limit : Option ℕ) (rows : List ℕ) → capped limit [] rows ≡ up_to limit rows
no_results none rows = refl
no_results (some l) rows = take_eq (l - 0) l [] rows (omega arith)

module _ (hash : Value → ℕ) where
  abbrev pub bucket_of : HashIndex → Value → ℕ
  bucket_of index key = compute_hash hash key % index.num_buckets

  -- The index holds for each key its rows, in their order.
  pub record Represents (index : HashIndex) (rows : Value → List ℕ) : Type 0 where
    pub owner : ℕ → ℕ
    pub header : read_header index ≡ index.num_buckets
    pub some_bucket : 0 < index.num_buckets
    pub bucket :
        (b : ℕ)
        → b < index.num_buckets
        → (ps : List (Value × ℕ)) × (Chain hash index.pages owner (suc b) (suc b) ps
            × ((key : Value) → bucket_of index key ≡ b → rows_of key ps ≡ rows key)
            × ((key : Value) → bucket_of index key ≢ b → rows_of key ps ≡ []))

  pub bucket_below :
      (index : HashIndex) (key : Value)
      → 0 < index.num_buckets
      → bucket_of index key < index.num_buckets
  bucket_below index key h = ground arith

  -- A change of the bucket `b`.
  pub changed :
      (index : HashIndex) (rows rows' : Value → List ℕ) (b : ℕ) (pages' : List BucketPage)
      (owner' : ℕ → ℕ) (ps' : List (Value × ℕ)) (rep : Represents index rows)
      → Untouched index.pages pages' rep.owner owner' (suc b) (suc b)
      → Chain hash pages' owner' (suc b) (suc b) ps'
      → ((key : Value) → bucket_of index key ≡ b → rows_of key ps' ≡ rows' key)
      → ((key : Value) → bucket_of index key ≢ b → rows' key ≡ rows key)
      → ((key : Value) → bucket_of index key ≢ b → rows_of key ps' ≡ [])
      → Represents (make_index index.num_buckets pages') rows'
  changed index rows rows' b pages' owner' ps' rep frame chain here elsewhere strays = record {
    owner = owner';
    header = ap (λ (page : BucketPage). page.next_page) (frame.before 0 (omega arith)) ∙ rep.header;
    some_bucket = rep.some_bucket;
    bucket = λ c l. elim (Bool-cases (c == b)) [
      | inl same ↦
          let e : c ≡ b = ground arith in
          (
            ps',
            (
              subst (λ (n : ℕ). Chain hash pages' owner' (suc n) (suc n) ps') (sym e) chain,
              λ key f. here key (f ∙ e),
              λ key f. strays key (λ g. f (g ∙ sym e)),
            ),
          )
      | inr differ ↦
          let old = rep.bucket c l in
          (
            old.0,
            (
              Chain-elsewhere hash index.pages pages' rep.owner owner' (suc b) (suc b) (suc c)
                  (suc c) old.0 frame (λ e. ground (arith, e, differ)) old.1.0,
              λ key f. old.1.1 key f ∙ sym (elsewhere key (λ e. ground (arith, e, f, differ))),
              old.1.2,
            ),
          )
    ];
  }

  pub unequal_back : (key k : Value) → value_eq key k ≡ false → value_eq k key ≡ false
  unequal_back key k h = elim (Bool-cases (value_eq k key)) [
    | inl equal ↦
        absurd (ground (arith, h, (value_eq_iff key k).1 (sym ((value_eq_iff k key).0 equal))))
    | inr unequal ↦ unequal
  ]

  same_bucket :
      (index : HashIndex) (key k : Value)
      → value_eq key k ≡ true
      → bucket_of index k ≡ bucket_of index key
  same_bucket index key k e = ap (bucket_of index) (sym ((value_eq_iff key k).0 e))

  pub elsewhere_unequal :
      (index : HashIndex) (key k : Value)
      → bucket_of index k ≢ bucket_of index key
      → value_eq key k ≡ false
  elsewhere_unequal index key k h = elim (Bool-cases (value_eq key k)) [
    | inl equal ↦ absurd (h (same_bucket index key k equal))
    | inr unequal ↦ unequal
  ]

  lookup_multi_at :
      (index : HashIndex) (nb : ℕ) (key : Value) (limit : Option ℕ)
      → read_header index ≡ nb
      → 0 < nb
      → lookup_multi hash index key limit
        ≡ lookup_loop
            (length index.pages)
            index.pages
            (suc (compute_hash hash key % nb))
            (compute_hash hash key)
            key
            limit
            []
  unfolding lookup_multi
  lookup_multi_at index nb key limit e some_bucket =
      let go : (read_header index == 0) ≡ false = ground (arith, e) in
      rw go (
        ap
          (λ (n : ℕ).
            lookup_loop (length index.pages) index.pages (suc (compute_hash hash key % n))
              (compute_hash hash key) key limit [])
          e)

  pub lookup_multi-Represents :
      (index : HashIndex) (rows : Value → List ℕ) (key : Value) (limit : Option ℕ)
      → Represents index rows
      → lookup_multi hash index key limit ≡ ok (up_to limit (rows key))
  lookup_multi-Represents index rows key limit rep =
      let b : ℕ = bucket_of index key in
      let (ps, (chain, meaning, strays)) = rep.bucket b (bucket_below index key rep.some_bucket) in
      lookup_multi_at index index.num_buckets key limit rep.header rep.some_bucket
      ∙ lookup_loop-Chain hash (length index.pages) index.pages rep.owner (suc b) (suc b) ps key
          limit [] (omega arith) chain
      ∙ ap (λ (xs : List ℕ). ok (capped limit [] xs)) (meaning key refl)
      ∙ ap ok (no_results limit (rows key))

  first_of_one : (rows : List ℕ) → first (take 1 rows) ≡ first rows
  first_of_one [] = refl
  first_of_one (row ∷ rows) = refl

  pub lookup-Represents :
      (index : HashIndex) (rows : Value → List ℕ) (key : Value)
      → Represents index rows
      → lookup hash index key ≡ ok (first (rows key))
  unfolding lookup
  lookup-Represents index rows key rep =
      ap (λ (found : Result IndexError (List ℕ)). found >>= λ results. ok (first results))
        (lookup_multi-Represents index rows key (some 1) rep)
      ∙ ap ok (first_of_one (rows key))

  pub open_or_create_with_buckets-Represents :
      (initial_buckets : ℕ) → Represents (open_or_create_with_buckets initial_buckets) (λ key. [])
  unfolding open_or_create_with_buckets initialize_header
  open_or_create_with_buckets-Represents initial_buckets =
      let nb : ℕ = max initial_buckets 1 in
      record {
        owner = λ i. i;
        header = refl;
        some_bucket = omega arith;
        bucket = λ b l. (
          [],
          (
            last_at hash empty_page (get_or-replicate nb b empty_page)
                (omega (arith, length-replicate nb empty_page)) refl (omega arith) refl nothing,
            λ key e. refl,
            λ key e. refl,
          ),
        );
      }
