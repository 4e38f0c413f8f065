-- ===== src/HashIndex/Chains.antt =====
-- crates/lightning-core/src/storage/index/hash_index.rs: the pages of a bucket.
-- `owner` gives for a page the first page of its bucket; the links of a bucket lead upwards.
use mathlib.Core.List.{append_assoc}
use lightning_db.Prelude.{
  ℕ, zero, suc, ◌+◌, ◌<◌, ◌≤◌, ◌≡◌, ◌≢◌, refl, ap, sym, subst, ◌∙◌, true, false, List, [], ◌∷◌,
  ◌++◌, arith, ◌==◌, inl, inr, if◌then◌else◌, length, set, ok, Option, Bool-cases, length-set,
  get_or-set,
}
use lightning_db.HashIndex.Values.{Value}
use lightning_db.HashIndex.Pairs.{rows_of, rows_of-append, capped, capped-append}
use lightning_db.HashIndex.Keys.{Holds, scan_bucket_page-Holds}
use lightning_db.HashIndex.{BucketPage, page_at, empty_page, lookup_loop, compute_hash}

pub page_at-extended :
    (pages : List BucketPage) (i : ℕ) → page_at (pages ++ (empty_page ∷ [])) i ≡ page_at pages i
page_at-extended [] zero = refl
page_at-extended [] (suc i) = refl
page_at-extended (page ∷ pages) zero = refl
page_at-extended (page ∷ pages) (suc i) = page_at-extended pages i

-- What a change of one bucket leaves, of its own pages those before `low`.
pub record Untouched (pages pages' : List BucketPage) (owner owner' : ℕ → ℕ) (root low : ℕ)
    : Type 0 where
  pub grows : length pages ≤ length pages'
  pub owners : (i : ℕ) → i < length pages → owner' i ≡ owner i
  pub others : (i : ℕ) → i < length pages → owner i ≢ root → page_at pages' i ≡ page_at pages i
  pub before : (i : ℕ) → i < low → page_at pages' i ≡ page_at pages i

pub one_page_changed :
    (pages : List BucketPage) (owner : ℕ → ℕ) (p : ℕ) (page : BucketPage)
    → p < length pages
    → Untouched pages (set pages p page) owner owner (owner p) p
one_page_changed pages owner p page h = record {
  grows = omega (arith, length-set pages p page);
  owners = λ i l. refl;
  others = λ i l foreign. elim (Bool-cases (p == i)) [
    | inl same ↦ let e : p ≡ i = ground arith in absurd (foreign (ap owner (sym e)))
    | inr differ ↦ get_or-set pages p i page empty_page h ∙ rw differ refl
  ];
  before = λ i l.
      let differ : (p == i) ≡ false = ground arith in
      get_or-set pages p i page empty_page h ∙ rw differ refl;
}

module _ (hash : Value → ℕ) where
  pub data Chain (pages : List BucketPage) (owner : ℕ → ℕ) (root : ℕ)
      : ℕ → List (Value × ℕ) → Type 0 where
    last :
        {p : ℕ} {ps : List (Value × ℕ)}
        → p < length pages
        → owner p ≡ root
        → length (page_at pages p).entries ≤ 15
        → (page_at pages p).next_page ≡ 0
        → Holds hash (page_at pages p).entries ps
        → Chain pages owner root p ps
    more :
        {p : ℕ} {ps qs : List (Value × ℕ)} (q : ℕ)
        → p < length pages
        → owner p ≡ root
        → length (page_at pages p).entries ≡ 15
        → (page_at pages p).next_page ≡ q
        → p < q
        → Holds hash (page_at pages p).entries ps
        → Chain pages owner root q qs
        → Chain pages owner root p (ps ++ qs)

  pub last_at :
      {pages : List BucketPage} {owner : ℕ → ℕ} {root p : ℕ} (page : BucketPage)
      {ps : List (Value × ℕ)}
      → page_at pages p ≡ page
      → p < length pages
      → owner p ≡ root
      → length page.entries ≤ 15
      → page.next_page ≡ 0
      → Holds hash page.entries ps
      → Chain pages owner root p ps
  last_at page {ps = ps} e h o room end holds =
      last h o (subst (λ (page : BucketPage). length page.entries ≤ 15) (sym e) room)
        (ap (λ (page : BucketPage). page.next_page) e ∙ end)
        (subst (λ (page : BucketPage). Holds hash page.entries ps) (sym e) holds)

  pub more_at :
      {pages : List BucketPage} {owner : ℕ → ℕ} {root p : ℕ} (page : BucketPage)
      {ps qs : List (Value × ℕ)} (q : ℕ)
      → page_at pages p ≡ page
      → p < length pages
      → owner p ≡ root
      → length page.entries ≡ 15
      → page.next_page ≡ q
      → p < q
      → Holds hash page.entries ps
      → Chain pages owner root q qs
      → Chain pages owner root p (ps ++ qs)
  more_at page {ps = ps} q e h o full link up holds rest =
      more q h o (ap (λ (page : BucketPage). length page.entries) e ∙ full)
        (ap (λ (page : BucketPage). page.next_page) e ∙ link) up
        (subst (λ (page : BucketPage). Holds hash page.entries ps) (sym e) holds) rest

  pub Chain-inside :
      (pages : List BucketPage) (owner : ℕ → ℕ) (root p : ℕ) (ps : List (Value × ℕ))
      → Chain pages owner root p ps
      → p < length pages
  Chain-inside pages owner root p ps (last h _ _ _ _) = h
  Chain-inside pages owner root p _ (more q h _ _ _ _ _ _) = h

  -- A bucket of which every page reads the same is the same.
  pub Chain-agree :
      (pages pages' : List BucketPage) (owner owner' : ℕ → ℕ) (root p : ℕ) (ps : List (Value × ℕ))
      → length pages ≤ length pages'
      → ((i : ℕ)
          → p ≤ i
          → i < length pages
          → owner i ≡ root
          → page_at pages' i ≡ page_at pages i × owner' i ≡ owner i)
      → Chain pages owner root p ps
      → Chain pages' owner' root p ps
  Chain-agree pages pages' owner owner' root p ps grows same (last h o room end holds) =
      let s = same p (omega arith) h o in
      last_at (page_at pages p) s.0 (omega arith) (s.1 ∙ o) room end holds
  Chain-agree pages pages' owner owner' root p _ grows same
        (more {qs = qs} q h o full link up holds rest) =
      let s = same p (omega arith) h o in
      more_at (page_at pages p) q s.0 (omega arith) (s.1 ∙ o) full link up holds
        (Chain-agree pages pages' owner owner' root q qs grows (λ i l. same i (omega arith)) rest)

  -- A change in another bucket leaves this one.
  pub Chain-elsewhere :
      (pages pages' : List BucketPage) (owner owner' : ℕ → ℕ) (root low another p : ℕ)
      (ps : List (Value × ℕ))
      → Untouched pages pages' owner owner' root low
      → another ≢ root
      → Chain pages owner another p ps
      → Chain pages' owner' another p ps
  Chain-elsewhere pages pages' owner owner' root low another p ps frame differ chain =
      Chain-agree pages pages' owner owner' another p ps frame.grows
        (λ i l h o. (frame.others i h (λ e. differ (sym o ∙ e)), frame.owners i h)) chain

  step_of_lookup :
      (fuel : ℕ) (pages : List BucketPage) (p : ℕ) (key : Value) (limit : Option ℕ)
      (results : List ℕ) (ps : List (Value × ℕ))
      → Holds hash (page_at pages p).entries ps
      → lookup_loop (suc fuel) pages p (compute_hash hash key) key limit results ≡ (
          if (page_at pages p).next_page == 0
          then ok (results ++ capped limit results (rows_of key ps))
          else lookup_loop fuel pages
              (page_at pages p).next_page
              (compute_hash hash key)
              key
              limit
              (results ++ capped limit results (rows_of key ps)))
  unfolding lookup_loop
  step_of_lookup fuel pages p key limit results ps holds =
      rw (scan_bucket_page-Holds hash limit (page_at pages p).entries ps key results holds) refl

  pub lookup_loop-Chain :
      (fuel : ℕ) (pages : List BucketPage) (owner : ℕ → ℕ) (root p : ℕ) (ps : List (Value × ℕ))
      (key : Value) (limit : Option ℕ) (results : List ℕ)
      → length pages ≤ fuel + p
      → Chain pages owner root p ps
      → lookup_loop fuel pages p (compute_hash hash key) key limit results
        ≡ ok (results ++ capped limit results (rows_of key ps))
  lookup_loop-Chain zero pages owner root p ps key limit results enough chain =
      absurd (omega (arith, Chain-inside pages owner root p ps chain))
  lookup_loop-Chain (suc fuel) pages owner root p ps key limit results enough
        (last h o room end holds) =
      let stop : ((page_at pages p).next_page == 0) ≡ true = ground (arith, end) in
      step_of_lookup fuel pages p key limit results ps holds ∙ rw stop refl
  lookup_loop-Chain (suc fuel) pages owner root p _ key limit results enough
        (more {ps = ps} {qs = qs} q h o full link up holds rest) =
      let go : ((page_at pages p).next_page == 0) ≡ false = ground (arith, link) in
      step_of_lookup fuel pages p key limit results ps holds
      ∙ rw (go, link)
          (lookup_loop-Chain fuel pages owner root q qs key limit
              (results ++ capped limit results (rows_of key ps)) (omega arith) rest
            ∙ ap ok (
                append_assoc results (capped limit results (rows_of key ps)) _
                ∙ ap (◌++◌ results) (
                    sym (capped-append limit results (rows_of key ps) (rows_of key qs))
                    ∙ ap (capped limit results) (sym (rows_of-append key ps qs)))))
