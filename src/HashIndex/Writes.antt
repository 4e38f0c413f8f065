-- ===== src/HashIndex/Writes.antt =====
-- crates/lightning-core/src/storage/index/hash_index.rs: the steps of an insertion, and their pages.
use lightning_db.Prelude.{
  Result, ℕ, suc, ◌+◌, ◌*◌, ◌<◌, ◌≡◌, ◌≢◌, refl, ap, sym, ◌∙◌, true, false, List, [], ◌∷◌, ◌++◌,
  arith, ltb, ◌==◌, if◌then◌else◌, length, set, ok, length-set, length-append, get_or-set,
}
use lightning_db.HashIndex.Chains.{Untouched, page_at-extended}
use lightning_db.HashIndex.Values.{IndexError}
use lightning_db.HashIndex.{
  BucketPage, make_entry, make_page, page_at, empty_page, insert_loop, following, linked,
  write_entry_to_page,
}

-- The page with one more entry.
abbrev pub grown : BucketPage → ℕ → List ℕ → ℕ → BucketPage
grown page hash key_bytes row =
    make_page page.next_page (page.entries ++ (make_entry hash key_bytes row ∷ []))

pub write_entry_to_page_room :
    (page : BucketPage) (hash : ℕ) (key_bytes : List ℕ) (row : ℕ)
    → length page.entries < 15
    → length key_bytes ≡ 256
    → write_entry_to_page page hash key_bytes row ≡ ok (grown page hash key_bytes row)
unfolding write_entry_to_page
write_entry_to_page_room page hash key_bytes row room l =
    let inside : ltb 4096 (16 + length page.entries * 272 + 272) ≡ false = ground arith in
    let exact : (length key_bytes == 256) ≡ true = ground (arith, l) in rw (inside, exact) refl

module _ (h : ℕ) (key_bytes : List ℕ) (row : ℕ) (exact : length key_bytes ≡ 256) where
  pub insert_loop_room :
      (fuel : ℕ) (pages : List BucketPage) (p : ℕ)
      → length (page_at pages p).entries < 15
      → insert_loop (suc fuel) pages p h (ok key_bytes) row
        ≡ (set pages p (grown (page_at pages p) h key_bytes row), ok tt)
  unfolding insert_loop
  insert_loop_room fuel pages p room =
      let free : ltb (length (page_at pages p).entries) 15 ≡ true = ground arith in
      rw (free, write_entry_to_page_room (page_at pages p) h key_bytes row room exact) refl

pub insert_loop_full :
    (h : ℕ) (key : Result IndexError (List ℕ)) (row fuel : ℕ) (pages : List BucketPage) (p : ℕ)
    → length (page_at pages p).entries ≡ 15
    → insert_loop (suc fuel) pages p h key row
      ≡ insert_loop fuel (following pages p).0 (following pages p).1 h key row
unfolding insert_loop
insert_loop_full h key row fuel pages p full =
    let taken : ltb (length (page_at pages p).entries) 15 ≡ false = ground (arith, full) in
    rw taken refl

pub following_link :
    (pages : List BucketPage) (p q : ℕ)
    → (page_at pages p).next_page ≡ q
    → 0 < q
    → following pages p ≡ (pages, q)
unfolding following
following_link pages p q e h =
    let go : ((page_at pages p).next_page == 0) ≡ false = ground (arith, e) in rw (go, e) refl

pub following_end :
    (pages : List BucketPage) (p : ℕ)
    → (page_at pages p).next_page ≡ 0
    → following pages p ≡ (linked pages p, length pages)
unfolding following
following_end pages p e =
    let stop : ((page_at pages p).next_page == 0) ≡ true = ground (arith, e) in rw stop refl

pub length-linked : (pages : List BucketPage) (p : ℕ) → length (linked pages p) ≡ suc (length pages)
length-linked pages p =
    length-set (pages ++ (empty_page ∷ [])) p (make_page (length pages) (page_at pages p).entries)
    ∙ omega (arith, length-append pages (empty_page ∷ []))

pub page_at-linked :
    (pages : List BucketPage) (p i : ℕ)
    → p < length pages
    → page_at (linked pages p) i
      ≡ (if p == i then make_page (length pages) (page_at pages p).entries else page_at pages i)
page_at-linked pages p i h =
    get_or-set (pages ++ (empty_page ∷ [])) p i (make_page (length pages) (page_at pages p).entries)
      empty_page (omega (arith, length-append pages (empty_page ∷ [])))
    ∙ ap
        (λ (page : BucketPage).
          if p == i then make_page (length pages) (page_at pages p).entries else page)
        (page_at-extended pages i)

abbrev pub taken_by : (ℕ → ℕ) → ℕ → ℕ → ℕ → ℕ
taken_by owner new root i = if i == new then root else owner i

module _ (pages : List BucketPage) (owner : ℕ → ℕ) (p : ℕ) (h : ℕ) (key_bytes : List ℕ)
    (row : ℕ) where
  -- The file after an insertion that linked a new page behind `p`.
  abbrev pub spilled : List BucketPage
  spilled = set (linked pages p) (length pages) (grown empty_page h key_bytes row)

  page_at-spilled :
      (i : ℕ)
      → p < length pages
      → page_at spilled i ≡ (
          if length pages == i
          then grown empty_page h key_bytes row
          else page_at (linked pages p) i)
  page_at-spilled i inside =
      get_or-set (linked pages p) (length pages) i (grown empty_page h key_bytes row) empty_page
        (omega (arith, length-linked pages p))

  pub length-spilled : length spilled ≡ suc (length pages)
  length-spilled =
      length-set (linked pages p) (length pages) (grown empty_page h key_bytes row)
      ∙ length-linked pages p

  spilled_elsewhere :
      (i : ℕ) → p < length pages → i < length pages → p ≢ i → page_at spilled i ≡ page_at pages i
  spilled_elsewhere i inside l differ =
      let old : (length pages == i) ≡ false = ground arith in
      let away : (p == i) ≡ false = ground (arith, differ) in
      page_at-spilled i inside ∙ rw old (page_at-linked pages p i inside ∙ rw away refl)

  pub spilled_here :
      p < length pages → page_at spilled p ≡ make_page (length pages) (page_at pages p).entries
  spilled_here inside =
      let old : (length pages == p) ≡ false = ground arith in
      let here : (p == p) ≡ true = ground arith in
      page_at-spilled p inside ∙ rw old (page_at-linked pages p p inside ∙ rw here refl)

  pub spilled_new :
      p < length pages → page_at spilled (length pages) ≡ grown empty_page h key_bytes row
  spilled_new inside =
      let here : (length pages == length pages) ≡ true = ground arith in
      page_at-spilled (length pages) inside ∙ rw here refl

  pub spilled-Untouched :
      p < length pages
      → Untouched pages spilled owner (taken_by owner (length pages) (owner p)) (owner p) p
  spilled-Untouched inside = record {
    grows = omega (arith, length-spilled);
    owners = λ i l. ground arith;
    others = λ i l foreign. spilled_elsewhere i inside l (λ e. foreign (ap owner (sym e)));
    before = λ i l. spilled_elsewhere i inside (omega arith) (λ e. omega (arith, e));
  }
