-- ===== src/HashIndex/Deletes.antt =====
-- crates/lightning-core/src/storage/index/hash_index.rs: a deletion in the pages of a bucket.
use lightning_db.Prelude.{
  ℕ, zero, suc, ◌+◌, ◌<◌, ◌≤◌, ◌≡◌, refl, ap, sym, subst, ◌∙◌, true, false, List, [], ◌∷◌, ◌++◌,
  arith, ◌==◌, inl, inr, length, get_or, set, Result, ok, Option, none, some, length-set,
  get_or-set,
}
use lightning_db.HashIndex.Values.{Value, IndexError}
use lightning_db.HashIndex.Pairs.{
  rows_of, without, contains, without-append_here, without-append_later, contains-append,
  rows_of-append,
}
use lightning_db.HashIndex.Keys.{Holds}
use lightning_db.HashIndex.Searches.{Searched, find_entry-Holds}
use lightning_db.HashIndex.Chains.{
  Chain, last, more, last_at, more_at, Chain-inside, Chain-agree, Untouched, one_page_changed,
}
use lightning_db.HashIndex.{
  BucketPage, make_entry, make_page, page_at, empty_page, tombstone, delete_at, deleted_in,
  delete_loop, find_entry, compute_hash,
}

without_absent :
    (key : Value) (row : ℕ) (ps : List (Value × ℕ))
    → contains row (rows_of key ps) ≡ false
    → without key row ps ≡ ps
without_absent key row [] h = refl
without_absent key row (p ∷ ps) h = ground (arith, without_absent key row ps)

pub nothing_changed :
    (pages : List BucketPage) (owner : ℕ → ℕ) (root low : ℕ)
    → Untouched pages pages owner owner root low
nothing_changed pages owner root low = record {
  grows = omega arith;
  owners = λ i l. refl;
  others = λ i l foreign. refl;
  before = λ i l. refl;
}

module _ (hash : Value → ℕ) (key : Value) (row : ℕ) where
  step_of_delete :
      (fuel : ℕ) (pages : List BucketPage) (p : ℕ) (found : Result IndexError (Option ℕ))
      → find_entry (page_at pages p).entries (compute_hash hash key) key row ≡ found
      → delete_loop (suc fuel) pages p (compute_hash hash key) key row
        ≡ deleted_in pages p
            (compute_hash hash key)
            (delete_loop fuel pages (page_at pages p).next_page (compute_hash hash key) key row)
            found
  unfolding delete_loop
  step_of_delete fuel pages p found e =
      ap
        (deleted_in pages p (compute_hash hash key)
          (delete_loop fuel pages (page_at pages p).next_page (compute_hash hash key) key row))
        e

  -- What a deletion from page `p` on gives.
  abbrev pub Deleted : List BucketPage → (ℕ → ℕ) → ℕ → ℕ → ℕ → List (Value × ℕ) → Type 0
  Deleted pages owner root p fuel ps =
      (pages' : List BucketPage) × (delete_loop fuel pages p (compute_hash hash key) key row
          ≡ (pages', ok (contains row (rows_of key ps)))
        × Untouched pages pages' owner owner root p
        × Chain hash pages' owner root p (without key row ps))

  -- The page with its entry at `place` marked.
  abbrev marked : BucketPage → ℕ → BucketPage
  marked page place = make_page page.next_page (
      set page.entries place
        (tombstone (get_or page.entries place (make_entry 0 [] 0)) (compute_hash hash key)))

  marked_there :
      (pages : List BucketPage) (p place : ℕ)
      → p < length pages
      → page_at (delete_at pages p place (compute_hash hash key)) p ≡ marked (page_at pages p) place
  marked_there pages p place h =
      let here : (p == p) ≡ true = ground arith in
      get_or-set pages p p (marked (page_at pages p) place) empty_page h ∙ rw here refl

  length-marked :
      (page : BucketPage) (place : ℕ) → length (marked page place).entries ≡ length page.entries
  length-marked page place =
      length-set page.entries place
        (tombstone (get_or page.entries place (make_entry 0 [] 0)) (compute_hash hash key))

  delete_last :
      (fuel : ℕ) (pages : List BucketPage) (owner : ℕ → ℕ) (p : ℕ) (ps : List (Value × ℕ))
      → p < length pages
      → length (page_at pages p).entries ≤ 15
      → (page_at pages p).next_page ≡ 0
      → Holds hash (page_at pages p).entries ps
      → Searched hash (page_at pages p).entries ps key row
      → Deleted pages owner (owner p) p (suc fuel) ps
  delete_last fuel pages owner p ps h room end holds (inl (f, absent)) =
      let stop : ((page_at pages p).next_page == 0) ≡ true = ground (arith, end) in
      (
        pages,
        (
          step_of_delete fuel pages p (ok none) f ∙ rw (stop, absent) refl,
          nothing_changed pages owner (owner p) p,
          subst (Chain hash pages owner (owner p) p) (sym (without_absent key row ps absent))
              (last h refl room end holds),
        ),
      )
  delete_last fuel pages owner p ps h room end holds (inr (place, (f, there, holds'))) = (
    delete_at pages p place (compute_hash hash key),
    (
      step_of_delete fuel pages p (ok (some place)) f ∙ rw there refl,
      one_page_changed pages owner p (marked (page_at pages p) place) h,
      last_at hash (marked (page_at pages p) place) (marked_there pages p place h)
          (omega (arith, length-set pages p (marked (page_at pages p) place))) refl
          (omega (arith, length-marked (page_at pages p) place)) end holds',
    ),
  )

  delete_more :
      (fuel : ℕ) (pages : List BucketPage) (owner : ℕ → ℕ) (p q : ℕ) (ps qs : List (Value × ℕ))
      → p < length pages
      → length (page_at pages p).entries ≡ 15
      → (page_at pages p).next_page ≡ q
      → p < q
      → Holds hash (page_at pages p).entries ps
      → Chain hash pages owner (owner p) q qs
      → Deleted pages owner (owner p) q fuel qs
      → Searched hash (page_at pages p).entries ps key row
      → Deleted pages owner (owner p) p (suc fuel) (ps ++ qs)
  delete_more fuel pages owner p q ps qs h full link up holds rest (pages', (e, frame, chain))
        (inl (f, absent)) =
      let go : ((page_at pages p).next_page == 0) ≡ false = ground (arith, link) in
      let rows : contains row (rows_of key (ps ++ qs)) ≡ contains row (rows_of key qs) =
        ap (contains row) (rows_of-append key ps qs)
        ∙ contains-append row (rows_of key ps) (rows_of key qs)
        ∙ rw absent refl in
      (
        pages',
        (
          step_of_delete fuel pages p (ok none) f ∙ rw (go, link, rows) e,
          record {
            grows = frame.grows;
            owners = frame.owners;
            others = frame.others;
            before = λ i l. frame.before i (omega arith);
          },
          subst (Chain hash pages' owner (owner p) p)
              (sym (without-append_later key row ps qs absent))
              (more_at hash (page_at pages p) q (frame.before p up) (omega (arith, frame.grows))
                refl full link up holds chain),
        ),
      )
  delete_more fuel pages owner p q ps qs h full link up holds rest behind
        (inr (place, (f, there, holds'))) =
      let page : BucketPage = marked (page_at pages p) place in
      let rows : contains row (rows_of key (ps ++ qs)) ≡ true =
        ap (contains row) (rows_of-append key ps qs)
        ∙ contains-append row (rows_of key ps) (rows_of key qs)
        ∙ rw there refl in
      let same : length (set pages p page) ≡ length pages = length-set pages p page in
      (
        delete_at pages p place (compute_hash hash key),
        (
          step_of_delete fuel pages p (ok (some place)) f ∙ rw rows refl,
          one_page_changed pages owner p page h,
          subst (Chain hash (set pages p page) owner (owner p) p)
              (sym (without-append_here key row ps qs there))
              (more_at hash page q (marked_there pages p place h) (omega (arith, same)) refl
                (length-marked (page_at pages p) place ∙ full) link up holds'
                (Chain-agree hash pages (set pages p page) owner owner (owner p) q qs
                  (omega (arith, same))
                  (λ i l inside o. (
                    let differ : (p == i) ≡ false = ground arith in
                        get_or-set pages p i page empty_page h ∙ rw differ refl,
                    refl,
                  ))
                  rest)),
        ),
      )

  pub delete_loop-Chain :
      (fuel : ℕ) (pages : List BucketPage) (owner : ℕ → ℕ) (root p : ℕ) (ps : List (Value × ℕ))
      → length pages ≤ fuel + p
      → Chain hash pages owner root p ps
      → Deleted pages owner root p fuel ps
  delete_loop-Chain zero pages owner root p ps enough chain =
      absurd (omega (arith, Chain-inside hash pages owner root p ps chain))
  delete_loop-Chain (suc fuel) pages owner root p ps enough (last h o room end holds) =
      subst (λ (r : ℕ). Deleted pages owner r p (suc fuel) ps) o
        (delete_last fuel pages owner p ps h room end holds
          (find_entry-Holds hash (page_at pages p).entries ps key row holds))
  delete_loop-Chain (suc fuel) pages owner root p _ enough
        (more {ps = ps} {qs = qs} q h o full link up holds rest) =
      let behind = delete_loop-Chain fuel pages owner root q qs (omega arith) rest in
      subst (λ (r : ℕ). Deleted pages owner r p (suc fuel) (ps ++ qs)) o
        (delete_more fuel pages owner p q ps qs h full link up holds
          (subst (λ (r : ℕ). Chain hash pages owner r q qs) (sym o) rest)
          (subst (λ (r : ℕ). Deleted pages owner r q fuel qs) (sym o) behind)
          (find_entry-Holds hash (page_at pages p).entries ps key row holds))
