-- ===== src/HashIndex/Refusals.antt =====
-- crates/lightning-core/src/storage/index/hash_index.rs: an insertion of a key that cannot be stored.
use mathlib.Core.List.{append-nil}
use lightning_db.Prelude.{
  ℕ, zero, suc, ◌+◌, ◌<◌, ◌≤◌, ◌≡◌, refl, ap, sym, subst, ◌∙◌, true, false, List, arith, ltb, ◌==◌,
  inl, inr, length, err, Bool-cases, get_or-beyond,
}
use lightning_db.HashIndex.Values.{Value, IndexError}
use lightning_db.HashIndex.Keys.{Holds, nothing}
use lightning_db.HashIndex.Chains.{Chain, last, more, last_at, more_at, Chain-inside, Untouched}
use lightning_db.HashIndex.Writes.{
  insert_loop_full, following_link, following_end, taken_by, length-linked, page_at-linked,
}
use lightning_db.HashIndex.Deletes.{nothing_changed}
use lightning_db.HashIndex.{BucketPage, make_page, page_at, empty_page, insert_loop, linked}

linked-Untouched :
    (pages : List BucketPage) (owner : ℕ → ℕ) (p : ℕ)
    → p < length pages
    → Untouched pages (linked pages p) owner (taken_by owner (length pages) (owner p)) (owner p) p
linked-Untouched pages owner p inside = record {
  grows = omega (arith, length-linked pages p);
  owners = λ i l. ground arith;
  others = λ i l foreign. elim (Bool-cases (p == i)) [
    | inl same ↦ let e : p ≡ i = ground arith in absurd (foreign (ap owner (sym e)))
    | inr differ ↦ page_at-linked pages p i inside ∙ rw differ refl
  ];
  before = λ i l.
      let differ : (p == i) ≡ false = ground arith in
      page_at-linked pages p i inside ∙ rw differ refl;
}

refused_room :
    (h : ℕ) (e : IndexError) (row fuel : ℕ) (pages : List BucketPage) (p : ℕ)
    → length (page_at pages p).entries < 15
    → insert_loop (suc fuel) pages p h (err e) row ≡ (pages, err e)
unfolding insert_loop
refused_room h e row fuel pages p room =
    let free : ltb (length (page_at pages p).entries) 15 ≡ true = ground arith in rw free refl

module _ (hash : Value → ℕ) (h : ℕ) (e : IndexError) (row : ℕ) where
  -- What the refused insertion gives: the bucket as it was, of a page more where the last was full.
  abbrev pub RefusalLeaves : List BucketPage → (ℕ → ℕ) → ℕ → ℕ → ℕ → List (Value × ℕ) → Type 0
  RefusalLeaves pages owner root p fuel ps =
      (pages' : List BucketPage) × ((owner' : ℕ → ℕ) × (insert_loop fuel pages p h (err e) row
            ≡ (pages', err e)
          × Untouched pages pages' owner owner' root p
          × Chain hash pages' owner' root p ps))

  refused_spill :
      (fuel : ℕ) (pages : List BucketPage) (owner : ℕ → ℕ) (p : ℕ) (ps : List (Value × ℕ))
      → p < length pages
      → length (page_at pages p).entries ≡ 15
      → (page_at pages p).next_page ≡ 0
      → Holds hash (page_at pages p).entries ps
      → RefusalLeaves pages owner (owner p) p (suc (suc fuel)) ps
  refused_spill fuel pages owner p ps inside full end holds =
      let new : ℕ = length pages in
      let old : (p == new) ≡ false = ground arith in
      let here : (p == p) ≡ true = ground arith in
      let fresh : (new == new) ≡ true = ground arith in
      let blank : page_at (linked pages p) new ≡ empty_page =
        page_at-linked pages p new inside
        ∙ rw old (get_or-beyond pages new empty_page (omega arith)) in
      let room : length (page_at (linked pages p) new).entries < 15 =
        omega (arith, ap (λ (page : BucketPage). length page.entries) blank) in
      let there : page_at (linked pages p) p ≡ make_page new (page_at pages p).entries =
        page_at-linked pages p p inside ∙ rw here refl in
      (
        linked pages p,
        (
          taken_by owner new (owner p),
          (
            insert_loop_full h (err e) row (suc fuel) pages p full
                ∙ ap (λ (to : List BucketPage × ℕ). insert_loop (suc fuel) to.0 to.1 h (err e) row)
                    (following_end pages p end)
                ∙ refused_room h e row fuel (linked pages p) new room,
            linked-Untouched pages owner p inside,
            subst (Chain hash (linked pages p) (taken_by owner new (owner p)) (owner p) p)
                (append-nil ps)
                (more_at hash (make_page new (page_at pages p).entries) new there
                  (omega (arith, length-linked pages p)) (rw old refl) full refl inside holds
                  (last_at hash empty_page blank (omega (arith, length-linked pages p))
                    (rw fresh refl) (omega arith) refl nothing)),
          ),
        ),
      )

  pub insert_loop-RefusalLeaves :
      (fuel : ℕ) (pages : List BucketPage) (owner : ℕ → ℕ) (root p : ℕ) (ps : List (Value × ℕ))
      → suc (length pages) ≤ fuel + p
      → Chain hash pages owner root p ps
      → RefusalLeaves pages owner root p fuel ps
  insert_loop-RefusalLeaves zero pages owner root p ps enough chain =
      absurd (omega (arith, Chain-inside hash pages owner root p ps chain))
  insert_loop-RefusalLeaves (suc zero) pages owner root p ps enough chain =
      absurd (omega (arith, Chain-inside hash pages owner root p ps chain))
  insert_loop-RefusalLeaves (suc (suc fuel)) pages owner root p ps enough
        (last inside o room end holds) =
      elim (Bool-cases (ltb (length (page_at pages p).entries) 15)) [
        | inl free ↦ (
          pages,
          (
            owner,
            (
              refused_room h e row (suc fuel) pages p (ground (arith, free)),
              nothing_changed pages owner root p,
              last inside o room end holds,
            ),
          ),
        )
        | inr taken ↦
            subst (λ (r : ℕ). RefusalLeaves pages owner r p (suc (suc fuel)) ps) o
              (refused_spill fuel pages owner p ps inside (ground (arith, taken, room)) end holds)
      ]
  insert_loop-RefusalLeaves (suc (suc fuel)) pages owner root p _ enough
        (more {ps = ps} {qs = qs} q inside o full link up holds rest) =
      let (pages', (owner', (run, untouched, chain))) =
        insert_loop-RefusalLeaves (suc fuel) pages owner root q qs (omega arith) rest in
      (
        pages',
        (
          owner',
          (
            insert_loop_full h (err e) row (suc fuel) pages p full
                ∙ ap (λ (to : List BucketPage × ℕ). insert_loop (suc fuel) to.0 to.1 h (err e) row)
                    (following_link pages p q link (omega arith))
                ∙ run,
            record {
              grows = untouched.grows;
              owners = untouched.owners;
              others = untouched.others;
              before = λ i l. untouched.before i (omega arith);
            },
            more_at hash (page_at pages p) q (untouched.before p up)
                (omega (arith, untouched.grows)) (untouched.owners p inside ∙ o) full link up holds
                chain,
          ),
        ),
      )
