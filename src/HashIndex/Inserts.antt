-- ===== src/HashIndex/Inserts.antt =====
-- crates/lightning-core/src/storage/index/hash_index.rs: an insertion along the pages of a bucket.
use mathlib.Core.List.{append_assoc}
use lightning_db.Prelude.{
  ℕ, zero, suc, ◌+◌, ◌<◌, ◌≤◌, ◌≡◌, refl, ap, sym, subst, ◌∙◌, true, false, List, [], ◌∷◌, ◌++◌,
  arith, leb, ltb, ◌==◌, inl, inr, length, set, ok, Bool-cases, length-set, length-append,
  get_or-set, get_or-beyond,
}
use lightning_db.HashIndex.Values.{Value, deserialize_value}
use lightning_db.HashIndex.Keys.{Holds, nothing, live, Holds-append}
use lightning_db.HashIndex.Chains.{
  Chain, last, more, last_at, more_at, Chain-inside, Untouched, one_page_changed,
}
use lightning_db.HashIndex.Writes.{
  grown, insert_loop_room, insert_loop_full, following_link, following_end, spilled, spilled_here,
  spilled_new, spilled-Untouched, length-spilled, taken_by, page_at-linked,
}
use lightning_db.HashIndex.{
  BucketPage, make_entry, make_page, deleted_bit, page_at, empty_page, insert_loop, linked,
  compute_hash,
}

deleted_bit_positive : 0 < deleted_bit
unfolding deleted_bit
deleted_bit_positive = ground arith

module _ (hash : Value → ℕ) where
  pub compute_hash_live : (key : Value) → leb deleted_bit (compute_hash hash key) ≡ false
  unfolding compute_hash
  compute_hash_live key = ground (arith, deleted_bit_positive)

  module _ (key : Value) (key_bytes : List ℕ) (row : ℕ) (exact : length key_bytes ≡ 256)
      (back : deserialize_value key_bytes ≡ ok key) where
    Holds-grown :
        (page : BucketPage) (ps : List (Value × ℕ))
        → Holds hash page.entries ps
        → Holds hash
            (grown page (compute_hash hash key) key_bytes row).entries
            (ps ++ ((key, row) ∷ []))
    Holds-grown page ps holds =
        Holds-append hash page.entries ps _ _ holds
          (live key (compute_hash_live key) back refl nothing)

    -- What an insertion behind page `p` gives: the bucket with one more pair, the rest as it was.
    abbrev pub Inserted : List BucketPage → (ℕ → ℕ) → ℕ → ℕ → ℕ → List (Value × ℕ) → Type 0
    Inserted pages owner root p fuel ps =
        (pages' : List BucketPage) × ((owner' : ℕ → ℕ) × (insert_loop fuel pages p
                (compute_hash hash key) (ok key_bytes) row
              ≡ (pages', ok tt)
            × Untouched pages pages' owner owner' root p
            × Chain hash pages' owner' root p (ps ++ ((key, row) ∷ []))))

    insert_room :
        (fuel : ℕ) (pages : List BucketPage) (owner : ℕ → ℕ) (p : ℕ) (ps : List (Value × ℕ))
        → p < length pages
        → length (page_at pages p).entries < 15
        → (page_at pages p).next_page ≡ 0
        → Holds hash (page_at pages p).entries ps
        → Inserted pages owner (owner p) p (suc fuel) ps
    insert_room fuel pages owner p ps h room end holds =
        let page : BucketPage = grown (page_at pages p) (compute_hash hash key) key_bytes row in
        let here : (p == p) ≡ true = ground arith in
        let there : page_at (set pages p page) p ≡ page =
          get_or-set pages p p page empty_page h ∙ rw here refl in
        (
          set pages p page,
          (
            owner,
            (
              insert_loop_room (compute_hash hash key) key_bytes row exact fuel pages p room,
              one_page_changed pages owner p page h,
              last_at hash page there (omega (arith, length-set pages p page)) refl
                  (omega (
                    arith,
                    length-append (page_at pages p).entries
                        (make_entry (compute_hash hash key) key_bytes row ∷ []),
                  ))
                  end (Holds-grown (page_at pages p) ps holds),
            ),
          ),
        )

    insert_spill :
        (fuel : ℕ) (pages : List BucketPage) (owner : ℕ → ℕ) (p : ℕ) (ps : List (Value × ℕ))
        → p < length pages
        → length (page_at pages p).entries ≡ 15
        → (page_at pages p).next_page ≡ 0
        → Holds hash (page_at pages p).entries ps
        → Inserted pages owner (owner p) p (suc (suc fuel)) ps
    insert_spill fuel pages owner p ps h full end holds =
        let key_hash : ℕ = compute_hash hash key in
        let new : ℕ = length pages in
        let old : (p == new) ≡ false = ground arith in
        let fresh : (new == new) ≡ true = ground arith in
        let blank : page_at (linked pages p) new ≡ empty_page =
          page_at-linked pages p new h
          ∙ rw old (get_or-beyond pages new empty_page (omega arith)) in
        let room : length (page_at (linked pages p) new).entries < 15 =
          omega (arith, ap (λ (page : BucketPage). length page.entries) blank) in
        (
          spilled pages owner p key_hash key_bytes row,
          (
            taken_by owner new (owner p),
            (
              insert_loop_full key_hash (ok key_bytes) row (suc fuel) pages p full
                  ∙ ap
                      (λ (to : List BucketPage × ℕ).
                        insert_loop (suc fuel) to.0 to.1 key_hash (ok key_bytes) row)
                      (following_end pages p end)
                  ∙ insert_loop_room key_hash key_bytes row exact fuel (linked pages p) new room
                  ∙ ap
                      (λ (page : BucketPage).
                        (set (linked pages p) new (grown page key_hash key_bytes row), ok tt))
                      blank,
              spilled-Untouched pages owner p key_hash key_bytes row h,
              more_at hash (make_page new (page_at pages p).entries) new
                  (spilled_here pages owner p key_hash key_bytes row h)
                  (omega (arith, length-spilled pages owner p key_hash key_bytes row)) (rw old refl)
                  full refl h holds
                  (last_at hash (grown empty_page key_hash key_bytes row)
                    (spilled_new pages owner p key_hash key_bytes row h)
                    (omega (arith, length-spilled pages owner p key_hash key_bytes row))
                    (rw fresh refl) (omega arith) refl (Holds-grown empty_page [] nothing)),
            ),
          ),
        )

    -- A full page that has a next one stays, and the insertion is behind it.
    insert_beyond :
        (fuel : ℕ) (pages : List BucketPage) (owner : ℕ → ℕ) (p q : ℕ) (ps qs : List (Value × ℕ))
        → p < length pages
        → length (page_at pages p).entries ≡ 15
        → (page_at pages p).next_page ≡ q
        → p < q
        → Holds hash (page_at pages p).entries ps
        → Inserted pages owner (owner p) q fuel qs
        → Inserted pages owner (owner p) p (suc fuel) (ps ++ qs)
    insert_beyond fuel pages owner p q ps qs h full link up holds
          (pages', (owner', (e, frame, chain))) =
        (
          pages',
          (
            owner',
            (
              insert_loop_full (compute_hash hash key) (ok key_bytes) row fuel pages p full
                  ∙ ap
                      (λ (to : List BucketPage × ℕ).
                        insert_loop fuel to.0 to.1 (compute_hash hash key) (ok key_bytes) row)
                      (following_link pages p q link (omega arith))
                  ∙ e,
              record {
                grows = frame.grows;
                owners = frame.owners;
                others = frame.others;
                before = λ i l. frame.before i (omega arith);
              },
              subst (Chain hash pages' owner' (owner p) p)
                  (sym (append_assoc ps qs ((key, row) ∷ [])))
                  (more_at hash (page_at pages p) q (frame.before p up) (omega (arith, frame.grows))
                    (frame.owners p h) full link up holds chain),
            ),
          ),
        )

    pub insert_loop-Chain :
        (fuel : ℕ) (pages : List BucketPage) (owner : ℕ → ℕ) (root p : ℕ) (ps : List (Value × ℕ))
        → suc (length pages) ≤ fuel + p
        → Chain hash pages owner root p ps
        → Inserted pages owner root p fuel ps
    insert_loop-Chain zero pages owner root p ps enough chain =
        absurd (omega (arith, Chain-inside hash pages owner root p ps chain))
    insert_loop-Chain (suc zero) pages owner root p ps enough chain =
        absurd (omega (arith, Chain-inside hash pages owner root p ps chain))
    insert_loop-Chain (suc (suc fuel)) pages owner root p ps enough (last h o room end holds) =
        subst (λ (r : ℕ). Inserted pages owner r p (suc (suc fuel)) ps) o
          (elim (Bool-cases (ltb (length (page_at pages p).entries) 15)) [
            | inl free ↦ insert_room (suc fuel) pages owner p ps h (ground (arith, free)) end holds
            | inr taken ↦
                insert_spill fuel pages owner p ps h (ground (arith, taken, room)) end holds
          ])
    insert_loop-Chain (suc (suc fuel)) pages owner root p _ enough
          (more {ps = ps} {qs = qs} q h o full link up holds rest) =
        let behind = insert_loop-Chain (suc fuel) pages owner root q qs (omega arith) rest in
        subst (λ (r : ℕ). Inserted pages owner r p (suc (suc fuel)) (ps ++ qs)) o
          (insert_beyond (suc fuel) pages owner p q ps qs h full link up holds
            (subst (λ (r : ℕ). Inserted pages owner r q (suc fuel) qs) (sym o) behind))
