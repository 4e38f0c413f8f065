-- ===== src/HashIndex/Searches.antt =====
-- crates/lightning-core/src/storage/index/hash_index.rs: the search of a page for an entry to delete.
use mathlib.Core.Option
use lightning_db.Prelude.{
  ℕ, zero, suc, ◌≡◌, refl, ◌∙◌, true, false, List, [], ◌∷◌, arith, ◌==◌, inl, inr, ◌⊎◌, get_or, set,
  ok, ◌>>=◌, none, some, Bool-cases,
}
use lightning_db.HashIndex.Values.{Value, value_eq, deserialize_value}
use lightning_db.HashIndex.{
  Entry, is_deleted, make_entry, matches, find_entry, tombstone, compute_hash,
}
use lightning_db.HashIndex.Pairs.{rows_of, without, contains}
use lightning_db.HashIndex.Keys.{Holds, nothing, dead, live, matches_dead, matches_live}

module _ (hash : Value → ℕ) where
  -- A page's search: nothing, where the key has no such row, or the place of what is removed.
  abbrev pub Searched : List Entry → List (Value × ℕ) → Value → ℕ → Type 0
  Searched es ps key row =
      (find_entry es (compute_hash hash key) key row ≡ ok none
        × contains row (rows_of key ps) ≡ false)
      ⊎ ((place : ℕ) × (find_entry es (compute_hash hash key) key row ≡ ok (some place)
            × contains row (rows_of key ps) ≡ true
            × Holds hash
                (set es place
                  (tombstone (get_or es place (make_entry 0 [] 0)) (compute_hash hash key)))
                (without key row ps)))

  skipped :
      (e : Entry) (key : Value) (row : ℕ) (es : List Entry)
      → matches e (compute_hash hash key) key ≡ ok false
      → find_entry (e ∷ es) (compute_hash hash key) key row
        ≡ (find_entry es (compute_hash hash key) key row >>= λ place. ok (Option.map suc place))
  unfolding find_entry
  skipped e key row es h = rw h refl

  Searched-dead :
      (e : Entry) (es : List Entry) (ps : List (Value × ℕ)) (key : Value) (row : ℕ)
      → is_deleted e ≡ true
      → Searched es ps key row
      → Searched (e ∷ es) ps key row
  Searched-dead e es ps key row d (inl (f, c)) =
      inl (skipped e key row es (matches_dead hash e (compute_hash hash key) key d) ∙ rw f refl, c)
  Searched-dead e es ps key row d (inr (place, (f, c, h))) = inr (
    suc place,
    (
      skipped e key row es (matches_dead hash e (compute_hash hash key) key d) ∙ rw f refl,
      c,
      dead d h,
    ),
  )

  tombstone_deleted : (e : Entry) (h : ℕ) → is_deleted (tombstone e h) ≡ true
  tombstone_deleted e h = ground arith

  Searched-live :
      (e : Entry) (es : List Entry) (ps : List (Value × ℕ)) (key : Value) (row : ℕ) (stored : Value)
      → is_deleted e ≡ false
      → deserialize_value e.val_bytes ≡ ok stored
      → e.stored_hash ≡ compute_hash hash stored
      → Holds hash es ps
      → Searched es ps key row
      → Searched (e ∷ es) ((stored, e.row_id) ∷ ps) key row
  unfolding find_entry
  Searched-live e es ps key row stored d b c h found =
      let m = matches_live hash e stored key d b c in
      elim (Bool-cases (value_eq stored key)) [
        | inl equal ↦ elim (Bool-cases (e.row_id == row)) [
          | inl here ↦ inr (
            zero,
            (
              rw (m, equal, here) refl,
              rw (equal, here) refl,
              rw (equal, here) (dead (tombstone_deleted e (compute_hash hash key)) h),
            ),
          )
          | inr beyond ↦ elim found [
            | inl (f, absent) ↦ inl (rw (m, equal, beyond, f) refl, rw (equal, beyond) absent)
            | inr (place, (f, there, k)) ↦ inr (
              suc place,
              (
                rw (m, equal, beyond, f) refl,
                rw (equal, beyond) there,
                rw (equal, beyond) (live stored d b c k),
              ),
            )
          ]
        ]
        | inr another ↦ elim found [
          | inl (f, absent) ↦ inl (rw (m, another, f) refl, rw another absent)
          | inr (place, (f, there, k)) ↦ inr (
            suc place,
            (rw (m, another, f) refl, rw another there, rw another (live stored d b c k)),
          )
        ]
      ]

  pub find_entry-Holds :
      (es : List Entry) (ps : List (Value × ℕ)) (key : Value) (row : ℕ)
      → Holds hash es ps
      → Searched es ps key row
  unfolding find_entry
  find_entry-Holds _ _ key row nothing = inl (refl, refl)
  find_entry-Holds (e ∷ es) ps key row (dead d h) =
      Searched-dead e es ps key row d (find_entry-Holds es ps key row h)
  find_entry-Holds (e ∷ es) (p ∷ ps) key row (live stored d b c h) =
      Searched-live e es ps key row stored d b c h (find_entry-Holds es ps key row h)
