-- ===== src/HashIndex/Keys.antt =====
-- crates/lightning-core/src/storage/index/hash_index.rs: what the entries of a page stand for,
-- and the scan of a page.
use mathlib.Core.List.{append_assoc, append-nil}
use lightning_db.Prelude.{
  ℕ, suc, ◌≡◌, refl, ap, sym, ◌∙◌, Bool, true, false, List, [], ◌∷◌, ◌++◌, arith, leb, ◌==◌, inl,
  inr, if◌then◌else◌, length, take, take_eq, take-nil, length-append, ◌-◌, ok, Option, none, some,
  Bool-cases,
}
use lightning_db.HashIndex.Values.{Value, value_eq, value_eq_iff, deserialize_value}
use lightning_db.HashIndex.{Entry, is_deleted, matches, scan_bucket_page, compute_hash}
use lightning_db.HashIndex.Pairs.{rows_of, capped}

module _ (hash : Value → ℕ) where
  -- The entries of a page, and the pairs of which the live ones are.
  pub data Holds : List Entry → List (Value × ℕ) → Type 0 where
    nothing : Holds [] []
    dead :
        {e : Entry} {es : List Entry} {ps : List (Value × ℕ)}
        → is_deleted e ≡ true
        → Holds es ps
        → Holds (e ∷ es) ps
    live :
        {e : Entry} {es : List Entry} {ps : List (Value × ℕ)} (key : Value)
        → is_deleted e ≡ false
        → deserialize_value e.val_bytes ≡ ok key
        → e.stored_hash ≡ compute_hash hash key
        → Holds es ps
        → Holds (e ∷ es) ((key, e.row_id) ∷ ps)

  pub Holds-append :
      (es : List Entry) (ps : List (Value × ℕ)) (fs : List Entry) (qs : List (Value × ℕ))
      → Holds es ps
      → Holds fs qs
      → Holds (es ++ fs) (ps ++ qs)
  Holds-append _ _ fs qs nothing k = k
  Holds-append (e ∷ es) ps fs qs (dead d h) k = dead d (Holds-append es ps fs qs h k)
  Holds-append (e ∷ es) (p ∷ ps) fs qs (live key a b c h) k =
      live key a b c (Holds-append es ps fs qs h k)

  pub matches_dead :
      (e : Entry) (h : ℕ) (key : Value) → is_deleted e ≡ true → matches e h key ≡ ok false
  unfolding matches
  matches_dead e h key d = rw d refl

  pub matches_live :
      (e : Entry) (stored key : Value)
      → is_deleted e ≡ false
      → deserialize_value e.val_bytes ≡ ok stored
      → e.stored_hash ≡ compute_hash hash stored
      → matches e (compute_hash hash key) key ≡ ok (value_eq stored key)
  unfolding matches
  matches_live e stored key d b h = elim (Bool-cases (e.stored_hash == compute_hash hash key)) [
    | inl same ↦ rw (d, same, b) refl
    | inr differ ↦ elim (Bool-cases (value_eq stored key)) [
      | inl equal ↦
          let e' = (value_eq_iff stored key).0 equal in
          let hs : e.stored_hash ≡ compute_hash hash key = h ∙ ap (compute_hash hash) e' in
          absurd (ground (arith, differ, hs))
      | inr unequal ↦ rw (d, differ, unequal) refl
    ]
  ]

  take_nothing :
      (results rows : List ℕ) (l : ℕ)
      → leb l (length results) ≡ true
      → results ≡ results ++ take (l - length results) rows
  take_nothing results rows l h =
      let e : l - length results ≡ 0 = ground (arith, h) in
      sym (append-nil results) ∙ take_eq 0 (l - length results) results rows (sym e)

  scan_full :
      (l : ℕ) (es : List Entry) (h : ℕ) (key : Value) (results : List ℕ)
      → leb l (length results) ≡ true
      → scan_bucket_page es h key (some l) results ≡ ok results
  unfolding scan_bucket_page
  scan_full l [] h key results full = refl
  scan_full l (e ∷ es) h key results full = rw full refl

  scan_step :
      (l : ℕ) (e : Entry) (es : List Entry) (h : ℕ) (key : Value) (results : List ℕ) (found : Bool)
      → leb l (length results) ≡ false
      → matches e h key ≡ ok found
      → scan_bucket_page (e ∷ es) h key (some l) results
        ≡ scan_bucket_page es h key (some l) (if found then results ++ (e.row_id ∷ []) else results)
  unfolding scan_bucket_page
  scan_step l e es h key results found free m = rw (free, m) refl

  scan_one_more :
      (results rows : List ℕ) (row l : ℕ)
      → leb l (length results) ≡ false
      → (results ++ (row ∷ [])) ++ take (l - length (results ++ (row ∷ []))) rows
        ≡ results ++ take (l - length results) (row ∷ rows)
  scan_one_more results rows row l free =
      let fewer : l - length (results ++ (row ∷ [])) ≡ l - length results - 1 =
        omega (arith, length-append results (row ∷ [])) in
      let n : l - length results ≡ suc (l - length results - 1) = ground (arith, free) in
      take_eq _ _ (results ++ (row ∷ [])) rows fewer
      ∙ append_assoc results (row ∷ []) (take (l - length results - 1) rows)
      ∙ take_eq (suc (l - length results - 1)) (l - length results) results (row ∷ rows) (sym n)

  scan_none :
      (l h : ℕ) (key : Value) (results : List ℕ)
      → scan_bucket_page [] h key (some l) results ≡ ok (results ++ take (l - length results) [])
  unfolding scan_bucket_page
  scan_none l h key results =
      ap ok (sym (append-nil results) ∙ ap (◌++◌ results) (sym (take-nil (l - length results))))

  scan_limited :
      (l : ℕ) (es : List Entry) (ps : List (Value × ℕ)) (key : Value) (results : List ℕ)
      → Holds es ps
      → scan_bucket_page es (compute_hash hash key) key (some l) results
        ≡ ok (results ++ take (l - length results) (rows_of key ps))
  scan_limited l _ _ key results nothing = elim (Bool-cases (leb l (length results))) [
    | inl full ↦
        scan_full l [] (compute_hash hash key) key results full
        ∙ ap ok (take_nothing results [] l full)
    | inr free ↦ scan_none l (compute_hash hash key) key results
  ]
  scan_limited l (e ∷ es) ps key results (dead d h) = elim (Bool-cases (leb l (length results))) [
    | inl full ↦
        scan_full l (e ∷ es) (compute_hash hash key) key results full
        ∙ ap ok (take_nothing results (rows_of key ps) l full)
    | inr free ↦
        scan_step l e es (compute_hash hash key) key results false free
          (matches_dead e (compute_hash hash key) key d)
        ∙ scan_limited l es ps key results h
  ]
  scan_limited l (e ∷ es) (p ∷ ps) key results (live stored d b c h) =
      elim (Bool-cases (leb l (length results))) [
        | inl full ↦
            scan_full l (e ∷ es) (compute_hash hash key) key results full
            ∙ ap ok (take_nothing results (rows_of key ((stored, e.row_id) ∷ ps)) l full)
        | inr free ↦ elim (Bool-cases (value_eq stored key)) [
          | inl equal ↦
              scan_step l e es (compute_hash hash key) key results true free
                (matches_live e stored key d b c ∙ ap ok equal)
              ∙ scan_limited l es ps key (results ++ (e.row_id ∷ [])) h
              ∙ rw equal (ap ok (scan_one_more results (rows_of key ps) e.row_id l free))
          | inr unequal ↦
              scan_step l e es (compute_hash hash key) key results false free
                (matches_live e stored key d b c ∙ ap ok unequal)
              ∙ scan_limited l es ps key results h
              ∙ rw unequal refl
        ]
      ]

  -- A page's scan without a limit appends the rows of the key.
  scan_unlimited :
      (es : List Entry) (ps : List (Value × ℕ)) (key : Value) (results : List ℕ)
      → Holds es ps
      → scan_bucket_page es (compute_hash hash key) key none results
        ≡ ok (results ++ rows_of key ps)
  unfolding scan_bucket_page
  scan_unlimited _ _ key results nothing = ap ok (sym (append-nil results))
  scan_unlimited (e ∷ es) ps key results (dead d h) =
      rw (matches_dead e (compute_hash hash key) key d) (scan_unlimited es ps key results h)
  scan_unlimited (e ∷ es) (p ∷ ps) key results (live stored d b c h) =
      elim (Bool-cases (value_eq stored key)) [
        | inl equal ↦
            rw (matches_live e stored key d b c, equal)
              (scan_unlimited es ps key (results ++ (e.row_id ∷ [])) h
                ∙ ap ok (append_assoc results (e.row_id ∷ []) (rows_of key ps)))
        | inr unequal ↦
            rw (matches_live e stored key d b c, unequal) (scan_unlimited es ps key results h)
      ]

  pub scan_bucket_page-Holds :
      (limit : Option ℕ) (es : List Entry) (ps : List (Value × ℕ)) (key : Value) (results : List ℕ)
      → Holds es ps
      → scan_bucket_page es (compute_hash hash key) key limit results
        ≡ ok (results ++ capped limit results (rows_of key ps))
  scan_bucket_page-Holds none es ps key results h = scan_unlimited es ps key results h
  scan_bucket_page-Holds (some l) es ps key results h = scan_limited l es ps key results h
