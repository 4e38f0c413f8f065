-- ===== src/PageMerge/Rows.antt =====
-- crates/lightning-core/src/transaction/transaction_manager.rs, phase 1 of `commit`: the bytes of a page
-- after the modifications, and concurrent writers of it.
use lightning_db.Prelude.{
  ℕ, ◌+◌, ◌-◌, ◌≤◌, ◌≡◌, refl, ap, sym, ◌∙◌, Bool, true, false, ◌&&◌, ◌||◌, List, [], ◌∷◌, arith,
  leb, ltb, if◌then◌else◌, length, take, get_or, length-take, ◌⊎◌, ext_get_or, All, Bool-cases, inl,
  inr,
}
use lightning_db.Prelude.Bytes.{length-copy_to, get_or-copy_to, get_or-take}
use lightning_db.PageMerge.{PageRowMod, offset_in_page, apply_mod, merge_page, page_size}

-- Does a modification write byte `i` of its page?
abbrev pub writes : PageRowMod → ℕ → Bool
writes m i =
    leb (offset_in_page m + m.element_size) page_size
    && (leb (offset_in_page m) i && ltb i (offset_in_page m + m.element_size))

-- The byte that the last of the modifications to write it leaves, or else the byte that was there.
abbrev pub last_written : ℕ → List PageRowMod → ℕ → ℕ
last_written i [] before = before
last_written i (m ∷ mods) before =
    last_written i mods (if writes m i then get_or m.row_data (i - offset_in_page m) 0 else before)

abbrev pub HasData : PageRowMod → Type 0
HasData m = m.element_size ≤ length m.row_data

apply_mod-length :
    (page : List ℕ) (m : PageRowMod)
    → HasData m
    → length page ≡ page_size
    → length (apply_mod page m) ≡ page_size
unfolding apply_mod
apply_mod-length page m h l =
    let n = length-take m.element_size m.row_data in
    ground (arith, n, length-copy_to page (offset_in_page m) (take m.element_size m.row_data))

get_or-apply_mod :
    (page : List ℕ) (m : PageRowMod) (i : ℕ)
    → HasData m
    → length page ≡ page_size
    → get_or (apply_mod page m) i 0
      ≡ (if writes m i then get_or m.row_data (i - offset_in_page m) 0 else get_or page i 0)
unfolding apply_mod
get_or-apply_mod page m i h l = ground (
  arith,
  length-take m.element_size m.row_data,
  get_or-copy_to page (offset_in_page m) (take m.element_size m.row_data) i 0,
  get_or-take m.element_size (i - offset_in_page m) m.row_data 0,
)

pub length-merge_page :
    (page : List ℕ) (mods : List PageRowMod)
    → All HasData mods
    → length page ≡ page_size
    → length (merge_page page mods) ≡ page_size
unfolding merge_page
length-merge_page page [] h l = l
length-merge_page page (m ∷ mods) h l =
    length-merge_page (apply_mod page m) mods h.1 (apply_mod-length page m h.0 l)

-- Every byte of the merged page is the one that the last modification to cover it has there, and a byte
-- that no modification covers is the one of the latest committed page.
pub get_or-merge_page :
    (page : List ℕ) (mods : List PageRowMod) (i : ℕ)
    → All HasData mods
    → length page ≡ page_size
    → get_or (merge_page page mods) i 0 ≡ last_written i mods (get_or page i 0)
unfolding merge_page
get_or-merge_page page [] i h l = refl
get_or-merge_page page (m ∷ mods) i h l =
    get_or-merge_page (apply_mod page m) mods i h.1 (apply_mod-length page m h.0 l)
    ∙ ap (last_written i mods) (get_or-apply_mod page m i h.0 l)

abbrev pub covers : List PageRowMod → ℕ → Bool
covers [] i = false
covers (m ∷ mods) i = writes m i || covers mods i

last_written-uncovered :
    (i : ℕ) (mods : List PageRowMod) (before : ℕ)
    → covers mods i ≡ false
    → last_written i mods before ≡ before
last_written-uncovered i [] before h = refl
last_written-uncovered i (m ∷ mods) before h = elim (Bool-cases (writes m i)) [
  | inl w ↦ absurd (cc)
  | inr w ↦
      rw w
        (last_written-uncovered i mods before (sym (ap (λ (b : Bool). b || covers mods i) w) ∙ h))
]

last_written-covered :
    (i : ℕ) (mods : List PageRowMod) (before before' : ℕ)
    → covers mods i ≡ true
    → last_written i mods before ≡ last_written i mods before'
last_written-covered i [] before before' h = absurd (cc)
last_written-covered i (m ∷ mods) before before' h = elim (Bool-cases (writes m i)) [
  | inl w ↦ rw w refl
  | inr w ↦ rw w (
      last_written-covered i mods before before'
        (sym (ap (λ (b : Bool). b || covers mods i) w) ∙ h))
]

module _ (i : ℕ) (ms ns : List PageRowMod) (before : ℕ) where
  last_written-swap :
      (covers ms i ≡ false) ⊎ (covers ns i ≡ false)
      → last_written i ns (last_written i ms before) ≡ last_written i ms (last_written i ns before)
  last_written-swap (inl u) =
      ap (last_written i ns) (last_written-uncovered i ms before u)
      ∙ sym (last_written-uncovered i ms (last_written i ns before) u)
  last_written-swap (inr u) =
      last_written-uncovered i ns (last_written i ms before) u
      ∙ ap (last_written i ms) (sym (last_written-uncovered i ns before u))

  last_written-apart :
      (covers ms i ≡ false) ⊎ (covers ns i ≡ false)
      → last_written i ns (last_written i ms before) ≡ (
          if covers ms i
          then last_written i ms 0
          else if covers ns i
          then last_written i ns 0
          else before)
  last_written-apart (inl u) = elim (Bool-cases (covers ns i)) [
    | inl w ↦ rw (u, w) (last_written-covered i ns (last_written i ms before) 0 w)
    | inr w ↦
        rw (u, w)
          (last_written-uncovered i ns (last_written i ms before) w
            ∙ last_written-uncovered i ms before u)
  ]
  last_written-apart (inr u) =
      last_written-uncovered i ns (last_written i ms before) u ∙ (elim (Bool-cases (covers ms i)) [
        | inl w ↦ rw w (last_written-covered i ms before 0 w)
        | inr w ↦ rw (w, u) (last_written-uncovered i ms before w)
      ])

-- Two transactions that write different bytes of a page leave the same page, whichever of them commits
-- first, and neither loses what the other has written: a byte that the first one writes is what the last
-- of its modifications to cover the byte has there, and so for the second one; the other bytes are those
-- of the page before. A modification that does not fit the page writes nothing,
-- and each has as many bytes as it says.
pub merge_page_comm :
    (page : List ℕ) (ms ns : List PageRowMod)
    → All HasData ms
    → All HasData ns
    → length page ≡ page_size
    → ((i : ℕ) → (covers ms i ≡ false) ⊎ (covers ns i ≡ false))
    → (merge_page (merge_page page ms) ns ≡ merge_page (merge_page page ns) ms)
      × ((i : ℕ)
          → get_or (merge_page (merge_page page ms) ns) i 0 ≡ (
              if covers ms i
              then last_written i ms 0
              else if covers ns i
              then last_written i ns 0
              else get_or page i 0))
merge_page_comm page ms ns hm hn l apart =
    let lm = length-merge_page page ms hm l in
    let ln = length-merge_page page ns hn l in
    let read : (i : ℕ)
        → get_or (merge_page (merge_page page ms) ns) i 0
          ≡ last_written i ns (last_written i ms (get_or page i 0)) =
      λ i.
        get_or-merge_page _ ns i hn lm
        ∙ ap (last_written i ns) (get_or-merge_page page ms i hm l) in
    (
      ext_get_or 0 (merge_page (merge_page page ms) ns) (merge_page (merge_page page ns) ms)
          (length-merge_page _ ns hn lm ∙ sym (length-merge_page _ ms hm ln))
          (λ i h.
            read i
            ∙ last_written-swap i ms ns (get_or page i 0) (apart i)
            ∙ sym (
                get_or-merge_page _ ms i hm ln
                ∙ ap (last_written i ms) (get_or-merge_page page ns i hn l))),
      λ i. read i ∙ last_written-apart i ms ns (get_or page i 0) (apart i),
    )
