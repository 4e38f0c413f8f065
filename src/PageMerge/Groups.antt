-- ===== src/PageMerge/Groups.antt =====
-- crates/lightning-core/src/transaction/transaction_manager.rs, phase 1 of `commit`: the modifications
-- grouped by page, and what the merge of all groups does to each page.

use lightning_db.Prelude.{
  ℕ, ◌≡◌, refl, ap, ap₂, subst, sym, ◌∙◌, Bool, true, false, ◌||◌, Option, none, some, List, [],
  ◌∷◌, ◌++◌, arith, if◌then◌else◌, filter, Bool-cases, inl, inr,
}
use mathlib.Core.List.{append-nil, append_assoc}
use mathlib.Core.List.{Permᴰ}
use mathlib.Core.List.Permᴰ
use lightning_db.PageMerge.{
  PageRowMod, PageKey, same_key, key_of, push_mod, group_mods, Pages, Merged, merge_page,
  merge_groups, merge_commit, put_group,
}

abbrev pub Groups : Type 0
Groups = List (PageKey × List PageRowMod)

abbrev group_at : PageKey → Groups → List PageRowMod
group_at k [] = []
group_at k ((j, mods) ∷ groups) = if same_key j k then mods else group_at k groups

abbrev has_key : PageKey → Groups → Bool
has_key k [] = false
has_key k ((j, mods) ∷ groups) = same_key j k || has_key k groups

abbrev Distinct : Groups → Type 0
Distinct [] = Unit {0}
Distinct ((k, mods) ∷ groups) = (has_key k groups ≡ false) × Distinct groups

-- The modifications of one page, in their order.
abbrev pub mods_of : PageKey → List PageRowMod → List PageRowMod
mods_of k = filter (λ m. same_key (key_of m) k)

group_at-push_mod :
    (k : PageKey) (groups : Groups) (m : PageRowMod)
    → group_at k (push_mod groups m)
      ≡ (if same_key (key_of m) k then group_at k groups ++ m ∷ [] else group_at k groups)
unfolding push_mod
group_at-push_mod k [] m = refl
group_at-push_mod k ((j, mods) ∷ groups) m = ground (arith, group_at-push_mod k groups m)

has_key-push_mod :
    (k : PageKey) (groups : Groups) (m : PageRowMod)
    → has_key k (push_mod groups m) ≡ (has_key k groups || same_key (key_of m) k)
unfolding push_mod
has_key-push_mod k [] m = ground arith
has_key-push_mod k ((j, mods) ∷ groups) m = ground (arith, has_key-push_mod k groups m)

push_mod-Distinct :
    (groups : Groups) (m : PageRowMod) → Distinct groups → Distinct (push_mod groups m)
unfolding push_mod
push_mod-Distinct [] m d = (refl, tt)
push_mod-Distinct ((j, mods) ∷ groups) m d =
    ground (arith, push_mod-Distinct groups m d.1, has_key-push_mod j groups m)

group_at-group_mods :
    (k : PageKey) (groups : Groups) (mods : List PageRowMod)
    → group_at k (group_mods groups mods) ≡ group_at k groups ++ mods_of k mods
unfolding group_mods
group_at-group_mods k groups [] = sym (append-nil (group_at k groups))
group_at-group_mods k groups (m ∷ mods) =
    group_at-group_mods k (push_mod groups m) mods
    ∙ ap (λ (ms : List PageRowMod). ms ++ mods_of k mods) (group_at-push_mod k groups m)
    ∙ (elim (Bool-cases (same_key (key_of m) k)) [
      | inl same ↦ rw same (append_assoc (group_at k groups) (m ∷ []) (mods_of k mods))
      | inr other ↦ rw other refl
    ])

group_mods-Distinct :
    (groups : Groups) (mods : List PageRowMod) → Distinct groups → Distinct (group_mods groups mods)
unfolding group_mods
group_mods-Distinct groups [] d = d
group_mods-Distinct groups (m ∷ mods) d =
    group_mods-Distinct (push_mod groups m) mods (push_mod-Distinct groups m d)

-- The latest committed page with modifications on top, where there is a page.
abbrev pub merged_with : List PageRowMod → Option (List ℕ) → Option (List ℕ)
merged_with mods none = none
merged_with mods (some latest) = some (merge_page latest mods)

same_key-eq : (a b : PageKey) → same_key a b ≡ true → a ≡ b
same_key-eq (a, b) (c, d) h = ground arith

-- A merged group changes its own page only.
put_group-pages :
    (merged : Merged) (key k : PageKey) (mods : List PageRowMod) (o : Option (List ℕ))
    → merged.pages key ≡ o
    → (put_group merged key mods o).pages k
      ≡ (if same_key key k then merged_with mods (merged.pages k) else merged.pages k)
put_group-pages merged key k mods none e = elim (Bool-cases (same_key key k)) [
  | inl same ↦
      let here : merged.pages k ≡ none = ap merged.pages (sym (same_key-eq key k same)) ∙ e in
      rw (same, here) refl
  | inr other ↦ rw other refl
]
put_group-pages merged key k mods (some latest) e = elim (Bool-cases (same_key key k)) [
  | inl same ↦
      let here : merged.pages k ≡ some latest =
        ap merged.pages (sym (same_key-eq key k same)) ∙ e in
      rw (same, here) refl
  | inr other ↦ rw other refl
]

merge_groups-absent :
    (merged : Merged) (groups : Groups) (k : PageKey)
    → has_key k groups ≡ false
    → (merge_groups merged groups).pages k ≡ merged.pages k
unfolding merge_groups
merge_groups-absent merged [] k h = refl
merge_groups-absent merged ((key, mods) ∷ groups) k h = elim (Bool-cases (same_key key k)) [
  | inl same ↦ absurd (cc)
  | inr other ↦
      merge_groups-absent (put_group merged key mods (merged.pages key)) groups k
        (sym (ap (λ (b : Bool). b || has_key k groups) other) ∙ h)
      ∙ put_group-pages merged key k mods (merged.pages key) refl
      ∙ rw other refl
]

merge_page-nil : (o : Option (List ℕ)) → o ≡ merged_with [] o
unfolding merge_page
merge_page-nil none = refl
merge_page-nil (some latest) = refl

merge_groups-pages :
    (merged : Merged) (groups : Groups) (k : PageKey)
    → Distinct groups
    → (merge_groups merged groups).pages k ≡ merged_with (group_at k groups) (merged.pages k)
unfolding merge_groups
merge_groups-pages merged [] k d = merge_page-nil (merged.pages k)
merge_groups-pages merged ((key, mods) ∷ groups) k d =
    let put = put_group-pages merged key k mods (merged.pages key) refl in
    elim (Bool-cases (same_key key k)) [
      | inl same ↦
          let gone : has_key k groups ≡ false =
            ap (λ (j : PageKey). has_key j groups) (sym (same_key-eq key k same)) ∙ d.0 in
          merge_groups-absent _ groups k gone ∙ put ∙ rw same refl
      | inr other ↦
          let same_page : (put_group merged key mods (merged.pages key)).pages k ≡ merged.pages k =
            put ∙ rw other refl in
          merge_groups-pages (put_group merged key mods (merged.pages key)) groups k d.1
          ∙ ap (merged_with (group_at k groups)) same_page
          ∙ rw other refl
    ]

-- Two groups that change places.
module _ (k : PageKey) (a b : PageKey × List PageRowMod) (groups : Groups) where
  has_key-swap : has_key k (a ∷ b ∷ groups) ≡ has_key k (b ∷ a ∷ groups)
  has_key-swap = ground arith

  group_at-swap :
      same_key b.0 a.0 ≡ false → group_at k (a ∷ b ∷ groups) ≡ group_at k (b ∷ a ∷ groups)
  group_at-swap apart = ground (arith, apart)

neither : (p q : Bool) → (p || q) ≡ false → (p ≡ false) × (q ≡ false)
neither true q h = absurd (cc)
neither false q h = (refl, h)

same_key_comm : (a b : PageKey) → same_key a b ≡ same_key b a
same_key_comm a b = ground arith

Distinct-swap :
    (a b : PageKey × List PageRowMod) (groups : Groups)
    → Distinct (a ∷ b ∷ groups)
    → Distinct (b ∷ a ∷ groups)
Distinct-swap a b groups d =
    let (apart, absent) = neither (same_key b.0 a.0) (has_key a.0 groups) d.0 in
    (
      ap (λ (p : Bool). p || has_key b.0 groups) (same_key_comm a.0 b.0 ∙ apart) ∙ d.1.0,
      (absent, d.1.1),
    )

has_key-Permᴰ : (k : PageKey) {gs hs : Groups} → Permᴰ gs hs → has_key k gs ≡ has_key k hs
has_key-Permᴰ k Permᴰ.nil = refl
has_key-Permᴰ k (Permᴰ.cons e p) =
    ap₂ (λ (g : PageKey × List PageRowMod) (r : Bool). same_key g.0 k || r) e (has_key-Permᴰ k p)
has_key-Permᴰ k (Permᴰ.swap {a = a} {b = b} {l = l} e f) =
    has_key-swap k a b l ∙ ap₂ (λ (g h : PageKey × List PageRowMod). has_key k (g ∷ h ∷ l)) f e
has_key-Permᴰ k (Permᴰ.trans p q) = has_key-Permᴰ k p ∙ has_key-Permᴰ k q

Distinct-Permᴰ : {gs hs : Groups} → Permᴰ gs hs → Distinct gs → Distinct hs
Distinct-Permᴰ Permᴰ.nil d = d
Distinct-Permᴰ (Permᴰ.cons {a = a} {b = b} {l₂ = m} e p) d = (
  ap (λ (g : PageKey × List PageRowMod). has_key g.0 m) (sym e) ∙ sym (has_key-Permᴰ a.0 p) ∙ d.0,
  Distinct-Permᴰ p d.1,
)
Distinct-Permᴰ (Permᴰ.swap {a = a} {b = b} {b' = b'} {l = l} e f) d =
    subst (λ (g : PageKey × List PageRowMod). Distinct (g ∷ b' ∷ l)) f
      (subst (λ (h : PageKey × List PageRowMod). Distinct (b ∷ h ∷ l)) e (Distinct-swap a b l d))
Distinct-Permᴰ (Permᴰ.trans p q) d = Distinct-Permᴰ q (Distinct-Permᴰ p d)

group_at-Permᴰ :
    (k : PageKey) {gs hs : Groups} → Permᴰ gs hs → Distinct gs → group_at k gs ≡ group_at k hs
group_at-Permᴰ k Permᴰ.nil d = refl
group_at-Permᴰ k (Permᴰ.cons e p) d =
    ap₂ (λ (g : PageKey × List PageRowMod) (r : List PageRowMod). if same_key g.0 k then g.1 else r)
      e (group_at-Permᴰ k p d.1)
group_at-Permᴰ k (Permᴰ.swap {a = a} {b = b} {l = l} e f) d =
    group_at-swap k a b l (neither (same_key b.0 a.0) (has_key a.0 l) d.0).0
    ∙ ap₂ (λ (g h : PageKey × List PageRowMod). group_at k (g ∷ h ∷ l)) f e
group_at-Permᴰ k (Permᴰ.trans p q) d =
    group_at-Permᴰ k p d ∙ group_at-Permᴰ k q (Distinct-Permᴰ p d)

-- The merge of a commit puts into each page the modifications of that page, in the order in which the
-- transaction made them, on top of the latest committed page, in whatever order it comes to the pages; a
-- page of a file with no handle, and a page without modifications, stay as they are.
pub merge_commit-pages :
    (order : Groups → Groups)
    → ((groups : Groups) → Permᴰ (order groups) groups)
    → (pages : Pages) (page_mods : List PageRowMod) (k : PageKey)
    → (merge_commit order pages page_mods).pages k ≡ merged_with (mods_of k page_mods) (pages k)
unfolding merge_commit
merge_commit-pages order reorders pages page_mods k =
    let groups : Groups = group_mods [] page_mods in
    let distinct : Distinct (order groups) =
      Distinct-Permᴰ (Permᴰ.symm (reorders groups)) (group_mods-Distinct [] page_mods tt) in
    merge_groups-pages (record { pages = pages; log = [] }) (order groups) k distinct
    ∙ ap (λ (ms : List PageRowMod). merged_with ms (pages k))
        (group_at-Permᴰ k (reorders groups) distinct ∙ group_at-group_mods k [] page_mods)
