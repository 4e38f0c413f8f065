-- ===== src/PageMerge.antt =====
-- crates/lightning-core/src/transaction/transaction_manager.rs, phase 1 of `commit`: the rows that a
-- transaction has written are put into the latest committed page, so that writers of different rows of
-- a page keep each other's changes. A page is its bytes, and `Pages` are the latest committed pages of
-- the files that the storage manager knows. The pins succeed, and the page's lock is free in time.
-- `row_data` has at least `element_size` bytes (64 in the source, and a slice past them panics).
mod Rows
mod Groups
mod Tests
use lightning_db.Prelude.{
  ℕ, ◌+◌, ◌*◌, ◌%◌, max, Bool, ◌&&◌, Option, none, some, List, [], ◌∷◌, ◌++◌, leb, ◌==◌,
  if◌then◌else◌, take,
}
use lightning_db.Prelude.Bytes.{copy_to}

abbrev pub page_size : ℕ
page_size = 4096

pub record PageRowMod : Type 0 where
  pub file_id : ℕ
  pub page_idx : ℕ
  pub row_id : ℕ
  pub element_size : ℕ
  pub values_per_page : ℕ
  pub row_data : List ℕ

abbrev pub offset_in_page : PageRowMod → ℕ
offset_in_page m = m.row_id % max m.values_per_page 1 * m.element_size

-- The body of the loop over a page's modifications.
unfoldable pub apply_mod : List ℕ → PageRowMod → List ℕ
apply_mod merged_data m =
    if leb (offset_in_page m + m.element_size) page_size
    then copy_to merged_data (offset_in_page m) (take m.element_size m.row_data)
    else merged_data

unfoldable pub merge_page : List ℕ → List PageRowMod → List ℕ
unfolding apply_mod
merge_page merged_data [] = merged_data
merge_page merged_data (m ∷ mods) = merge_page (apply_mod merged_data m) mods

abbrev pub PageKey : Type 0
PageKey = ℕ × ℕ

abbrev pub same_key : PageKey → PageKey → Bool
same_key a b = a.0 == b.0 && a.1 == b.1

abbrev pub key_of : PageRowMod → PageKey
key_of m = (m.file_id, m.page_idx)

-- page_groups.entry(key).or_default().push(m)
unfoldable pub push_mod :
    List (PageKey × List PageRowMod) → PageRowMod → List (PageKey × List PageRowMod)
push_mod [] m = (key_of m, m ∷ []) ∷ []
push_mod ((key, mods) ∷ groups) m =
    if same_key key (key_of m)
    then (key, mods ++ m ∷ []) ∷ groups
    else (key, mods) ∷ push_mod groups m

-- The entries of `page_groups`, listed as they are first met.
unfoldable pub group_mods :
    List (PageKey × List PageRowMod) → List PageRowMod → List (PageKey × List PageRowMod)
unfolding push_mod
group_mods groups [] = groups
group_mods groups (m ∷ mods) = group_mods (push_mod groups m) mods

-- `none` where the file has no handle.
abbrev pub Pages : Type 0
Pages = PageKey → Option (List ℕ)

abbrev pub put_page : Pages → PageKey → List ℕ → Pages
put_page pages key bytes k = if same_key key k then some bytes else pages k

-- What is merged, and what is logged, in the order in which the groups come.
pub record Merged : Type 0 where
  pub pages : Pages
  pub log : List (PageKey × List ℕ)

abbrev pub put_group : Merged → PageKey → List PageRowMod → Option (List ℕ) → Merged
put_group merged key mods none = merged
put_group merged key mods (some latest) =
    let bytes = merge_page latest mods in
    record { pages = put_page merged.pages key bytes; log = merged.log ++ (key, bytes) ∷ [] }

unfoldable pub merge_groups : Merged → List (PageKey × List PageRowMod) → Merged
unfolding merge_page
merge_groups merged [] = merged
merge_groups merged ((key, mods) ∷ groups) =
    merge_groups (put_group merged key mods (merged.pages key)) groups

-- `order` is the iteration of a `HashMap`, which gives its groups in any order.
unfoldable pub merge_commit :
    (List (PageKey × List PageRowMod) → List (PageKey × List PageRowMod))
    → Pages
    → List PageRowMod
    → Merged
unfolding merge_groups group_mods
merge_commit order pages page_mods =
    merge_groups (record { pages = pages; log = [] }) (order (group_mods [] page_mods))
