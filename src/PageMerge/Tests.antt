-- ===== src/PageMerge/Tests.antt =====
-- The theorems about the page merge at two writers of one page.
use lightning_db.Prelude.{
  ℕ, ◌≡◌, false, List, [], ◌∷◌, arith, some, none, replicate, get_or, length-replicate, ltb, ◌==◌,
  if◌then◌else◌, inl, inr, Bool-cases, ◌⊎◌,
}
use mathlib.Core.List.{reverse}
use mathlib.Core.List.Permᴰ
use lightning_db.PageMerge.{PageRowMod, merge_page, merge_commit, Pages}
use lightning_db.PageMerge.Rows.{covers, last_written, merge_page_comm}
use lightning_db.PageMerge.Groups.{mods_of, merged_with, merge_commit-pages}

abbrev empty_page : List ℕ
empty_page = replicate 4096 0

-- Row `r` of a column of 8-byte numbers, 512 to a page, set to bytes `b`.
abbrev row_set : ℕ → ℕ → PageRowMod
row_set r b = record {
  file_id = 1;
  page_idx = 0;
  row_id = r;
  element_size = 8;
  values_per_page = 512;
  row_data = replicate 8 b;
}

apart : (i : ℕ) → (covers (row_set 2 7 ∷ []) i ≡ false) ⊎ (covers (row_set 3 1 ∷ []) i ≡ false)
apart i = elim (Bool-cases (ltb i 24)) [
  | inl low ↦ inr (ground arith)
  | inr high ↦ inl (ground arith)
]

merge_page_comm_example :
    (merge_page (merge_page empty_page (row_set 2 7 ∷ [])) (row_set 3 1 ∷ [])
      ≡ merge_page (merge_page empty_page (row_set 3 1 ∷ [])) (row_set 2 7 ∷ []))
    × ((i : ℕ)
        → get_or (merge_page (merge_page empty_page (row_set 2 7 ∷ [])) (row_set 3 1 ∷ [])) i 0 ≡ (
            if covers (row_set 2 7 ∷ []) i
            then last_written i (row_set 2 7 ∷ []) 0
            else if covers (row_set 3 1 ∷ []) i
            then last_written i (row_set 3 1 ∷ []) 0
            else get_or empty_page i 0))
merge_page_comm_example =
    merge_page_comm empty_page (row_set 2 7 ∷ []) (row_set 3 1 ∷ []) (omega arith, tt)
      (omega arith, tt) (length-replicate {A = ℕ} 4096 0) apart

abbrev one_file : Pages
one_file k = if k.0 == 1 then some empty_page else none

-- Rows of two pages.
abbrev two_pages : List PageRowMod
two_pages = row_set 2 7 ∷ record (row_set 600 5) { page_idx = 1 } ∷ row_set 3 1 ∷ []

merge_commit-pages_example :
    (merge_commit reverse one_file two_pages).pages (1, 0)
    ≡ merged_with (mods_of (1, 0) two_pages) (one_file (1, 0))
merge_commit-pages_example = merge_commit-pages reverse Permᴰ.reverse one_file two_pages (1, 0)
