-- ===== src/Csr/Built.antt =====
-- crates/lightning-core/src/storage/index/csr.rs, `build` and `for_each_base_neighbor`: an index is built
-- from edges and read.
use lightning_db.Prelude.{
  ℕ, zero, suc, ◌+◌, ◌-◌, ◌*◌, ◌/◌, ◌^◌, ◌++◌, ◌==◌, ◌≤◌, ◌<◌, ◌≡◌, refl, ap, ap₂, sym, subst, ◌∙◌,
  true, false, List, [], ◌∷◌, map, arith, leb, ltb, Bool-cases, inl, inr, length, get_or, take,
  drop, All, some, ok, ◌>>=◌, length-map,
}
use mathlib.Core.Option
use mathlib.Core.List.{append-nil}
use lightning_db.Csr.{
  FileHandle, Edge, CsrIndex, new, page_size, max_csr_nodes, checked_offset_slots, u64_at,
  values_from, kept, for_each_base_neighbor, for_each_pending_neighbor, get_neighbors,
}
use lightning_db.Csr.Base.{
  base_neighbor_lem, for_each_base_neighbor-one_page, first_entry, last_entry,
}
use lightning_db.Csr.Build.{
  insert_by_source, sort_by_source, write_values, write_csr_header, csr_offset_magic, csr_adj_magic,
  build,
}
use lightning_db.Csr.Sorting.{
  targets, below, ends_of_sorted, below-sort_by_source, below-le, below_mono,
}
use lightning_db.Csr.Offsets.{offsets_of, length-offsets_of, get_or-offsets_of}
use lightning_db.Csr.Writes.{
  IsWhole, write_values-num_pages, u64_at-write_values, values_from-write_values, kept_plain,
}

-- No end of an edge has the mark of a deletion.
abbrev pub IsUnmarked : List Edge → Type 0
IsUnmarked = All (λ (e : Edge). e.1 < 2 ^ 63)

insert_by_source-IsUnmarked :
    (e : Edge) (edges : List Edge)
    → e.1 < 2 ^ 63
    → IsUnmarked edges
    → IsUnmarked (insert_by_source e edges)
unfolding insert_by_source
insert_by_source-IsUnmarked e [] h rest = (h, tt)
insert_by_source-IsUnmarked e (x ∷ edges) h rest = elim (Bool-cases (leb e.0 x.0)) [
  | inl first ↦ rw first (h, rest)
  | inr later ↦ rw later (rest.0, insert_by_source-IsUnmarked e edges h rest.1)
]

sort_by_source-IsUnmarked :
    (edges : List Edge) → IsUnmarked edges → IsUnmarked (sort_by_source edges)
unfolding sort_by_source
sort_by_source-IsUnmarked [] h = tt
sort_by_source-IsUnmarked (e ∷ edges) h =
    insert_by_source-IsUnmarked e (sort_by_source edges) h.0 (sort_by_source-IsUnmarked edges h.1)

targets_small :
    (node : ℕ) (edges : List Edge) → IsUnmarked edges → All (λ v. v < 2 ^ 63) (targets node edges)
targets_small node [] h = tt
targets_small node (e ∷ edges) h = elim (Bool-cases (e.0 == node)) [
  | inl same ↦ rw same (h.0, targets_small node edges h.1)
  | inr other ↦ rw other (targets_small node edges h.1)
]

ends_small :
    (edges : List Edge) (t : ℕ)
    → IsUnmarked edges
    → get_or (map (λ (e : Edge). e.1) edges) t 0 < 256 ^ 8
ends_small [] t h = omega arith
ends_small (e ∷ edges) zero h = omega (arith, h.0)
ends_small (e ∷ edges) (suc t) h = ends_small edges t h.1

offsets_small :
    (n : ℕ) (edges : List Edge) (t : ℕ)
    → length edges < 256 ^ 8
    → t < n + 2
    → get_or (offsets_of n edges) t 0 < 256 ^ 8
offsets_small n edges t h p = omega (arith, get_or-offsets_of n edges t p, below-le t edges)

pub checked_offset_slots_fits :
    (n : ℕ) → n + 2 ≤ max_csr_nodes → checked_offset_slots n ≡ ok (n + 2)
unfolding checked_offset_slots
checked_offset_slots_fits n h =
    let in_range : ltb (2 ^ 64 - 1) (n + 2) ≡ false = ground arith in
    let few : ltb max_csr_nodes (n + 2) ≡ false = ground arith in rw (in_range, few) refl

module _ (offset_fh adj_fh : FileHandle) (edges : List Edge) (n node : ℕ) where
  abbrev built_index : CsrIndex
  built_index =
      new (write_values offset_fh 0 (offsets_of n edges))
        (write_values adj_fh 0 (map (λ (e : Edge). e.1) (sort_by_source edges)))

  module _ (few : length edges < 256 ^ 8) where
    entry_at :
        (i : ℕ)
        → i < n + 2
        → IsWhole i
        → u64_at (write_values offset_fh 0 (offsets_of n edges)) (12 + i * 8) ≡ below i edges
    entry_at i h whole =
        u64_at-write_values offset_fh (offsets_of n edges) i
          (omega (arith, length-offsets_of n edges)) whole (offsets_small n edges i few h)
        ∙ get_or-offsets_of n edges i h

  module _ (unmarked : IsUnmarked edges) where
    ends_at :
        (k : ℕ)
        → 512 * k ≤ below node edges + 1
        → below (suc node) edges ≤ 512 * k + 510
        → values_from
            (write_values adj_fh 0 (map (λ (e : Edge). e.1) (sort_by_source edges)))
            (below (suc node) edges - below node edges)
            (12 + below node edges * 8)
          ≡ targets node edges
    ends_at k lo hi =
        let sorted : List Edge = sort_by_source edges in
        values_from-write_values adj_fh (map (λ (e : Edge). e.1) sorted)
          (below (suc node) edges - below node edges) (below node edges)
          (omega (
            arith,
            length-map sorted (λ (e : Edge). e.1),
            below-le (suc node) sorted,
            below-sort_by_source (suc node) edges,
            below_mono node edges,
          ))
          (λ t a b c. omega (arith, a, b, c, lo, hi, below_mono node edges))
          (λ t. ends_small sorted t (sort_by_source-IsUnmarked edges unmarked))
        ∙ ends_of_sorted edges node

  module _ (few : length edges < 256 ^ 8) (unmarked : IsUnmarked edges) (in_table : node ≤ n)
      (whole : IsWhole node) (whole' : IsWhole (suc node)) where
    first_lem : first_entry built_index node ≡ below node edges
    unfolding new
    first_lem = entry_at few node (omega (arith, in_table)) whole

    last_lem : last_entry built_index node ≡ below (suc node) edges
    unfolding new
    last_lem =
        ap (λ (i : ℕ). u64_at (write_values offset_fh 0 (offsets_of n edges)) (12 + i * 8))
          (let e : node + 1 ≡ suc node = omega arith in e)
        ∙ entry_at few (suc node) (omega (arith, in_table)) whole'

    in_file_lem : (12 + node * 8) / page_size < built_index.offset_fh.num_pages
    unfolding new
    in_file_lem =
        let there =
          write_values-num_pages offset_fh 0 (offsets_of n edges) node
            (omega (arith, in_table, length-offsets_of n edges)) in
        subst
          (λ (i : ℕ).
            (12 + i * 8) / page_size < (write_values offset_fh 0 (offsets_of n edges)).num_pages)
          (let e : 0 + node ≡ node = omega arith in e) there

    no_ends : leb (below (suc node) edges) (below node edges) ≡ true → targets node edges ≡ []
    no_ends empty =
        let stops : below (suc node) edges - below node edges ≡ 0 = ground (arith, empty) in
        sym (ends_of_sorted edges node)
        ∙ ap
            (λ (m : ℕ).
              take m (drop (below node edges) (map (λ (e : Edge). e.1) (sort_by_source edges))))
            stops

    reported :
        (k fuel : ℕ)
        → 512 * k ≤ below node edges + 1
        → below (suc node) edges ≤ 512 * k + 510
        → for_each_base_neighbor built_index (suc (suc fuel)) node ≡ some (targets node edges)
    unfolding new
    reported k fuel lo hi = elim (Bool-cases (leb (below (suc node) edges) (below node edges))) [
      | inl empty ↦
          let empty' : leb (last_entry built_index node) (first_entry built_index node) ≡ true =
            ap₂ leb last_lem first_lem ∙ empty in
          base_neighbor_lem built_index node in_file_lem (suc (suc fuel))
          ∙ rw empty' (ap some (sym (no_ends empty)))
      | inr some_edges ↦
          for_each_base_neighbor-one_page built_index node in_file_lem fuel k
            (ground (arith, first_lem, last_lem, some_edges)) (omega (arith, first_lem, lo))
            (omega (arith, last_lem, hi))
          ∙ ap some (
              ap₂
                (λ (a b : ℕ).
                  kept [] node (values_from built_index.adj_node_fh (b - a) (12 + a * 8)))
                first_lem last_lem
              ∙ ap (kept [] node) (ends_at unmarked k lo hi)
              ∙ kept_plain node (targets node edges) (targets_small node edges unmarked))
    ]

    pub reported_all :
        (k fuel : ℕ)
        → 512 * k ≤ below node edges + 1
        → below (suc node) edges ≤ 512 * k + 510
        → get_neighbors built_index (suc (suc fuel)) node ≡ some (targets node edges)
    unfolding new get_neighbors for_each_pending_neighbor
    reported_all k fuel lo hi =
        ap (Option.map (λ base. base ++ [])) (reported k fuel lo hi)
        ∙ ap some (append-nil (targets node edges))

-- An index is built from the edges of a graph whose size fits the table, with ends below 2^63, whatever
-- the two files held before. When the two offsets of a node are not entries that two pages share, and
-- the edges of the node stand in one page of the adjacency file, the build succeeds, two rounds of the
-- iteration end, and the neighbors of the node are the ends of its edges, in the order of the list of
-- edges.
pub get_neighbors-build :
    (checksum : List ℕ → ℕ) (offset_fh adj_fh : FileHandle) (edges : List Edge) (n node k fuel : ℕ)
    → IsUnmarked edges
    → length edges < 256 ^ 8
    → n + 2 ≤ max_csr_nodes
    → node ≤ n
    → IsWhole node
    → IsWhole (suc node)
    → 512 * k ≤ below node edges + 1
    → below (suc node) edges ≤ 512 * k + 510
    → (build checksum offset_fh adj_fh edges n >>= λ files.
        ok (get_neighbors (new files.0 files.1) (suc (suc fuel)) node))
      ≡ ok (some (targets node edges))
unfolding build
get_neighbors-build checksum offset_fh adj_fh edges n node k fuel unmarked few fits inside whole
      whole' lo hi =
    rw (checked_offset_slots_fits n fits) (
      ap ok (
        reported_all (write_csr_header checksum offset_fh csr_offset_magic)
          (write_csr_header checksum adj_fh csr_adj_magic) edges n node few unmarked inside whole
          whole' k fuel lo hi))
