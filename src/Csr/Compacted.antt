-- ===== src/Csr/Compacted.antt =====
-- crates/lightning-core/src/storage/index/csr.rs, `compact`: what is read after a compaction.
use mathlib.Core.Option
use mathlib.Core.List.{append-nil}
use lightning_db.Prelude.{
  ℕ, ◌+◌, ◌*◌, ◌/◌, ◌≤◌, ◌<◌, ◌≡◌, ◌==◌, false, refl, ap, ◌∙◌, List, [], ◌∷◌, ◌++◌, map, arith,
  length, length-map, Option, some, none, ok, ◌>>=◌,
}
use lightning_db.Csr.{
  Edge, CsrIndex, page_size, max_csr_nodes, for_each_base_neighbor, for_each_pending_neighbor,
  get_neighbors,
}
use lightning_db.Csr.Base.{first_entry}
use lightning_db.Csr.Build.{
  sort_by_source, build, csr_offset_magic, csr_adj_magic, write_values, write_csr_header,
}
use lightning_db.Csr.Built.{checked_offset_slots_fits}
use lightning_db.Csr.Sorting.{length-sort_by_source}
use lightning_db.Csr.Offsets.{offsets_of, length-offsets_of}
use lightning_db.Csr.Stale.{written-SameFrom, written-num_pages_le, for_each_base_neighbor_same}
use lightning_db.Csr.Compaction.{collect_all_edges, compact, highest_source}

map-append_nil : (r : Option (List ℕ)) → Option.map (λ base. base ++ []) r ≡ r
map-append_nil none = refl
map-append_nil (some base) = ap some (append-nil base)

-- The index that a compaction to these edges leaves.
abbrev pub compacted : (List ℕ → ℕ) → CsrIndex → List Edge → CsrIndex
compacted checksum csr edges = record {
  offset_fh =
      write_values (write_csr_header checksum csr.offset_fh csr_offset_magic) 0
        (offsets_of (highest_source edges) edges);
  adj_node_fh =
      write_values (write_csr_header checksum csr.adj_node_fh csr_adj_magic) 0
        (map (λ (e : Edge). e.1) (sort_by_source edges));
  pending_edges = [];
  pending_deletions = [];
  base_edge_count = length edges;
  deletion_count = 0;
}

pub compact_lem :
    (checksum : List ℕ → ℕ) (csr : CsrIndex) (e : Edge) (edges : List Edge)
    → collect_all_edges checksum csr ≡ ok (e ∷ edges)
    → highest_source (e ∷ edges) + 2 ≤ max_csr_nodes
    → compact checksum csr ≡ ok (compacted checksum csr (e ∷ edges))
unfolding compact build
compact_lem checksum csr e edges collected fits =
    let some_edges : (length (e ∷ edges) == 0) ≡ false = ground arith in
    rw (collected, some_edges, checked_offset_slots_fits (highest_source (e ∷ edges)) fits) refl

-- When some edges remain, fit the table, start at two or more below a node whose offset is in the file,
-- and are at most as many as the entries before the node's own, a compaction succeeds and the neighbors
-- of the node are then all that its entries held before, those of its deleted edges included.
pub compact-brings_back :
    (checksum : List ℕ → ℕ) (csr : CsrIndex) (e : Edge) (edges : List Edge) (node fuel : ℕ)
    → collect_all_edges checksum csr ≡ ok (e ∷ edges)
    → highest_source (e ∷ edges) + 2 ≤ max_csr_nodes
    → highest_source (e ∷ edges) + 2 ≤ node
    → length (e ∷ edges) ≤ first_entry csr node
    → (12 + node * 8) / page_size < csr.offset_fh.num_pages
    → (compact checksum csr >>= λ csr'. ok (get_neighbors csr' fuel node))
      ≡ ok (for_each_base_neighbor (record csr { pending_deletions = [] }) fuel node)
unfolding get_neighbors for_each_pending_neighbor
compact-brings_back checksum csr e edges node fuel collected fits past behind inside =
    let all : List Edge = e ∷ edges in
    let n : ℕ = highest_source all in
    let ends : List ℕ = map (λ (x : Edge). x.1) (sort_by_source all) in
    let count : length ends ≡ length all =
      length-map (sort_by_source all) (λ (x : Edge). x.1) ∙ length-sort_by_source all in
    rw (compact_lem checksum csr e edges collected fits) (
      ap ok (
        map-append_nil (for_each_base_neighbor (compacted checksum csr all) fuel node)
        ∙ for_each_base_neighbor_same (compacted checksum csr all)
            (record csr { pending_deletions = [] }) (12 + length ends * 8)
            (written-SameFrom checksum csr.adj_node_fh csr_adj_magic (omega arith) ends) refl node
            (12 + length (offsets_of n all) * 8)
            (written-SameFrom checksum csr.offset_fh csr_offset_magic (omega arith)
              (offsets_of n all))
            fuel (omega (arith, length-offsets_of n all, past)) (omega (arith, count, behind))
            inside
            (written-num_pages_le checksum csr.offset_fh csr_offset_magic (omega arith)
              (offsets_of n all))))
