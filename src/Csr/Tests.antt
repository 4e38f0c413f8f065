-- ===== src/Csr/Tests.antt =====
-- The theorems about the adjacency index at small files.
use lightning_db.Prelude.{
  List, ltb, leb, ◌&&◌, get_or, ◌+◌, ◌^◌, ok, ◌>>=◌, ℕ, ◌*◌, ◌%◌, ◌≡◌, refl, none, some, [], ◌∷◌,
  ◌==◌, if◌then◌else◌, arith,
}
use lightning_db.Prelude.Bytes.{from_le_bytes}
use lightning_db.Csr.{
  csr_offset_byte, read_u64_batch, batch_loop, FileHandle, CsrIndex, Edge, new, u64_at, values_from,
  kept, contains_edge, for_each_base_neighbor, get_neighbors, for_each_pending_neighbor,
  delete_edge,
}
use lightning_db.Csr.Base.{for_each_base_neighbor-hangs}
use lightning_db.Csr.Build.{build}
use lightning_db.Csr.Compacted.{compact-brings_back}
use lightning_db.Csr.Keeps.{compact-keeps_edges}
use lightning_db.Csr.Finishing.{Finishes, calls-Finishes}
use lightning_db.Csr.Compaction.{
  collect_all_edges, compact, compact_if_needed, recover_from_base, scan_edges_from_csr,
  validate_csr_header, scan_adjacency, last_increase, live_edges, retain_edges, scan_nodes,
  highest_source,
}
use lightning_db.Csr.Built.{get_neighbors-build}
use lightning_db.Csr.Pending.{inserts, changes, Lacks, deleted_edge_stays_deleted}

-- Two bytes at position 20, which is the end of node 0's entries; the rest is zero.
abbrev offsets : ℕ → ℕ → FileHandle
offsets low high = record {
  num_pages = 1;
  byte_at = λ p. if p == 20 then low else if p == 21 then high else 0;
}

-- Entry i is the node i % 32.
abbrev adjacency : FileHandle
adjacency = record { num_pages = 4; byte_at = λ p. if p % 8 == 4 then p % 256 else 0 }

abbrev graph : ℕ → ℕ → CsrIndex
graph low high = record {
  offset_fh = offsets low high;
  adj_node_fh = adjacency;
  pending_edges = [];
  pending_deletions = (0, 20) ∷ [];
  base_edge_count = 3;
  deletion_count = 1;
}

three_neighbors : for_each_base_neighbor (graph 3 0) 2 0 ≡ some (12 ∷ 28 ∷ [])
unfolding for_each_base_neighbor values_from u64_at kept contains_edge
three_neighbors = refl

-- Node 0 with 600 neighbors.
for_each_base_neighbor-hangs_example : for_each_base_neighbor (graph 88 2) 1_000_000 0 ≡ none
unfolding u64_at
for_each_base_neighbor-hangs_example =
    for_each_base_neighbor-hangs (graph 88 2) 0 (omega arith) 510 refl (omega arith) (omega arith)
      1_000_000

entry_510_differs :
    (u64_at adjacency 4092 ≡ 252) × (u64_at adjacency 4096 ≡ 4 * 256 * 256 * 256 * 256)
unfolding u64_at
entry_510_differs = (refl, refl)

deleted_edge_stays_deleted_example :
    Lacks 12 (get_neighbors (changes (delete_edge (graph 3 0) (0, 12)) (inserts (0, 12) ∷ [])) 2 0)
deleted_edge_stays_deleted_example =
    deleted_edge_stays_deleted (graph 3 0) 0 12 (inserts (0, 12) ∷ []) 2

abbrev sum_bytes : List ℕ → ℕ
sum_bytes [] = 0
sum_bytes (b ∷ bytes) = (b + sum_bytes bytes) % 2 ^ 32

abbrev edges_unsorted : List Edge
edges_unsorted = (2, 7) ∷ (0, 5) ∷ (2, 9) ∷ (0, 6) ∷ []

get_neighbors-build_example :
    (build sum_bytes (offsets 3 0) adjacency edges_unsorted 2 >>= λ files.
    ok (get_neighbors (new files.0 files.1) 2 2))
    ≡ ok (some (7 ∷ 9 ∷ []))
get_neighbors-build_example =
    get_neighbors-build sum_bytes (offsets 3 0) adjacency edges_unsorted 2 2 0 0
      (omega arith, (omega arith, (omega arith, (omega arith, tt)))) (omega arith) (omega arith)
      (omega arith) (omega arith) (omega arith) (omega arith) (omega arith)

-- The files of the edges (0, 7) and (5, 8).
abbrev offset_file : FileHandle
offset_file = record {
  num_pages = 1;
  byte_at = λ p.
      if ltb p 12
      then get_or (67 ∷ 83 ∷ 82 ∷ 79 ∷ 1 ∷ 0 ∷ 0 ∷ 0 ∷ 56 ∷ 1 ∷ 0 ∷ 0 ∷ []) p 0
      else if p % 8 == 4 && leb 20 p && ltb p 68
      then (if p == 60 then 2 else 1)
      else 0;
}

abbrev adj_file : FileHandle
adj_file = record {
  num_pages = 1;
  byte_at = λ p.
      get_or
        (67 ∷ 83 ∷ 82 ∷ 65 ∷ 1 ∷ 0 ∷ 0 ∷ 0 ∷ 42 ∷ 1 ∷ 0 ∷ 0 ∷ 7 ∷ 0 ∷ 0 ∷ 0 ∷ 0 ∷ 0 ∷ 0 ∷ 0 ∷ 8
          ∷ [])
        p 0;
}

abbrev one_deleted : CsrIndex
one_deleted = record {
  offset_fh = offset_file;
  adj_node_fh = adj_file;
  pending_edges = [];
  pending_deletions = (5, 8) ∷ [];
  base_edge_count = 2;
  deletion_count = 1;
}

scanned : scan_edges_from_csr sum_bytes one_deleted ≡ ok ((0, 7) ∷ (5, 8) ∷ [])
unfolding scan_edges_from_csr csr_offset_byte validate_csr_header read_u64_batch scan_adjacency
    values_from last_increase live_edges scan_nodes batch_loop u64_at from_le_bytes
scanned = refl

remaining : collect_all_edges sum_bytes one_deleted ≡ ok ((0, 7) ∷ [])
unfolding collect_all_edges retain_edges contains_edge
remaining = rw scanned refl

-- With an edge that is not compacted.
abbrev one_inserted : CsrIndex
one_inserted = record one_deleted { pending_edges = (0, 9) ∷ [] }

compact-keeps_edges_example :
    (compact sum_bytes one_inserted >>= λ csr. ok (get_neighbors csr 2 0)) ≡ ok (some (7 ∷ 9 ∷ []))
unfolding scan_edges_from_csr csr_offset_byte contains_edge retain_edges highest_source
    scan_adjacency for_each_pending_neighbor
compact-keeps_edges_example =
    compact-keeps_edges sum_bytes one_inserted ((0, 7) ∷ (5, 8) ∷ []) (0, 7) ((0, 9) ∷ []) 0 0 0
      scanned refl (omega arith, (omega arith, tt)) (omega arith, tt) (omega arith) (omega arith)
      (omega arith) (omega arith) (omega arith) (omega arith) (omega arith)

-- The deleted edge (5, 8) is back.
compact-brings_back_example :
    (compact sum_bytes one_deleted >>= λ csr. ok (get_neighbors csr 2 5)) ≡ ok (some (8 ∷ []))
unfolding for_each_base_neighbor u64_at values_from kept contains_edge highest_source from_le_bytes
compact-brings_back_example =
    compact-brings_back sum_bytes one_deleted (0, 7) [] 5 2 remaining (omega arith) (omega arith)
      (omega arith) (omega arith)

calls-Finishes_example :
    Finishes (compact sum_bytes one_deleted)
    × (Finishes (compact_if_needed sum_bytes one_deleted)
        × Finishes (recover_from_base sum_bytes one_deleted))
calls-Finishes_example = calls-Finishes sum_bytes one_deleted
