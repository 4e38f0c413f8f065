-- ===== src/Csr/Compaction.antt =====
-- crates/lightning-core/src/storage/index/csr.rs: the scan of all edges, and compaction. A vector is
-- never refused its memory, and a file has fewer than 2^51 pages, so that the products do not wrap. The
-- fuel of `read_u64_batch` is a round for each byte, which is enough by `batch_loop-total`.
use Prim.Native.Nat.{bit_and}
use lightning_db.Prelude.Bytes.{from_le_bytes}
use lightning_db.Prelude.{
  ℕ, zero, suc, ◌+◌, ◌-◌, ◌*◌, ◌/◌, ◌^◌, min, max, Bool, true, false, not, ◌&&◌, Option, none, some,
  List, [], ◌∷◌, ◌++◌, ltb, leb, ◌==◌, if◌then◌else◌, length, get_or, take, drop, Result, ok, err,
  ◌>>=◌,
}
use lightning_db.Csr.{
  FileHandle, Edge, CsrIndex, CsrError, bad_magic, bad_version, bad_checksum, out_of_fuel,
  page_size, deleted_bit, csr_header_size, csr_offset_byte, slice, read_u64_batch, contains_edge,
  needs_compaction,
}
use lightning_db.Csr.Build.{csr_offset_magic, csr_adj_magic, csr_version, build}

abbrev eq_bytes : List ℕ → List ℕ → Bool
eq_bytes [] [] = true
eq_bytes (x ∷ xs) (y ∷ ys) = x == y && eq_bytes xs ys
eq_bytes _ _ = false

unfoldable pub set_base_edge_count : CsrIndex → ℕ → CsrIndex
set_base_edge_count csr count = record csr { base_edge_count = count }

-- One more than the last place whose offset is below the next; `count` is the one found before.
unfoldable pub last_increase : ℕ → ℕ → List ℕ → ℕ
last_increase i count [] = count
last_increase i count (a ∷ []) = count
last_increase i count (a ∷ b ∷ offsets) =
    last_increase (suc i) (if ltb a b then i + 1 else count) (b ∷ offsets)

unfoldable pub live_edges : ℕ → List ℕ → List Edge
live_edges src [] = []
live_edges src (val ∷ values) =
    if bit_and val deleted_bit == 0
    then (src, val) ∷ live_edges src values
    else live_edges src values

-- The loop over the sources; the first argument is how many are left.
unfoldable pub scan_nodes : ℕ → ℕ → ℕ → List ℕ → List ℕ → List Edge
scan_nodes zero src pos offsets adj_values = []
scan_nodes (suc n) src pos offsets adj_values =
    if leb (length offsets) (src + 1)
    then []
    else let end = get_or offsets (src + 1) 0 in
      live_edges src (take (end - pos) (drop pos adj_values))
      ++ scan_nodes n (suc src) end offsets adj_values

unfoldable pub retain_edges : List Edge → List Edge → List Edge
retain_edges deletions [] = []
retain_edges deletions (e ∷ edges) =
    if contains_edge deletions e
    then retain_edges deletions edges
    else e ∷ retain_edges deletions edges

unfoldable pub highest_source : List Edge → ℕ
highest_source [] = 0
highest_source (e ∷ edges) = max e.0 (highest_source edges)

abbrev finished : Option (List ℕ) → Result CsrError (List ℕ)
finished none = err out_of_fuel
finished (some values) = ok values

abbrev pub read_values : FileHandle → ℕ → ℕ → Result CsrError (List ℕ)
read_values fh start_byte end_byte =
    finished (read_u64_batch fh (suc (fh.num_pages * page_size)) start_byte end_byte)

-- The scan from the table of offsets on.
unfoldable pub scan_adjacency : CsrIndex → List ℕ → Result CsrError (List Edge)
scan_adjacency csr offsets =
    let num_nodes = last_increase 0 0 offsets in
    let total_adj = get_or offsets num_nodes 0 in
    let adj_end = min (csr_header_size + min (total_adj * 8) (2 ^ 64 - 1)) (2 ^ 64 - 1) in
    if ltb (length offsets) 2
    then ok []
    else if total_adj == 0
    then ok []
    else read_values csr.adj_node_fh csr_header_size adj_end >>= λ adj_values.
        ok (scan_nodes num_nodes 0 0 offsets adj_values)

-- `checksum` is CRC-32C.
module _ (checksum : List ℕ → ℕ) where
  unfoldable pub validate_csr_header : FileHandle → List ℕ → Result CsrError (Unit {0})
  unfolding from_le_bytes
  validate_csr_header fh expected_magic =
      if not (eq_bytes (slice fh 0 4) expected_magic)
      then err bad_magic
      else if not (fh.byte_at 4 == csr_version)
      then err bad_version
      else if not (checksum (slice fh 0 8) == from_le_bytes (slice fh 8 4))
      then err bad_checksum
      else ok tt

  unfoldable pub scan_edges_from_csr : CsrIndex → Result CsrError (List Edge)
  scan_edges_from_csr csr =
      let file_bytes = csr.offset_fh.num_pages * page_size in
      let max_entries = (file_bytes - csr_header_size) / 8 in
      if csr.offset_fh.num_pages == 0
      then ok []
      else validate_csr_header csr.offset_fh csr_offset_magic >>= λ _.
          (if ltb 0 csr.adj_node_fh.num_pages
            then validate_csr_header csr.adj_node_fh csr_adj_magic
            else ok tt)
          >>= λ _.
              read_values csr.offset_fh csr_header_size
                (min (csr_offset_byte (max_entries + 1)) file_bytes)
              >>= λ offsets. scan_adjacency csr offsets

  unfoldable pub collect_all_edges : CsrIndex → Result CsrError (List Edge)
  collect_all_edges csr = scan_edges_from_csr csr >>= λ base_edges.
      (let all_edges = base_edges ++ csr.pending_edges in
        ok (
          if length csr.pending_deletions == 0
          then all_edges
          else retain_edges csr.pending_deletions all_edges))

  -- An error leaves the index as it was.
  unfoldable pub compact : CsrIndex → Result CsrError CsrIndex
  compact csr = collect_all_edges csr >>= λ all_edges.
      if length all_edges == 0
      then ok csr
      else build checksum csr.offset_fh csr.adj_node_fh all_edges (highest_source all_edges)
        >>= λ files. ok record {
          offset_fh = files.0;
          adj_node_fh = files.1;
          pending_edges = [];
          pending_deletions = [];
          base_edge_count = length all_edges;
          deletion_count = 0;
        }

  unfoldable pub compact_if_needed : CsrIndex → Result CsrError CsrIndex
  compact_if_needed csr = if needs_compaction csr then compact csr else ok csr

  unfoldable pub recover_from_base : CsrIndex → Result CsrError CsrIndex
  recover_from_base csr =
      scan_edges_from_csr csr >>= λ edges. ok (set_base_edge_count csr (length edges))
