-- ===== src/Csr.antt =====
-- crates/lightning-core/src/storage/index/csr.rs: the adjacency index of the graph. A file is a function
-- from positions to bytes, with a number of pages of 4096 bytes; the pins of the buffer manager succeed.
-- `None` of the loops is fuel that ran out.
mod Reads
mod Base
mod Pending
mod Build
mod Sorting
mod Offsets
mod Writes
mod Built
mod Compaction
mod Stale
mod Compacted
mod Finishing
mod Keeps
mod Tests
use Prim.Native.Nat.{bit_and}
use mathlib.Core.Option
use lightning_db.Prelude.Bytes.{from_le_bytes}
use lightning_db.Prelude.{
  ℕ, zero, suc, ◌+◌, ◌-◌, ◌*◌, ◌/◌, ◌%◌, ◌^◌, min, Bool, true, false, not, ◌&&◌, ◌||◌, Option, none,
  some, List, [], ◌∷◌, ◌++◌, map, ltb, leb, ◌==◌, if◌then◌else◌, length, count_up, Result, ok, err,
}

abbrev pub page_size : ℕ
page_size = 4096

abbrev pub deleted_bit : ℕ
deleted_bit = 2 ^ 63

abbrev pub csr_header_size : ℕ
csr_header_size = 12

abbrev pub max_csr_nodes : ℕ
max_csr_nodes = 2 ^ 27

pub record FileHandle : Type 0 where
  pub num_pages : ℕ
  pub byte_at : ℕ → ℕ

abbrev pub Edge : Type 0
Edge = ℕ × ℕ

pub record CsrIndex : Type 0 where
  pub offset_fh : FileHandle
  pub adj_node_fh : FileHandle
  pub pending_edges : List Edge
  pub pending_deletions : List Edge
  pub base_edge_count : ℕ
  pub deletion_count : ℕ

unfoldable pub new : FileHandle → FileHandle → CsrIndex
new offset_fh adj_node_fh = record {
  offset_fh = offset_fh;
  adj_node_fh = adj_node_fh;
  pending_edges = [];
  pending_deletions = [];
  base_edge_count = 0;
  deletion_count = 0;
}

pub data CsrError : Type 0 where
  overflows too_many_nodes bad_magic bad_version bad_checksum out_of_fuel : CsrError

unfoldable pub checked_offset_slots : ℕ → Result CsrError ℕ
checked_offset_slots num_nodes =
    if ltb (2 ^ 64 - 1) (num_nodes + 2)
    then err overflows
    else if ltb max_csr_nodes (num_nodes + 2)
    then err too_many_nodes
    else ok (num_nodes + 2)

unfoldable pub bounded_value_count : ℕ → ℕ → ℕ → ℕ
bounded_value_count start_byte end_byte file_bytes =
    let end = min end_byte file_bytes in if leb end start_byte then 0 else (end - start_byte) / 8

unfoldable pub csr_offset_byte : ℕ → ℕ
csr_offset_byte node_id = csr_header_size + node_id * 8

abbrev pub slice : FileHandle → ℕ → ℕ → List ℕ
slice fh start n = map fh.byte_at (count_up n start)

unfoldable pub u64_at : FileHandle → ℕ → ℕ
unfolding from_le_bytes
u64_at fh byte_pos = from_le_bytes (slice fh byte_pos 8)

unfoldable pub read_u64_at : FileHandle → ℕ → ℕ
unfolding u64_at from_le_bytes
read_u64_at fh byte_pos =
    let page_idx = byte_pos / page_size in
    let offset_in_page = byte_pos % page_size in
    if leb (offset_in_page + 8) page_size
    then u64_at fh byte_pos
    else let first_part = page_size - offset_in_page in
      from_le_bytes
        (slice fh byte_pos first_part ++ slice fh ((page_idx + 1) * page_size) (8 - first_part))

-- The values at n places from a position on.
unfoldable pub values_from : FileHandle → ℕ → ℕ → List ℕ
values_from fh zero byte_pos = []
values_from fh (suc n) byte_pos = u64_at fh byte_pos ∷ values_from fh n (byte_pos + 8)

-- The loop of `read_u64_batch`, page by page.
unfoldable pub batch_loop : FileHandle → ℕ → ℕ → ℕ → Option (List ℕ)
batch_loop fh zero byte_pos end_byte = none
batch_loop fh (suc fuel) byte_pos end_byte =
    let bytes_in_page = min (page_size - byte_pos % page_size) (end_byte - byte_pos) in
    let rest = batch_loop fh fuel (byte_pos + bytes_in_page) end_byte in
    if ltb byte_pos end_byte
    then Option.map (λ values. values_from fh (bytes_in_page / 8) byte_pos ++ values) rest
    else some []

unfoldable pub read_u64_batch : FileHandle → ℕ → ℕ → ℕ → Option (List ℕ)
unfolding batch_loop
read_u64_batch fh fuel start_byte end_byte =
    if leb end_byte start_byte
    then some []
    else let clamped = min end_byte (fh.num_pages * page_size) in
      if leb clamped start_byte then some [] else batch_loop fh fuel start_byte clamped

abbrev edge_eq : Edge → Edge → Bool
edge_eq a b = a.0 == b.0 && a.1 == b.1

unfoldable pub contains_edge : List Edge → Edge → Bool
contains_edge [] e = false
contains_edge (x ∷ edges) e = edge_eq x e || contains_edge edges e

unfoldable pub insert_edge : CsrIndex → Edge → CsrIndex
insert_edge csr e = record csr { pending_edges = csr.pending_edges ++ e ∷ [] }

unfoldable pub insert_batch : CsrIndex → List Edge → CsrIndex
insert_batch csr edges = record csr { pending_edges = csr.pending_edges ++ edges }

unfoldable pub delete_edge : CsrIndex → Edge → CsrIndex
delete_edge csr e = record csr {
  pending_deletions = csr.pending_deletions ++ e ∷ [];
  deletion_count = (csr.deletion_count + 1) % 2 ^ 64;
}

unfoldable pub needs_compaction : CsrIndex → Bool
needs_compaction csr =
    let pending = length csr.pending_edges in
    let deleted = csr.deletion_count in
    let base = csr.base_edge_count in
    if pending == 0 && deleted == 0
    then false
    else if base == 0
    then ltb 0 pending || ltb 0 deleted
    else ltb (base / 10) pending || ltb (base / 10) deleted

-- What is reported for one value of the adjacency file.
abbrev keep_neighbor : List Edge → ℕ → ℕ → List ℕ → List ℕ
keep_neighbor deletions node_id val rest =
    let neighbor = bit_and val (2 ^ 64 - 1 - deleted_bit) in
    if not (bit_and val deleted_bit == 0)
    then rest
    else if contains_edge deletions (node_id, neighbor)
    then rest
    else neighbor ∷ rest

unfoldable pub kept : List Edge → ℕ → List ℕ → List ℕ
kept deletions node_id [] = []
kept deletions node_id (val ∷ values) =
    keep_neighbor deletions node_id val (kept deletions node_id values)

-- The loop over the adjacency file from entry i.
unfoldable pub base_loop : CsrIndex → ℕ → ℕ → ℕ → ℕ → Option (List ℕ)
base_loop csr node_id zero i end = none
base_loop csr node_id (suc fuel) i end =
    let adj_byte = csr_header_size + i * 8 in
    let remaining_in_page = (page_size - adj_byte % page_size) / 8 in
    let to_read = min (end - i) remaining_in_page in
    let rest = base_loop csr node_id fuel (i + to_read) end in
    if ltb i end
    then Option.map
        (λ neighbors.
          kept csr.pending_deletions node_id (values_from csr.adj_node_fh to_read adj_byte)
          ++ neighbors)
        rest
    else some []

unfoldable pub for_each_base_neighbor : CsrIndex → ℕ → ℕ → Option (List ℕ)
unfolding csr_offset_byte read_u64_at base_loop
for_each_base_neighbor csr fuel node_id =
    let byte_pos = csr_offset_byte node_id in
    if leb csr.offset_fh.num_pages (byte_pos / page_size)
    then some []
    else let start = read_u64_at csr.offset_fh byte_pos in
      let end = read_u64_at csr.offset_fh (csr_offset_byte (node_id + 1)) in
      if leb end start then some [] else base_loop csr node_id fuel start end

abbrev pub pending_of : List Edge → ℕ → List Edge → List ℕ
pending_of deletions node_id [] = []
pending_of deletions node_id ((src, dst) ∷ edges) =
    let rest = pending_of deletions node_id edges in
    if src == node_id && not (contains_edge deletions (src, dst)) then dst ∷ rest else rest

unfoldable pub for_each_pending_neighbor : CsrIndex → ℕ → List ℕ
for_each_pending_neighbor csr node_id = pending_of csr.pending_deletions node_id csr.pending_edges

unfoldable pub get_neighbors : CsrIndex → ℕ → ℕ → Option (List ℕ)
unfolding for_each_base_neighbor for_each_pending_neighbor
get_neighbors csr fuel node_id =
    Option.map (λ base. base ++ for_each_pending_neighbor csr node_id)
      (for_each_base_neighbor csr fuel node_id)
