-- ===== src/Csr/Build.antt =====
-- crates/lightning-core/src/storage/index/csr.rs, `build`: the two files of a list of edges. What a copy
-- writes past the end of its page's frame is no byte of the file. A vector is never refused its memory
-- and has fewer than 2^63 elements, so that no counter wraps.
use lightning_db.Prelude.Bytes.{le_bytes}
use lightning_db.Prelude.{
  ℕ, suc, ◌+◌, ◌-◌, ◌/◌, max, ◌&&◌, List, [], ◌∷◌, ◌++◌, map, ltb, leb, ◌==◌, if◌then◌else◌, length,
  get_or, set, replicate, Result, ok, ◌>>=◌,
}
use lightning_db.Csr.{
  FileHandle, Edge, CsrError, page_size, slice, csr_offset_byte, checked_offset_slots,
}

-- sort_by_key(|e| e.0), which keeps the order of edges of one source
unfoldable pub insert_by_source : Edge → List Edge → List Edge
insert_by_source e [] = e ∷ []
insert_by_source e (x ∷ edges) = if leb e.0 x.0 then e ∷ x ∷ edges else x ∷ insert_by_source e edges

unfoldable pub sort_by_source : List Edge → List Edge
sort_by_source [] = []
sort_by_source (e ∷ edges) = insert_by_source e (sort_by_source edges)

-- The loop that counts the edges of each source, one place behind it.
unfoldable pub count_sources : ℕ → List ℕ → List Edge → List ℕ
count_sources num_nodes offsets [] = offsets
count_sources num_nodes offsets (e ∷ edges) =
    count_sources num_nodes
      (if leb e.0 num_nodes
        then set offsets (suc e.0) (get_or offsets (suc e.0) 0 + 1)
        else offsets)
      edges

-- offsets[i] += offsets[i - 1]
unfoldable pub prefix_sums : ℕ → List ℕ → List ℕ
prefix_sums previous [] = []
prefix_sums previous (count ∷ counts) = (previous + count) ∷ prefix_sums (previous + count) counts

-- A copy into the frame of the page of `byte_pos`, which is added where it is not there.
unfoldable pub write_at : FileHandle → ℕ → List ℕ → FileHandle
write_at fh byte_pos bytes = record {
  num_pages = max fh.num_pages (byte_pos / page_size + 1);
  byte_at = λ p.
      if (leb byte_pos p && ltb p (byte_pos + length bytes))
        && (p / page_size == byte_pos / page_size)
      then get_or bytes (p - byte_pos) 0
      else fh.byte_at p;
}

-- The numbers from entry i on.
unfoldable pub write_values : FileHandle → ℕ → List ℕ → FileHandle
write_values fh i [] = fh
write_values fh i (v ∷ values) =
    write_values (write_at fh (csr_offset_byte i) (le_bytes 8 v)) (suc i) values

abbrev pub csr_offset_magic : List ℕ
csr_offset_magic = 67 ∷ 83 ∷ 82 ∷ 79 ∷ []

abbrev pub csr_adj_magic : List ℕ
csr_adj_magic = 67 ∷ 83 ∷ 82 ∷ 65 ∷ []

abbrev pub csr_version : ℕ
csr_version = 1

-- `checksum` is CRC-32C.
module _ (checksum : List ℕ → ℕ) where
  unfoldable pub write_csr_header : FileHandle → List ℕ → FileHandle
  write_csr_header fh magic =
      let head : List ℕ = magic ++ (csr_version ∷ slice fh 5 3) in
      write_at fh 0 (head ++ le_bytes 4 (checksum head))

  unfoldable pub build :
      FileHandle → FileHandle → List Edge → ℕ → Result CsrError (FileHandle × FileHandle)
  build offset_fh adj_node_fh edges num_nodes = checked_offset_slots num_nodes >>= λ offset_slots.
      (let sorted_edges : List Edge = sort_by_source edges in
        let offsets : List ℕ =
          prefix_sums 0 (count_sources num_nodes (replicate offset_slots 0) sorted_edges) in
        ok (
          write_values (write_csr_header offset_fh csr_offset_magic) 0 offsets,
          write_values (write_csr_header adj_node_fh csr_adj_magic) 0
              (map (λ (e : Edge). e.1) sorted_edges),
        ))
