-- ===== src/Csr/Base.antt =====
-- crates/lightning-core/src/storage/index/csr.rs, `for_each_base_neighbor`: the loop over the entries of
-- the adjacency file. Entry i stands at byte 12 + 8 * i, so the entries 510, 1022, ... are cut by the
-- boundary of two pages.
use lightning_db.Prelude.{
  ℕ, zero, suc, ◌+◌, ◌-◌, ◌*◌, ◌/◌, ◌%◌, ◌≤◌, ◌<◌, ◌≡◌, refl, ap, ◌∙◌, min, false, none, some, [],
  arith, leb, ltb, lt→ltb, if◌then◌else◌,
}
use mathlib.Core.Option
use lightning_db.Csr.Reads.{read_u64_at-eq}
use mathlib.Core.List.{append-nil}
use lightning_db.Csr.{
  CsrIndex, page_size, csr_offset_byte, u64_at, values_from, kept, base_loop,
  for_each_base_neighbor,
}

module _ (csr : CsrIndex) (node_id : ℕ) where
  abbrev entry_byte : ℕ → ℕ
  entry_byte i = 12 + i * 8

  -- An entry that two pages share.
  abbrev pub IsCut : ℕ → Type 0
  IsCut i = i % 512 ≡ 510

  step_stays :
      (i cut end : ℕ)
      → IsCut cut
      → i ≤ cut
      → cut < end
      → i + min (end - i) ((page_size - entry_byte i % page_size) / 8) ≤ cut
  step_stays i cut end c le lt = omega arith

  -- When a node's entries include one that two pages share, the loop never ends.
  pub base_loop-hangs :
      (fuel i cut end : ℕ)
      → IsCut cut
      → i ≤ cut
      → cut < end
      → base_loop csr node_id fuel i end ≡ none
  unfolding base_loop
  base_loop-hangs zero i cut end c le lt = refl
  base_loop-hangs (suc fuel) i cut end c le lt = rw (lt→ltb i end (omega arith)) (
      ap (Option.map _) (
        base_loop-hangs fuel (i + min (end - i) ((page_size - entry_byte i % page_size) / 8)) cut
          end c (step_stays i cut end c le lt) lt))

  read_all :
      (start end k : ℕ)
      → start < end
      → 512 * k ≤ start + 1
      → end ≤ 512 * k + 510
      → min (end - start) ((page_size - entry_byte start % page_size) / 8) ≡ end - start
  read_all start end k lt lo hi = omega arith

  -- When the entries of a node stand in one page, two rounds read exactly these.
  base_loop-one_page :
      (fuel start end k : ℕ)
      → start < end
      → 512 * k ≤ start + 1
      → end ≤ 512 * k + 510
      → base_loop csr node_id (suc (suc fuel)) start end
        ≡ some (
            kept csr.pending_deletions node_id
              (values_from csr.adj_node_fh (end - start) (entry_byte start)))
  unfolding base_loop
  base_loop-one_page fuel start end k lt lo hi =
      let done : ltb (start + (end - start)) end ≡ false = ground arith in
      rw (lt→ltb start end lt, read_all start end k lt lo hi, done)
        (ap some (
          append-nil (
            kept csr.pending_deletions node_id
              (values_from csr.adj_node_fh (end - start) (entry_byte start)))))

  abbrev pub first_entry : ℕ
  first_entry = u64_at csr.offset_fh (12 + node_id * 8)

  abbrev pub last_entry : ℕ
  last_entry = u64_at csr.offset_fh (12 + (node_id + 1) * 8)

  module _ (in_file : (12 + node_id * 8) / page_size < csr.offset_fh.num_pages) where
    pub base_neighbor_lem :
        (fuel : ℕ)
        → for_each_base_neighbor csr fuel node_id ≡ (
            if leb last_entry first_entry
            then some []
            else base_loop csr node_id fuel first_entry last_entry)
    unfolding for_each_base_neighbor csr_offset_byte
    base_neighbor_lem fuel =
        let present : leb csr.offset_fh.num_pages ((12 + node_id * 8) / page_size) ≡ false =
          ground arith in
        rw
          (
            present,
            read_u64_at-eq csr.offset_fh (12 + node_id * 8),
            read_u64_at-eq csr.offset_fh (12 + (node_id + 1) * 8),
          )
          refl

    -- When a node's entries in the adjacency file include one that two pages share (510, 1022, ...), the
    -- iteration over its neighbors does not end, whatever the fuel.
    pub for_each_base_neighbor-hangs :
        (cut : ℕ)
        → IsCut cut
        → first_entry ≤ cut
        → cut < last_entry
        → (fuel : ℕ) → for_each_base_neighbor csr fuel node_id ≡ none
    for_each_base_neighbor-hangs cut c lo hi fuel =
        base_neighbor_lem fuel
        ∙ rw (let some_entries : leb last_entry first_entry ≡ false = ground arith in some_entries)
            (base_loop-hangs fuel first_entry cut last_entry c lo hi)

    -- When a node's entries stand in one page, the iteration ends after two rounds and reports them in
    -- order, without those that are marked or pending as deleted.
    pub for_each_base_neighbor-one_page :
        (fuel k : ℕ)
        → first_entry < last_entry
        → 512 * k ≤ first_entry + 1
        → last_entry ≤ 512 * k + 510
        → for_each_base_neighbor csr (suc (suc fuel)) node_id
          ≡ some (
              kept csr.pending_deletions node_id
                (values_from csr.adj_node_fh (last_entry - first_entry) (12 + first_entry * 8)))
    for_each_base_neighbor-one_page fuel k lt lo hi =
        base_neighbor_lem (suc (suc fuel))
        ∙ rw (let some_entries : leb last_entry first_entry ≡ false = ground arith in some_entries)
            (base_loop-one_page fuel first_entry last_entry k lt lo hi)
