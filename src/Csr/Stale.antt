-- ===== src/Csr/Stale.antt =====
-- crates/lightning-core/src/storage/index/csr.rs, `build` over files that hold an index, as in `compact`:
-- what the files keep past the entries that are written.
use lightning_db.Prelude.Bytes.{le_bytes, from_le_bytes, length-le_bytes}
use mathlib.Core.Option
use lightning_db.Prelude.{
  ℕ, zero, suc, ◌+◌, ◌-◌, ◌*◌, ◌/◌, ◌%◌, ◌≤◌, ◌<◌, ◌≡◌, refl, ap, ap₂, sym, ◌∙◌, true, false, List,
  [], ◌∷◌, ◌++◌, map, arith, leb, ltb, if◌then◌else◌, length, count_up, some, min, Bool-cases, inl,
  inr, length-append,
}
use lightning_db.Csr.{
  FileHandle, CsrIndex, page_size, slice, csr_offset_byte, u64_at, values_from, kept, base_loop,
  for_each_base_neighbor,
}
use lightning_db.Csr.Build.{write_at, write_values, write_csr_header, csr_version}
use lightning_db.Csr.Base.{base_neighbor_lem, first_entry, last_entry}
use lightning_db.Csr.Writes.{write_at-byte, write_values-num_pages_le}

map-same :
    (f g : ℕ → ℕ) (n start : ℕ)
    → ((p : ℕ) → start ≤ p → f p ≡ g p)
    → map f (count_up n start) ≡ map g (count_up n start)
map-same f g zero start same = refl
map-same f g (suc n) start same =
    ap₂ ◌∷◌ (same start (omega arith)) (map-same f g n (start + 1) λ p h. same p (omega arith))

module _ (f g : FileHandle) where
  -- Two files have the same bytes from a position on.
  abbrev pub SameFrom : ℕ → Type 0
  SameFrom start = (p : ℕ) → start ≤ p → f.byte_at p ≡ g.byte_at p

  pub u64_at_same : (start p : ℕ) → SameFrom start → start ≤ p → u64_at f p ≡ u64_at g p
  unfolding u64_at
  u64_at_same start p same h =
      ap from_le_bytes (map-same f.byte_at g.byte_at 8 p λ q a. same q (omega arith))

  pub values_from_same :
      (n start p : ℕ) → SameFrom start → start ≤ p → values_from f n p ≡ values_from g n p
  unfolding values_from
  values_from_same zero start p same h = refl
  values_from_same (suc n) start p same h =
      ap₂ ◌∷◌ (u64_at_same start p same h) (values_from_same n start (p + 8) same (omega arith))

write_at-SameFrom :
    (fh : FileHandle) (pos : ℕ) (bytes : List ℕ)
    → SameFrom (write_at fh pos bytes) fh (pos + length bytes)
write_at-SameFrom fh pos bytes p h =
    write_at-byte fh pos bytes p
    ∙ (let outside : ltb p (pos + length bytes) ≡ false = ground arith in
        let from : leb pos p ≡ true = ground arith in rw (from, outside) refl)

write_values-SameFrom :
    (fh : FileHandle) (i : ℕ) (values : List ℕ)
    → SameFrom (write_values fh i values) fh (12 + (i + length values) * 8)
unfolding write_values csr_offset_byte
write_values-SameFrom fh i [] p h = refl
write_values-SameFrom fh i (v ∷ values) p h =
    write_values-SameFrom (write_at fh (12 + i * 8) (le_bytes 8 v)) (suc i) values p (omega arith)
    ∙ write_at-SameFrom fh (12 + i * 8) (le_bytes 8 v) p (omega (arith, length-le_bytes 8 v))

module _ (checksum : List ℕ → ℕ) (fh : FileHandle) (magic : List ℕ) (four : length magic ≡ 4) where
  write_csr_header-SameFrom : SameFrom (write_csr_header checksum fh magic) fh 12
  unfolding write_csr_header
  write_csr_header-SameFrom p h =
      let head : List ℕ = magic ++ (csr_version ∷ slice fh 5 3) in
      let bytes : List ℕ = le_bytes 4 (checksum head) in
      write_at-SameFrom fh 0 (head ++ bytes) p (
        omega (
          arith,
          h,
          four,
          length-append head bytes,
          length-append magic (csr_version ∷ slice fh 5 3),
          length-le_bytes 4 (checksum head),
        ))

  pub written-SameFrom :
      (values : List ℕ)
      → SameFrom
          (write_values (write_csr_header checksum fh magic) 0 values)
          fh
          (12 + length values * 8)
  written-SameFrom values p h =
      write_values-SameFrom (write_csr_header checksum fh magic) 0 values p (omega arith)
      ∙ write_csr_header-SameFrom p (omega arith)

  pub written-num_pages_le :
      (values : List ℕ)
      → fh.num_pages ≤ (write_values (write_csr_header checksum fh magic) 0 values).num_pages
  unfolding write_csr_header write_at
  written-num_pages_le values =
      let rest = write_values-num_pages_le (write_csr_header checksum fh magic) 0 values in
      ground (arith, rest)

-- Two indexes whose files agree from a position on.
module _ (c d : CsrIndex) (start : ℕ) (same_adj : SameFrom c.adj_node_fh d.adj_node_fh start)
    (same_deletions : c.pending_deletions ≡ d.pending_deletions) (node : ℕ) where
  base_loop_same :
      (fuel i end : ℕ)
      → start ≤ 12 + i * 8
      → base_loop c node fuel i end ≡ base_loop d node fuel i end
  unfolding base_loop
  base_loop_same zero i end h = refl
  base_loop_same (suc fuel) i end h =
      let n : ℕ = min (end - i) ((page_size - (12 + i * 8) % page_size) / 8) in
      let rest = base_loop_same fuel (i + n) end (omega arith) in
      let values = values_from_same c.adj_node_fh d.adj_node_fh n start (12 + i * 8) same_adj h in
      elim (Bool-cases (ltb i end)) [
        | inl more ↦ rw more (
            ap₂ (λ f r. Option.map f r)
              (ap₂ (λ ds vs. λ neighbors. kept ds node vs ++ neighbors) same_deletions values) rest)
        | inr over ↦ rw over refl
      ]

  module _ (offsets_start : ℕ) (same_offsets : SameFrom c.offset_fh d.offset_fh offsets_start) where
    pub for_each_base_neighbor_same :
        (fuel : ℕ)
        → offsets_start ≤ 12 + node * 8
        → start ≤ 12 + first_entry d node * 8
        → (12 + node * 8) / page_size < d.offset_fh.num_pages
        → d.offset_fh.num_pages ≤ c.offset_fh.num_pages
        → for_each_base_neighbor c fuel node ≡ for_each_base_neighbor d fuel node
    for_each_base_neighbor_same fuel h_offsets h_adj inside more =
        let first : first_entry c node ≡ first_entry d node =
          u64_at_same c.offset_fh d.offset_fh offsets_start (12 + node * 8) same_offsets
            h_offsets in
        let last : last_entry c node ≡ last_entry d node =
          u64_at_same c.offset_fh d.offset_fh offsets_start (12 + (node + 1) * 8) same_offsets
            (omega (arith, h_offsets)) in
        base_neighbor_lem c node (omega (arith, inside, more)) fuel
        ∙ ap₂ (λ (a b : ℕ). if leb b a then some [] else base_loop c node fuel a b) first last
        ∙ ap (λ r. if leb (last_entry d node) (first_entry d node) then some [] else r)
            (base_loop_same fuel (first_entry d node) (last_entry d node) h_adj)
        ∙ sym (base_neighbor_lem d node inside fuel)
