-- ===== src/Csr/Pending.antt =====
-- crates/lightning-core/src/storage/index/csr.rs: insertions and deletions that are not compacted yet.
use lightning_db.Prelude.{
  ℕ, zero, suc, ◌+◌, ◌%◌, ◌^◌, ◌-◌, ◌*◌, ◌/◌, leb, min, ltb, if_both, ◌≡◌, refl, ap, true, false,
  ◌||◌, Option, none, some, List, [], ◌∷◌, ◌++◌, arith, if◌then◌else◌, contains,
}
use Prim.Native.Nat.{bit_and}
use mathlib.Core.Option
use lightning_db.Csr.{
  deleted_bit, page_size, csr_offset_byte, read_u64_at, get_neighbors, for_each_base_neighbor,
  base_loop, values_from, CsrIndex, Edge, insert_edge, insert_batch, delete_edge, contains_edge,
  pending_of, for_each_pending_neighbor, kept,
}

pub data Change : Type 0 where
  inserts : Edge → Change
  inserts_batch : List Edge → Change
  deletes : Edge → Change

unfoldable pub change : CsrIndex → Change → CsrIndex
change csr (inserts e) = insert_edge csr e
change csr (inserts_batch edges) = insert_batch csr edges
change csr (deletes e) = delete_edge csr e

unfoldable pub changes : CsrIndex → List Change → CsrIndex
changes csr [] = csr
changes csr (c ∷ cs) = changes (change csr c) cs

contains_edge-append :
    (xs ys : List Edge) (e : Edge)
    → contains_edge (xs ++ ys) e ≡ (contains_edge xs e || contains_edge ys e)
unfolding contains_edge
contains_edge-append [] ys e = refl
contains_edge-append (x ∷ xs) ys e = ground (arith, contains_edge-append xs ys e)

pending_of-deleted :
    (deletions : List Edge) (src dst : ℕ) (edges : List Edge)
    → contains_edge deletions (src, dst) ≡ true
    → contains dst (pending_of deletions src edges) ≡ false
pending_of-deleted deletions src dst [] h = refl
pending_of-deleted deletions src dst ((s, d) ∷ edges) h = ground (
  arith,
  pending_of-deleted deletions src dst edges h,
  ap (λ (x : ℕ). contains_edge deletions (s, x)) {x = d} {y = dst},
  ap (λ (x : ℕ). contains_edge deletions (x, dst)) {x = s} {y = src},
)

kept-deleted :
    (deletions : List Edge) (src dst : ℕ) (values : List ℕ)
    → contains_edge deletions (src, dst) ≡ true
    → contains dst (kept deletions src values) ≡ false
unfolding kept
kept-deleted deletions src dst [] h = refl
kept-deleted deletions src dst (val ∷ values) h = ground (
  arith,
  kept-deleted deletions src dst values h,
  ap (λ (x : ℕ). contains_edge deletions (src, x)) {x = bit_and val (2 ^ 64 - 1 - deleted_bit)}
      {y = dst},
)

contains-append :
    (a : ℕ) (xs ys : List ℕ) → contains a (xs ++ ys) ≡ (contains a xs || contains a ys)
contains-append a [] ys = refl
contains-append a (x ∷ xs) ys = ground (arith, contains-append a xs ys)

-- The result, if there is one, does not have the node.
abbrev pub Lacks : ℕ → Option (List ℕ) → Type 0
Lacks dst none = Unit
Lacks dst (some neighbors) = contains dst neighbors ≡ false

module _ (dst : ℕ) where
  map_before-Lacks :
      (xs : List ℕ) (o : Option (List ℕ))
      → contains dst xs ≡ false
      → Lacks dst o
      → Lacks dst (Option.map (λ ns. xs ++ ns) o)
  map_before-Lacks xs none p h = tt
  map_before-Lacks xs (some ns) p h = ground (arith, contains-append dst xs ns)

  map_after-Lacks :
      (xs : List ℕ) (o : Option (List ℕ))
      → contains dst xs ≡ false
      → Lacks dst o
      → Lacks dst (Option.map (λ ns. ns ++ xs) o)
  map_after-Lacks xs none p h = tt
  map_after-Lacks xs (some ns) p h = ground (arith, contains-append dst ns xs)

  module _ (csr : CsrIndex) (src : ℕ)
      (gone : contains_edge csr.pending_deletions (src, dst) ≡ true) where
    base_loop-Lacks : (fuel i end : ℕ) → Lacks dst (base_loop csr src fuel i end)
    unfolding base_loop
    base_loop-Lacks zero i end = tt
    base_loop-Lacks (suc fuel) i end =
        let adj_byte : ℕ = 12 + i * 8 in
        let to_read : ℕ = min (end - i) ((page_size - adj_byte % page_size) / 8) in
        let values : List ℕ = values_from csr.adj_node_fh to_read adj_byte in
        if_both (Lacks dst) (ltb i end)
          (Option.map (λ ns. kept csr.pending_deletions src values ++ ns)
            (base_loop csr src fuel (i + to_read) end))
          (some [])
          (map_before-Lacks (kept csr.pending_deletions src values)
            (base_loop csr src fuel (i + to_read) end)
            (kept-deleted csr.pending_deletions src dst values gone)
            (base_loop-Lacks fuel (i + to_read) end))
          refl

    for_each_base_neighbor-Lacks : (fuel : ℕ) → Lacks dst (for_each_base_neighbor csr fuel src)
    unfolding for_each_base_neighbor
    for_each_base_neighbor-Lacks fuel =
        let start : ℕ = read_u64_at csr.offset_fh (csr_offset_byte src) in
        let end : ℕ = read_u64_at csr.offset_fh (csr_offset_byte (src + 1)) in
        if_both (Lacks dst) (leb csr.offset_fh.num_pages (csr_offset_byte src / page_size))
          (some []) (if leb end start then some [] else base_loop csr src fuel start end) refl
          (if_both (Lacks dst) (leb end start) (some []) (base_loop csr src fuel start end) refl
            (base_loop-Lacks fuel start end))

    get_neighbors-Lacks : (fuel : ℕ) → Lacks dst (get_neighbors csr fuel src)
    unfolding get_neighbors for_each_pending_neighbor
    get_neighbors-Lacks fuel =
        map_after-Lacks (for_each_pending_neighbor csr src) (for_each_base_neighbor csr fuel src)
          (pending_of-deleted csr.pending_deletions src dst csr.pending_edges gone)
          (for_each_base_neighbor-Lacks fuel)

changes-deletions :
    (csr : CsrIndex) (cs : List Change) (e : Edge)
    → contains_edge csr.pending_deletions e ≡ true
    → contains_edge (changes csr cs).pending_deletions e ≡ true
unfolding changes change insert_edge insert_batch delete_edge
changes-deletions csr [] e h = h
changes-deletions csr (inserts x ∷ cs) e h = changes-deletions (insert_edge csr x) cs e h
changes-deletions csr (inserts_batch xs ∷ cs) e h = changes-deletions (insert_batch csr xs) cs e h
changes-deletions csr (deletes x ∷ cs) e h =
    changes-deletions (delete_edge csr x) cs e
      (ground (arith, contains_edge-append csr.pending_deletions (x ∷ []) e))

-- After an edge was deleted, no insertion brings it back before a compaction: whatever is inserted or
-- deleted after it, the neighbors that are reported for its source do not have its target.
pub deleted_edge_stays_deleted :
    (csr : CsrIndex) (src dst : ℕ) (cs : List Change) (fuel : ℕ)
    → Lacks dst (get_neighbors (changes (delete_edge csr (src, dst)) cs) fuel src)
unfolding delete_edge contains_edge
deleted_edge_stays_deleted csr src dst cs fuel =
    get_neighbors-Lacks dst (changes (delete_edge csr (src, dst)) cs) src
      (changes-deletions (delete_edge csr (src, dst)) cs (src, dst)
        (ground (arith, contains_edge-append csr.pending_deletions ((src, dst) ∷ []) (src, dst))))
      fuel
