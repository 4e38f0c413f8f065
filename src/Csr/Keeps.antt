-- ===== src/Csr/Keeps.antt =====
-- crates/lightning-core/src/storage/index/csr.rs, `compact`: the neighbors that a compaction keeps.
use lightning_db.Prelude.{
  ℕ, suc, ◌+◌, ◌*◌, ◌^◌, ◌≤◌, ◌<◌, ◌≡◌, refl, ap, sym, subst, ◌∙◌, false, List, [], ◌∷◌, ◌++◌,
  arith, ◌==◌, if◌then◌else◌, Bool-cases, inl, inr, length, some, ok, ◌>>=◌,
}
use lightning_db.Csr.{
  Edge, CsrIndex, new, max_csr_nodes, contains_edge, pending_of, for_each_pending_neighbor,
  get_neighbors,
}
use lightning_db.Csr.Build.{csr_offset_magic, csr_adj_magic, write_csr_header}
use lightning_db.Csr.Built.{IsUnmarked, reported_all}
use lightning_db.Csr.Sorting.{targets, below}
use lightning_db.Csr.Writes.{IsWhole}
use lightning_db.Csr.Compaction.{
  scan_edges_from_csr, collect_all_edges, compact, retain_edges, highest_source,
}
use lightning_db.Csr.Compacted.{compact_lem}

targets-append :
    (node : ℕ) (es fs : List Edge) → targets node (es ++ fs) ≡ targets node es ++ targets node fs
targets-append node [] fs = refl
targets-append node (e ∷ es) fs = ground (arith, targets-append node es fs)

module _ (deletions : List Edge) where
  retain_edges-append :
      (es fs : List Edge)
      → retain_edges deletions (es ++ fs) ≡ retain_edges deletions es ++ retain_edges deletions fs
  unfolding retain_edges
  retain_edges-append [] fs = refl
  retain_edges-append (e ∷ es) fs = elim (Bool-cases (contains_edge deletions e)) [
    | inl gone ↦ rw gone (retain_edges-append es fs)
    | inr here ↦ rw here (ap (◌∷◌ e) (retain_edges-append es fs))
  ]

  retain_edges-IsUnmarked :
      (es : List Edge) → IsUnmarked es → IsUnmarked (retain_edges deletions es)
  unfolding retain_edges
  retain_edges-IsUnmarked [] h = tt
  retain_edges-IsUnmarked (e ∷ es) h = elim (Bool-cases (contains_edge deletions e)) [
    | inl gone ↦ rw gone (retain_edges-IsUnmarked es h.1)
    | inr here ↦ rw here (h.0, retain_edges-IsUnmarked es h.1)
  ]

  IsUnmarked-append : (es fs : List Edge) → IsUnmarked es → IsUnmarked fs → IsUnmarked (es ++ fs)
  IsUnmarked-append [] fs h k = k
  IsUnmarked-append (e ∷ es) fs h k = (h.0, IsUnmarked-append es fs h.1 k)

retain_none : (es : List Edge) → retain_edges [] es ≡ es
unfolding retain_edges contains_edge
retain_none [] = refl
retain_none (e ∷ es) = ap (◌∷◌ e) (retain_none es)

collect_lem :
    (checksum : List ℕ → ℕ) (csr : CsrIndex) (base : List Edge)
    → scan_edges_from_csr checksum csr ≡ ok base
    → collect_all_edges checksum csr
      ≡ ok (retain_edges csr.pending_deletions (base ++ csr.pending_edges))
unfolding collect_all_edges
collect_lem checksum csr base scanned =
    rw scanned (ap ok (chosen csr.pending_deletions (base ++ csr.pending_edges)))
  where
    chosen :
        (deletions all : List Edge)
        → (if length deletions == 0 then all else retain_edges deletions all)
          ≡ retain_edges deletions all
    chosen [] all = sym (retain_none all)
    chosen (d ∷ deletions) all =
        let some_deletions : (length (d ∷ deletions) == 0) ≡ false = ground arith in
        rw some_deletions refl

module _ (csr : CsrIndex) (node : ℕ) where
  pending_targets :
      for_each_pending_neighbor csr node
      ≡ targets node (retain_edges csr.pending_deletions csr.pending_edges)
  unfolding for_each_pending_neighbor retain_edges
  pending_targets = go csr.pending_deletions csr.pending_edges
    where
      go :
          (deletions edges : List Edge)
          → pending_of deletions node edges ≡ targets node (retain_edges deletions edges)
      go deletions [] = refl
      go deletions ((src, dst) ∷ edges) = elim (Bool-cases (contains_edge deletions (src, dst))) [
        | inl gone ↦ elim (Bool-cases (src == node)) [
          | inl same ↦ rw (gone, same) (go deletions edges)
          | inr other ↦ rw (gone, other) (go deletions edges)
        ]
        | inr here ↦ elim (Bool-cases (src == node)) [
          | inl same ↦ rw (here, same) (ap (◌∷◌ dst) (go deletions edges))
          | inr other ↦ rw (here, other) (go deletions edges)
        ]
      ]

-- When the scan of an index gives a list of edges, and some edge is left of these and of the pending
-- ones after the pending deletions, a compaction succeeds and a node then has the neighbors that the list
-- gives it, but for the pending deletions, and behind them those that the pending insertions gave it
-- before. The graph must fit the table, its ends be below 2^63, the node be not past the largest source
-- that is left, its two offsets be no entries that two pages share, and its edges stand in one page.
pub compact-keeps_edges :
    (checksum : List ℕ → ℕ) (csr : CsrIndex) (base : List Edge) (e : Edge) (edges : List Edge)
    (node k fuel : ℕ)
    → scan_edges_from_csr checksum csr ≡ ok base
    → retain_edges csr.pending_deletions (base ++ csr.pending_edges) ≡ e ∷ edges
    → IsUnmarked base
    → IsUnmarked csr.pending_edges
    → length (e ∷ edges) < 256 ^ 8
    → highest_source (e ∷ edges) + 2 ≤ max_csr_nodes
    → node ≤ highest_source (e ∷ edges)
    → IsWhole node
    → IsWhole (suc node)
    → 512 * k ≤ below node (e ∷ edges) + 1
    → below (suc node) (e ∷ edges) ≤ 512 * k + 510
    → (compact checksum csr >>= λ csr'. ok (get_neighbors csr' (suc (suc fuel)) node))
      ≡ ok (
          some (
            targets node (retain_edges csr.pending_deletions base)
            ++ for_each_pending_neighbor csr node))
unfolding new get_neighbors
compact-keeps_edges checksum csr base e edges node k fuel scanned remain unmarked unmarked' few fits
      inside whole whole' lo hi =
    let ds : List Edge = csr.pending_deletions in
    let all : List Edge = e ∷ edges in
    let unmarked_all : IsUnmarked all = subst IsUnmarked remain (
      retain_edges-IsUnmarked ds (base ++ csr.pending_edges)
        (IsUnmarked-append ds base csr.pending_edges unmarked unmarked')) in
    rw
      (compact_lem checksum csr e edges (collect_lem checksum csr base scanned ∙ ap ok remain) fits)
      (ap ok (
        reported_all (write_csr_header checksum csr.offset_fh csr_offset_magic)
          (write_csr_header checksum csr.adj_node_fh csr_adj_magic) all (highest_source all) node
          few unmarked_all inside whole whole' k fuel lo hi
        ∙ ap some (
            ap (targets node) (sym remain ∙ retain_edges-append ds base csr.pending_edges)
            ∙ targets-append node (retain_edges ds base) (retain_edges ds csr.pending_edges)
            ∙ ap (λ ns. targets node (retain_edges ds base) ++ ns)
                (sym (pending_targets csr node)))))
