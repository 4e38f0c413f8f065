-- ===== src/Csr/Finishing.antt =====
-- crates/lightning-core/src/storage/index/csr.rs: the ends of the loops of the scan and of compaction.
use lightning_db.Prelude.{
  ℕ, suc, ◌*◌, ◌≡◌, Bool, true, false, Bool-cases, inl, inr, min, leb, refl, List, [], arith, some,
  Result, ok, err, ◌>>=◌, if◌then◌else◌,
}
use lightning_db.Csr.{
  FileHandle, CsrIndex, CsrError, out_of_fuel, overflows, too_many_nodes, bad_magic, bad_version,
  bad_checksum, read_u64_batch, checked_offset_slots, page_size,
}
use lightning_db.Csr.Reads.{batch_loop-total}
use lightning_db.Csr.Build.{build}
use lightning_db.Csr.Compaction.{
  read_values, validate_csr_header, scan_adjacency, scan_edges_from_csr, collect_all_edges, compact,
  compact_if_needed, recover_from_base,
}

read_u64_batch-total :
    (fh : FileHandle) (start end : ℕ)
    → (vs : List ℕ) × (read_u64_batch fh (suc (fh.num_pages * page_size)) start end ≡ some vs)
unfolding read_u64_batch
read_u64_batch-total fh start end =
    let clamped : ℕ = min end (fh.num_pages * page_size) in
    elim (Bool-cases (leb end start)) [
      | inl over ↦ ([], rw over refl)
      | inr more ↦ elim (Bool-cases (leb clamped start)) [
        | inl over ↦ ([], rw (more, over) refl)
        | inr inside ↦
            let (vs, e) =
              batch_loop-total fh (suc (fh.num_pages * page_size)) start clamped (omega arith) in
            (vs, rw (more, inside) e)
      ]
    ]

abbrev pub IsNamed : CsrError → Type 0
IsNamed out_of_fuel = ⊥
IsNamed other = Unit

-- An index, a list or an error that the code names, but no loop that has not ended.
pub data Finishes {A : Type 0} : Result CsrError A → Type 0 where
  gives : (a : A) → Finishes (ok a)
  refuses : (e : CsrError) → IsNamed e → Finishes (err e)

bind-Finishes :
    {A B : Type 0} (r : Result CsrError A) (f : A → Result CsrError B)
    → Finishes r
    → ((a : A) → Finishes (f a))
    → Finishes (r >>= f)
bind-Finishes r f (gives a) rest = rest a
bind-Finishes r f (refuses e h) rest = refuses e h

if-Finishes :
    {A : Type 0} (b : Bool) (r s : Result CsrError A)
    → Finishes r
    → Finishes s
    → Finishes (if b then r else s)
if-Finishes true r s h k = h
if-Finishes false r s h k = k

read_values-Finishes : (fh : FileHandle) (start end : ℕ) → Finishes (read_values fh start end)
read_values-Finishes fh start end =
    let (vs, e) = read_u64_batch-total fh start end in rw e (gives vs)

scan_adjacency-Finishes :
    (csr : CsrIndex) (offsets : List ℕ) → Finishes (scan_adjacency csr offsets)
unfolding scan_adjacency
scan_adjacency-Finishes csr offsets = if-Finishes _ _ _ (gives []) (
    if-Finishes _ _ _ (gives [])
      (bind-Finishes _ _ (read_values-Finishes csr.adj_node_fh _ _) λ values. gives _))

checked_offset_slots-Finishes : (n : ℕ) → Finishes (checked_offset_slots n)
unfolding checked_offset_slots
checked_offset_slots-Finishes n =
    if-Finishes _ _ _ (refuses overflows tt)
      (if-Finishes _ _ _ (refuses too_many_nodes tt) (gives _))

module _ (checksum : List ℕ → ℕ) where
  validate_csr_header-Finishes :
      (fh : FileHandle) (magic : List ℕ) → Finishes (validate_csr_header checksum fh magic)
  unfolding validate_csr_header
  validate_csr_header-Finishes fh magic = if-Finishes _ _ _ (refuses bad_magic tt) (
      if-Finishes _ _ _ (refuses bad_version tt)
        (if-Finishes _ _ _ (refuses bad_checksum tt) (gives tt)))

  scan_edges_from_csr-Finishes : (csr : CsrIndex) → Finishes (scan_edges_from_csr checksum csr)
  unfolding scan_edges_from_csr
  scan_edges_from_csr-Finishes csr = if-Finishes _ _ _ (gives []) (
      bind-Finishes _ _ (validate_csr_header-Finishes csr.offset_fh _) λ u.
        bind-Finishes _ _
          (if-Finishes _ _ _ (validate_csr_header-Finishes csr.adj_node_fh _) (gives tt))
          λ u.
            bind-Finishes _ _ (read_values-Finishes csr.offset_fh _ _)
              (scan_adjacency-Finishes csr))

  collect_all_edges-Finishes : (csr : CsrIndex) → Finishes (collect_all_edges checksum csr)
  unfolding collect_all_edges
  collect_all_edges-Finishes csr =
      bind-Finishes _ _ (scan_edges_from_csr-Finishes csr) λ edges. gives _

  compact-Finishes : (csr : CsrIndex) → Finishes (compact checksum csr)
  unfolding compact build
  compact-Finishes csr = bind-Finishes _ _ (collect_all_edges-Finishes csr) λ edges.
      if-Finishes _ _ _ (gives csr) (
        bind-Finishes _ _ (bind-Finishes _ _ (checked_offset_slots-Finishes _) λ slots. gives _)
          λ files. gives _)

  -- For every content of the two files, a compaction, a compaction if it is needed and the recovery of
  -- the number of edges each end with an index or with one of the errors that the code names.
  pub calls-Finishes :
      (csr : CsrIndex)
      → Finishes (compact checksum csr)
        × (Finishes (compact_if_needed checksum csr) × Finishes (recover_from_base checksum csr))
  unfolding compact_if_needed recover_from_base
  calls-Finishes csr = (
    compact-Finishes csr,
    (
      if-Finishes _ _ _ (compact-Finishes csr) (gives csr),
      bind-Finishes _ _ (scan_edges_from_csr-Finishes csr) λ edges. gives _,
    ),
  )
