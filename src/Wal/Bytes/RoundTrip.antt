-- ===== src/Wal/Bytes/RoundTrip.antt =====
-- crates/lightning-core/src/storage/wal.rs: the reader finds what the writer logged.
use lightning_db.Prelude.{
  ℕ, suc, ◌+◌, ◌-◌, ◌*◌, ◌^◌, ◌≤◌, ◌<◌, ◌≡◌, refl, ap, sym, subst, ◌∙◌, min, Bool, true, false, leb,
  ltb, le→leb, some, List, [], ◌∷◌, ◌++◌, arith, length, take, take_all, replicate, length-append,
  All, is_empty, if_both,
}
use mathlib.Core.List.{append_assoc, append-nil}
use lightning_db.Prelude.Bytes.{drop-exact}
use lightning_db.Wal.{PageUpdate}
use lightning_db.Wal.Bytes.{
  Wal, WalRecordIter, LogRecord, page_update, commit, page_bytes, commit_bytes, padding, align_file,
  record_v2, flush_pending, log_page_update, log_commit, read_loop, read_records_from, absolute_pos,
}
use lightning_db.Wal.Bytes.Records.{Fits}
use lightning_db.Wal.Bytes.Layout.{
  Piece, page, end_of_tx, zero_byte, PieceFits, records, bytes_from, collect-bytes_from,
}
use lightning_db.Wal.Bytes.Writer.{
  Op, update, commits, flush, OpFits, logged, step, run, Holds, page_pieces, page_pieces-append,
  append_page, joined, align_file-HasPieces, commit_record-HasPieces, records-append, records-zeros,
  All-append, All-zeros,
}

module _ (digest : List ℕ → ℕ) (digest_fits : (bytes : List ℕ) → digest bytes < 2 ^ 32)
    (front : List ℕ) where
  pub nothing_pending-Holds :
      (wal : Wal) → wal.pending_buf ≡ [] → wal.file ≡ front → Holds digest front wal []
  unfolding bytes_from
  nothing_pending-Holds wal e f = record {
    pieces = [];
    pages = [];
    on_file = f ∙ sym (append-nil front);
    in_buffer = e;
    together = refl;
    pieces_fit = tt;
    pages_fit = tt;
  }

  flush_pending-Holds :
      (wal : Wal) (recs : List LogRecord)
      → Holds digest front wal recs
      → Holds digest front (flush_pending digest wal) recs
  unfolding flush_pending
  flush_pending-Holds wal recs h =
      if_both (λ (w : Wal). Holds digest front w recs) (is_empty wal.pending_buf) wal _ h
        (let pad : ℕ = padding (length (wal.file ++ wal.pending_buf)) in
          let qs : List Piece = h.pieces ++ page_pieces digest h.pages in
          let fits =
            All-append digest h.pieces (page_pieces digest h.pages) h.pieces_fit h.pages_fit in
          record {
            pieces = qs ++ replicate pad zero_byte;
            pages = [];
            on_file =
                align_file-HasPieces digest digest_fits front (wal.file ++ wal.pending_buf) qs fits
                  (joined digest digest_fits front wal.file wal.pending_buf h.pieces h.pages
                    h.pieces_fit h.on_file h.in_buffer);
            in_buffer = unfold bytes_from in refl;
            together =
                records-append digest (qs ++ replicate pad zero_byte) []
                ∙ append-nil _
                ∙ records-append digest qs (replicate pad zero_byte)
                ∙ ap (λ (rs : List LogRecord). records qs ++ rs) (records-zeros digest pad)
                ∙ append-nil _
                ∙ h.together;
            pieces_fit = All-append digest qs _ fits (All-zeros digest pad);
            pages_fit = tt;
          })

  log_page_update-Holds :
      (wal : Wal) (recs : List LogRecord) (tx_id : ℕ) (u : PageUpdate)
      → Fits tx_id u
      → Holds digest front wal recs
      → Holds digest front (log_page_update digest wal tx_id u) (recs ++ page_update tx_id u ∷ [])
  unfolding log_page_update
  log_page_update-Holds wal recs tx_id u fits h =
      if_both (λ (w : Wal). Holds digest front w (recs ++ page_update tx_id u ∷ [])) (leb _ _) _ _
        (flush_pending-Holds _ _ more) more
    where
      more :
          Holds digest front
            (record wal { pending_buf = wal.pending_buf ++ page_bytes digest tx_id u })
            (recs ++ page_update tx_id u ∷ [])
      more = record {
        pieces = h.pieces;
        pages = h.pages ++ (tx_id, u) ∷ [];
        on_file = h.on_file;
        in_buffer =
            ap (λ (bs : List ℕ). bs ++ page_bytes digest tx_id u) h.in_buffer
            ∙ append_page digest digest_fits h.pages tx_id u h.pages_fit;
        together =
            ap (λ (ps : List Piece). records (h.pieces ++ ps))
              (page_pieces-append digest h.pages ((tx_id, u) ∷ []))
            ∙ ap records (sym (append_assoc h.pieces _ _))
            ∙ records-append digest (h.pieces ++ page_pieces digest h.pages) (page tx_id u ∷ [])
            ∙ ap (λ (rs : List LogRecord). rs ++ page_update tx_id u ∷ []) h.together;
        pieces_fit = h.pieces_fit;
        pages_fit =
            subst (All PieceFits) (sym (page_pieces-append digest h.pages ((tx_id, u) ∷ []))) (
              All-append digest (page_pieces digest h.pages) (page tx_id u ∷ []) h.pages_fit
                (fits, tt));
      }

  committed-Holds :
      (wal : Wal) (recs : List LogRecord) (tx_id : ℕ) (txs : List ℕ)
      → tx_id < 2 ^ 64
      → Holds digest front wal recs
      → Holds digest front
          (record {
            file = align_file (wal.file ++ (wal.pending_buf ++ commit_bytes digest tx_id));
            pending_buf = [];
            committed_txs = txs;
          })
          (recs ++ commit tx_id ∷ [])
  committed-Holds wal recs tx_id txs tx_fits h =
      let qs : List Piece = h.pieces ++ page_pieces digest h.pages in
      let fits = All-append digest h.pieces (page_pieces digest h.pages) h.pieces_fit h.pages_fit in
      record {
        pieces = qs ++ end_of_tx tx_id ∷ [];
        pages = [];
        on_file =
            ap align_file (sym (append_assoc wal.file wal.pending_buf _))
            ∙ commit_record-HasPieces digest digest_fits front (wal.file ++ wal.pending_buf) qs
                tx_id fits
                (joined digest digest_fits front wal.file wal.pending_buf h.pieces h.pages
                  h.pieces_fit h.on_file h.in_buffer);
        in_buffer = unfold bytes_from in refl;
        together =
            ap records (append-nil (qs ++ end_of_tx tx_id ∷ []))
            ∙ records-append digest qs (end_of_tx tx_id ∷ [])
            ∙ ap (λ (rs : List LogRecord). rs ++ commit tx_id ∷ []) h.together;
        pieces_fit = All-append digest qs (end_of_tx tx_id ∷ []) fits (tx_fits, tt);
        pages_fit = tt;
      }

  pub log_commit-Holds :
      (wal : Wal) (recs : List LogRecord) (tx_id : ℕ) (synced : Bool)
      → tx_id < 2 ^ 64
      → Holds digest front wal recs
      → Holds digest front (log_commit digest wal tx_id synced).0 (recs ++ commit tx_id ∷ [])
  unfolding log_commit
  log_commit-Holds wal recs tx_id true fits h = committed-Holds wal recs tx_id _ fits h
  log_commit-Holds wal recs tx_id false fits h = committed-Holds wal recs tx_id _ fits h

  pub run-Holds :
      (ops : List Op) (wal : Wal) (recs : List LogRecord)
      → All OpFits ops
      → Holds digest front wal recs
      → Holds digest front (run digest wal ops) (recs ++ logged ops)
  unfolding run step
  run-Holds [] wal recs fits h = subst (Holds digest front wal) (sym (append-nil recs)) h
  run-Holds (update tx_id u ∷ ops) wal recs fits h =
      subst (Holds digest front _) (append_assoc recs (page_update tx_id u ∷ []) (logged ops))
        (run-Holds ops _ _ fits.1 (log_page_update-Holds wal recs tx_id u fits.0 h))
  run-Holds (commits tx_id synced ∷ ops) wal recs fits h =
      subst (Holds digest front _) (append_assoc recs (commit tx_id ∷ []) (logged ops))
        (run-Holds ops _ _ fits.1 (log_commit-Holds wal recs tx_id synced fits.0 h))
  run-Holds (flush ∷ ops) wal recs fits h =
      run-Holds ops _ _ fits.1 (flush_pending-Holds wal recs h)

  read_records_from-append :
      (bs : List ℕ)
      → 5 ≤ length front
      → length bs ≤ 64 * 1024 * 1024
      → read_records_from (front ++ bs) 2 (length front)
        ≡ record { buf = bs; pos = 0; base_offset = length front; version = 2 }
  unfolding read_records_from
  read_records_from-append [] l h =
      let later : ltb (length front) 5 ≡ false = ground arith in
      let all : leb (length (front ++ [])) (length front) ≡ true =
        le→leb _ _ (omega (arith, length-append front [])) in
      rw (later, all) refl
  read_records_from-append (b ∷ bs) l h =
      let size = length-append front (b ∷ bs) in
      let later : ltb (length front) 5 ≡ false = ground arith in
      let more : leb (length (front ++ b ∷ bs)) (length front) ≡ false = ground arith in
      let rest = drop-exact (length front) front (b ∷ bs) refl in
      let n : ℕ = min (length (front ++ b ∷ bs) - length front) (64 * 1024 * 1024) in
      let all : take n (b ∷ bs) ≡ b ∷ bs = take_all n (b ∷ bs) (omega arith) in
      rw (later, more, rest, all) refl

  pub no_pages :
      (pages : List (ℕ × PageUpdate))
      → bytes_from digest 0 (page_pieces digest pages) ≡ []
      → page_pieces digest pages ≡ []
  unfolding bytes_from record_v2
  no_pages [] e = refl
  no_pages ((tx_id, u) ∷ pages) e = absurd (omega (arith, ap (length {A = ℕ}) e))

  -- A reader that starts behind `front` finds what stands there, when nothing is pending.
  reads_back :
      (wal : Wal) (recs : List LogRecord) (fuel : ℕ)
      → Holds digest front wal recs
      → wal.pending_buf ≡ []
      → 5 ≤ length front
      → length wal.file ≤ 64 * 1024 * 1024
      → length recs ≤ fuel
      → (last : WalRecordIter) × (read_loop digest
            (suc fuel)
            (read_records_from wal.file 2 (length front))
          ≡ some (last, recs))
        × (absolute_pos last ≡ length wal.file)
  unfolding read_loop
  reads_back wal recs fuel h none_left l5 small enough =
      let bs : List ℕ = bytes_from digest (length front) h.pieces in
      let none_pending = no_pages h.pages (sym h.in_buffer ∙ none_left) in
      let all : records h.pieces ≡ recs =
        ap records
          (sym (append-nil h.pieces) ∙ ap (λ (ps : List Piece). h.pieces ++ ps) (sym none_pending))
        ∙ h.together in
      let size : length wal.file ≡ length front + length bs =
        omega (arith, length-append front bs, ap (length {A = ℕ}) h.on_file) in
      let (last, e, l) =
        collect-bytes_from digest digest_fits fuel (suc (length bs))
          (record { buf = bs; pos = 0; base_offset = length front; version = 2 }) h.pieces refl
          h.pieces_fit (omega arith)
          (ap (λ (p : ℕ). bytes_from digest p h.pieces)
            (let q : length front ≡ length front + 0 = omega arith in q))
          (omega (arith, ap (length {A = LogRecord}) all)) (omega arith) in
      (
        last,
        ap
              (λ (file : List ℕ).
                read_loop digest (suc fuel) (read_records_from file 2 (length front)))
              h.on_file
            ∙ ap (read_loop digest (suc fuel)) (read_records_from-append bs l5 (omega arith))
            ∙ e
            ∙ ap (λ (rs : List LogRecord). some (last, rs)) all,
        l ∙ sym size,
      )

  pub log_commit-pending_buf :
      (wal : Wal) (tx_id : ℕ) (synced : Bool)
      → (log_commit digest wal tx_id synced).0.pending_buf ≡ []
  unfolding log_commit
  log_commit-pending_buf wal tx_id true = refl
  log_commit-pending_buf wal tx_id false = refl

-- The log after the calls `ops`, and then the commit of `tx_id`.
abbrev pub committed : (List ℕ → ℕ) → Wal → List Op → ℕ → Bool → Wal
committed digest wal ops tx_id synced = (log_commit digest (run digest wal ops) tx_id synced).0

module _ (digest : List ℕ → ℕ) (digest_fits : (bytes : List ℕ) → digest bytes < 2 ^ 32) where
  -- From a log with nothing pending, whatever is logged, in any order, until a commit: a reader that
  -- starts where the log ended before finds every record that was logged since, in the order of the
  -- calls, and stops at the new end of the log. The numbers fit in 64 bits, each page has 4096 bytes,
  -- the checksum has 32 bits, the log has its header, and it fits in one read.
  pub read_loop-committed :
      (wal : Wal) (ops : List Op) (tx_id : ℕ) (synced : Bool) (fuel : ℕ)
      → wal.pending_buf ≡ []
      → 5 ≤ length wal.file
      → All OpFits ops
      → tx_id < 2 ^ 64
      → length (committed digest wal ops tx_id synced).file ≤ 64 * 1024 * 1024
      → length (logged ops ++ commit tx_id ∷ []) ≤ fuel
      → (last : WalRecordIter) × (read_loop digest
            (suc fuel)
            (read_records_from (committed digest wal ops tx_id synced).file 2 (length wal.file))
          ≡ some (last, logged ops ++ commit tx_id ∷ []))
        × (absolute_pos last ≡ length (committed digest wal ops tx_id synced).file)
  read_loop-committed wal ops tx_id synced fuel idle l fits tx_fits small enough =
      let front : List ℕ = wal.file in
      let start = nothing_pending-Holds digest digest_fits front wal idle refl in
      let h = run-Holds digest digest_fits front ops wal [] fits start in
      reads_back digest digest_fits front _ _ fuel
        (log_commit-Holds digest digest_fits front _ _ tx_id synced tx_fits h)
        (log_commit-pending_buf digest digest_fits front _ tx_id synced) l small enough
