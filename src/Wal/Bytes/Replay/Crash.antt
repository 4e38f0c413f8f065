-- ===== src/Wal/Bytes/Replay/Crash.antt =====
-- crates/lightning-core/src/storage/wal.rs: the writer, a crash that cuts the log anywhere, and `replay`.
use mathlib.Core.Option
use lightning_db.Prelude.{
  ℕ, zero, suc, ◌+◌, ◌-◌, ◌^◌, ◌≤◌, ◌<◌, ◌≡◌, refl, ap, sym, ◌∙◌, Bool, false, some, List, [], ◌∷◌,
  ◌++◌, arith, ltb, length, take, drop, take_all, length-append, length-replicate, replicate, All,
  Bool-cases, inl, inr,
}
use mathlib.Core.List.{append-nil}
use lightning_db.Wal.{WalRecord, replay}
use lightning_db.Wal.Bytes.{Wal, LogRecord, write_header, page_bytes, commit_bytes, padding}
use lightning_db.Wal.Bytes.Records.{length-page_bytes, length-commit_bytes}
use lightning_db.Wal.Bytes.Layout.{
  Piece, page, end_of_tx, zero_byte, PieceFits, records, bytes_from,
}
use lightning_db.Wal.Bytes.Writer.{Op, OpFits, logged, run, page_pieces, records-append}
use lightning_db.Wal.Bytes.RoundTrip.{
  nothing_pending-Holds, run-Holds, log_commit-Holds, no_pages, log_commit-pending_buf, committed,
}
use lightning_db.Wal.Bytes.Replay.{Scan, replay_bytes, new_scan, drained, drain_pending}
use lightning_db.Wal.Bytes.Replay.Recovery.{whole, scan_loop-bytes_from}

-- The records of the log in the form that recovery takes them.
abbrev pub valid : List LogRecord → List WalRecord
valid [] = []
valid (LogRecord.page_update tx_id u ∷ recs) = WalRecord.page_update tx_id u ∷ valid recs
valid (LogRecord.commit tx_id ∷ recs) = WalRecord.commit tx_id ∷ valid recs
valid (LogRecord.corrupt ∷ recs) = valid recs

valid-append : (xs ys : List LogRecord) → valid (xs ++ ys) ≡ valid xs ++ valid ys
valid-append [] ys = refl
valid-append (LogRecord.page_update tx_id u ∷ xs) ys =
    ap (◌∷◌ (WalRecord.page_update tx_id u)) (valid-append xs ys)
valid-append (LogRecord.commit tx_id ∷ xs) ys =
    ap (◌∷◌ (WalRecord.commit tx_id)) (valid-append xs ys)
valid-append (LogRecord.corrupt ∷ xs) ys = valid-append xs ys

-- What stands whole before the cut is a prefix of the records.
whole-prefix :
    (p n : ℕ) (pieces : List Piece)
    → (k : ℕ) × (k ≤ length (valid (records pieces)))
      × (whole p n pieces ≡ take k (valid (records pieces)))
unfolding whole
whole-prefix p n [] = (0, omega arith, refl)
whole-prefix p n (zero_byte ∷ pieces) = whole-prefix (p + 1) (n - 1) pieces
whole-prefix p n (page tx_id u ∷ pieces) = elim (Bool-cases (ltb n 4127)) [
  | inl torn ↦ (0, omega arith, rw torn refl)
  | inr there ↦
      let (k, l, e) = whole-prefix (p + 4127) (n - 4127) pieces in
      (suc k, omega arith, rw there (ap (◌∷◌ (WalRecord.page_update tx_id u)) e))
]
whole-prefix p n (end_of_tx tx_id ∷ pieces) = elim (Bool-cases (ltb n 15)) [
  | inl torn ↦ (0, omega arith, rw torn refl)
  | inr there ↦
      let (k, l, e) = whole-prefix (p + 15 + padding (p + 15)) (n - 15 - padding (p + 15)) pieces in
      (suc k, omega arith, rw there (ap (◌∷◌ (WalRecord.commit tx_id)) e))
]

module _ (digest : List ℕ → ℕ) (digest_fits : (bytes : List ℕ) → digest bytes < 2 ^ 32) where
  -- Without a cut all of them stand whole.
  whole_uncut :
      (p n : ℕ) (pieces : List Piece)
      → All PieceFits pieces
      → length (bytes_from digest p pieces) ≤ n
      → whole p n pieces ≡ valid (records pieces)
  unfolding whole bytes_from
  whole_uncut p n [] fits h = refl
  whole_uncut p n (zero_byte ∷ pieces) fits h =
      whole_uncut (p + 1) (n - 1) pieces fits.1 (omega arith)
  whole_uncut p n (page tx_id u ∷ pieces) fits h =
      let l = length-append (page_bytes digest tx_id u) (bytes_from digest (p + 4127) pieces) in
      let m = length-page_bytes digest digest_fits tx_id u fits.0 in
      let there : ltb n 4127 ≡ false = ground arith in
      rw there (
        ap (◌∷◌ (WalRecord.page_update tx_id u))
          (whole_uncut (p + 4127) (n - 4127) pieces fits.1 (omega arith)))
  whole_uncut p n (end_of_tx tx_id ∷ pieces) fits h =
      let pad : ℕ = padding (p + 15) in
      let ys : List ℕ = bytes_from digest (p + 15 + pad) pieces in
      let l = length-append (commit_bytes digest tx_id) (replicate pad 0 ++ ys) in
      let m = length-commit_bytes digest digest_fits tx_id in
      let l' = length-append (replicate pad 0) ys in
      let m' = length-replicate {A = ℕ} pad 0 in
      let there : ltb n 15 ≡ false = ground arith in
      rw there (
        ap (◌∷◌ (WalRecord.commit tx_id))
          (whole_uncut (p + 15 + pad) (n - 15 - pad) pieces fits.1 (omega arith)))

  behind_header :
      (file : List ℕ) (pieces : List Piece)
      → file ≡ write_header ++ bytes_from digest (length write_header) pieces
      → drop 5 file ≡ bytes_from digest 5 pieces
  unfolding write_header
  behind_header file pieces e = ap (drop 5) e

  take_prefix : (k : ℕ) (xs ys : List WalRecord) → k ≤ length xs → take k xs ≡ take k (xs ++ ys)
  take_prefix zero xs ys h = refl
  take_prefix (suc k) [] ys h = absurd (omega arith)
  take_prefix (suc k) (x ∷ xs) ys h = ap (◌∷◌ x) (take_prefix k xs ys (omega arith))

  replay_bytes-whole :
      (checkpoint fuel n : ℕ) (pieces : List Piece)
      → All PieceFits pieces
      → n < fuel
      → (final : Scan) × (replay_bytes digest 2 checkpoint fuel
            (take n (bytes_from digest 5 pieces))
          ≡ some final)
        × (final.replayed ≡ replay checkpoint (whole 5 n pieces))
        × (final.corrupt_records_skipped ≡ 0)
        × (final.framing_lost ≡ false)
  unfolding replay_bytes replay
  replay_bytes-whole checkpoint fuel n pieces fits f =
      let (s, run, replayed, skipped, lost) =
        scan_loop-bytes_from digest digest_fits checkpoint pieces 5 n fuel
          (new_scan digest 2 checkpoint []) fits f
          (record { not_partial = refl; not_lost = refl }) in
      (
        drain_pending digest 2 checkpoint s,
        ap (Option.map (drain_pending digest 2 checkpoint)) run,
        ap (drained digest 2 checkpoint) replayed,
        skipped,
        lost,
      )

  -- A log that was written from new by any calls, and cut by a crash after any number of bytes: recovery
  -- ends, takes nothing for damaged, and does what `replay` does with a prefix of the records that were
  -- logged. The numbers fit in 64 bits, each page has 4096 bytes, and the checksum has 32 bits.
  pub replay_bytes-prefix :
      (wal : Wal) (ops : List Op) (n checkpoint fuel : ℕ)
      → wal.pending_buf ≡ []
      → wal.file ≡ write_header
      → All OpFits ops
      → n < fuel
      → (final : Scan) × (k : ℕ) × (replay_bytes digest 2 checkpoint fuel
            (take n (drop 5 (run digest wal ops).file))
          ≡ some final)
        × (final.replayed ≡ replay checkpoint (take k (valid (logged ops))))
        × (final.corrupt_records_skipped ≡ 0)
        × (final.framing_lost ≡ false)
  replay_bytes-prefix wal ops n checkpoint fuel idle new fits f =
      let h =
        run-Holds digest digest_fits write_header ops wal [] fits
          (nothing_pending-Holds digest digest_fits write_header wal idle new) in
      let pages : List Piece = page_pieces digest h.pages in
      let (final, e, replayed, skipped, lost) =
        replay_bytes-whole checkpoint fuel n h.pieces h.pieces_fit f in
      let (k, l, prefix) = whole-prefix 5 n h.pieces in
      let all : valid (records h.pieces) ++ valid (records pages) ≡ valid (logged ops) =
        sym (valid-append (records h.pieces) (records pages))
        ∙ ap valid (sym (records-append digest h.pieces pages) ∙ h.together) in
      (
        final,
        k,
        ap (λ (bs : List ℕ). replay_bytes digest 2 checkpoint fuel (take n bs))
              (behind_header _ _ h.on_file)
            ∙ e,
        replayed
            ∙ ap (replay checkpoint)
                (prefix ∙ take_prefix k _ (valid (records pages)) l ∙ ap (take k) all),
        skipped,
        lost,
      )

  -- After a commit, the whole log: recovery does what `replay` does with all the records that were
  -- logged, in the order of the calls.
  pub replay_bytes-committed :
      (wal : Wal) (ops : List Op) (tx_id : ℕ) (synced : Bool) (checkpoint fuel : ℕ)
      → wal.pending_buf ≡ []
      → wal.file ≡ write_header
      → All OpFits ops
      → tx_id < 2 ^ 64
      → length (drop 5 (committed digest wal ops tx_id synced).file) < fuel
      → (final : Scan) × (replay_bytes digest 2 checkpoint fuel
            (drop 5 (committed digest wal ops tx_id synced).file)
          ≡ some final)
        × (final.replayed ≡ replay checkpoint (valid (logged ops ++ LogRecord.commit tx_id ∷ [])))
        × (final.corrupt_records_skipped ≡ 0)
        × (final.framing_lost ≡ false)
  replay_bytes-committed wal ops tx_id synced checkpoint fuel idle new fits tx_fits f =
      let start = nothing_pending-Holds digest digest_fits write_header wal idle new in
      let before = run-Holds digest digest_fits write_header ops wal [] fits start in
      let h = log_commit-Holds digest digest_fits write_header _ _ tx_id synced tx_fits before in
      let no_more =
        no_pages digest digest_fits write_header h.pages (
          sym h.in_buffer
          ∙ log_commit-pending_buf digest digest_fits write_header _ tx_id synced) in
      let bs : List ℕ = bytes_from digest 5 h.pieces in
      let behind = behind_header _ _ h.on_file in
      let size = ap (length {A = ℕ}) behind in
      let (final, e, replayed, skipped, lost) =
        replay_bytes-whole checkpoint fuel (length bs) h.pieces h.pieces_fit (omega arith) in
      (
        final,
        ap (replay_bytes digest 2 checkpoint fuel) (behind ∙ sym (take_all (length bs) bs le_self))
            ∙ e,
        replayed
            ∙ ap (replay checkpoint) (
                whole_uncut 5 (length bs) h.pieces h.pieces_fit le_self
                ∙ ap valid (
                    ap records (
                      sym (append-nil h.pieces)
                      ∙ ap (λ (ps : List Piece). h.pieces ++ ps) (sym no_more))
                    ∙ h.together)),
        skipped,
        lost,
      )
    where
      le_self : {n : ℕ} → n ≤ n
      le_self = omega arith
