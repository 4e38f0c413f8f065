-- ===== src/Wal/Bytes/Writer.antt =====
-- crates/lightning-core/src/storage/wal.rs: what the writer's operations leave in the file and in the
-- buffer of pending records.
use lightning_db.Prelude.{
  ℕ, zero, suc, ◌+◌, ◌^◌, ◌<◌, ◌≡◌, refl, ap, ap₂, sym, ◌∙◌, Bool, List, [], ◌∷◌, ◌++◌, arith,
  length, replicate, length-append, length-replicate, All,
}
use mathlib.Core.List.{append_assoc, append-nil}
use lightning_db.Wal.{PageUpdate}
use lightning_db.Wal.Bytes.{
  Wal, LogRecord, page_update, commit, page_bytes, commit_bytes, padding, align_file, flush_pending,
  log_page_update, log_commit,
}
use lightning_db.Wal.Bytes.Records.{Fits, length-page_bytes, length-commit_bytes}
use lightning_db.Wal.Bytes.Layout.{
  Piece, page, end_of_tx, zero_byte, PieceFits, records, bytes_from,
}

pub data Op : Type 0 where
  update : ℕ → PageUpdate → Op
  commits : ℕ → Bool → Op
  flush : Op

abbrev pub OpFits : Op → Type 0
OpFits (update tx_id u) = Fits tx_id u
OpFits (commits tx_id synced) = tx_id < 2 ^ 64
OpFits flush = Unit {0}

-- The records that the calls log, in their order.
abbrev pub logged : List Op → List LogRecord
logged [] = []
logged (update tx_id u ∷ ops) = page_update tx_id u ∷ logged ops
logged (commits tx_id synced ∷ ops) = commit tx_id ∷ logged ops
logged (flush ∷ ops) = logged ops

module _ (digest : List ℕ → ℕ) where
  unfoldable pub step : Wal → Op → Wal
  step wal (update tx_id u) = log_page_update digest wal tx_id u
  step wal (commits tx_id synced) = (log_commit digest wal tx_id synced).0
  step wal flush = flush_pending digest wal

  unfoldable pub run : Wal → List Op → Wal
  run wal [] = wal
  run wal (op ∷ ops) = run (step wal op) ops

  abbrev pub page_pieces : List (ℕ × PageUpdate) → List Piece
  page_pieces [] = []
  page_pieces ((tx_id, u) ∷ pages) = page tx_id u ∷ page_pieces pages

  -- Behind `front`, the file is pieces; the buffer is page records; together they hold `recs`.
  pub record Holds (front : List ℕ) (wal : Wal) (recs : List LogRecord) : Type 0 where
    pub pieces : List Piece
    pub pages : List (ℕ × PageUpdate)
    pub on_file : wal.file ≡ front ++ bytes_from digest (length front) pieces
    pub in_buffer : wal.pending_buf ≡ bytes_from digest 0 (page_pieces pages)
    pub together : records (pieces ++ page_pieces pages) ≡ recs
    pub pieces_fit : All PieceFits pieces
    pub pages_fit : All PieceFits (page_pieces pages)

  -- Page records have the same bytes at every place.
  bytes_from-page_pieces :
      (p q : ℕ) (pages : List (ℕ × PageUpdate))
      → bytes_from digest p (page_pieces pages) ≡ bytes_from digest q (page_pieces pages)
  unfolding bytes_from
  bytes_from-page_pieces p q [] = refl
  bytes_from-page_pieces p q ((tx_id, u) ∷ pages) =
      ap (λ (bs : List ℕ). page_bytes digest tx_id u ++ bs)
        (bytes_from-page_pieces (p + 4127) (q + 4127) pages)

  pub page_pieces-append :
      (xs ys : List (ℕ × PageUpdate)) → page_pieces (xs ++ ys) ≡ page_pieces xs ++ page_pieces ys
  page_pieces-append [] ys = refl
  page_pieces-append ((tx_id, u) ∷ xs) ys = ap (◌∷◌ (page tx_id u)) (page_pieces-append xs ys)

  bytes_from-zeros : (p n : ℕ) → bytes_from digest p (replicate n zero_byte) ≡ replicate n 0
  unfolding bytes_from
  bytes_from-zeros p zero = refl
  bytes_from-zeros p (suc n) = ap (◌∷◌ 0) (bytes_from-zeros (p + 1) n)

  pub records-append : (xs ys : List Piece) → records (xs ++ ys) ≡ records xs ++ records ys
  records-append [] ys = refl
  records-append (page tx_id u ∷ xs) ys = ap (◌∷◌ (page_update tx_id u)) (records-append xs ys)
  records-append (end_of_tx tx_id ∷ xs) ys = ap (◌∷◌ (commit tx_id)) (records-append xs ys)
  records-append (zero_byte ∷ xs) ys = records-append xs ys

  pub records-zeros : (n : ℕ) → records (replicate n zero_byte) ≡ []
  records-zeros zero = refl
  records-zeros (suc n) = records-zeros n

  pub All-append :
      (xs ys : List Piece) → All PieceFits xs → All PieceFits ys → All PieceFits (xs ++ ys)
  All-append [] ys h k = k
  All-append (x ∷ xs) ys h k = (h.0, All-append xs ys h.1 k)

  pub All-zeros : (n : ℕ) → All PieceFits (replicate n zero_byte)
  All-zeros zero = tt
  All-zeros (suc n) = (tt, All-zeros n)

  module _ (digest_fits : (bytes : List ℕ) → digest bytes < 2 ^ 32) where
    -- One piece before others: `n` bytes, whose length is `n`.
    append_step :
        (p n : ℕ) (xs bs : List ℕ) (ys : List Piece)
        → length xs ≡ n
        → xs ++ (bs ++ bytes_from digest (p + n + length bs) ys)
          ≡ (xs ++ bs) ++ bytes_from digest (p + length (xs ++ bs)) ys
    append_step p n xs bs ys l =
        sym (append_assoc xs bs _)
        ∙ ap (λ (q : ℕ). (xs ++ bs) ++ bytes_from digest q ys)
            (let e : p + n + length bs ≡ p + length (xs ++ bs) =
                omega (arith, length-append xs bs) in
              e)

    bytes_from-append :
        (p : ℕ) (xs ys : List Piece)
        → All PieceFits xs
        → bytes_from digest p (xs ++ ys)
          ≡ bytes_from digest p xs ++ bytes_from digest (p + length (bytes_from digest p xs)) ys
    unfolding bytes_from
    bytes_from-append p [] ys fits =
        ap (λ (q : ℕ). bytes_from digest q ys) (let e : p ≡ p + 0 = omega arith in e)
    bytes_from-append p (page tx_id u ∷ xs) ys fits =
        ap (λ (bs : List ℕ). page_bytes digest tx_id u ++ bs)
          (bytes_from-append (p + 4127) xs ys fits.1)
        ∙ append_step p 4127 (page_bytes digest tx_id u) (bytes_from digest (p + 4127) xs) ys
            (length-page_bytes digest digest_fits tx_id u fits.0)
    bytes_from-append p (zero_byte ∷ xs) ys fits =
        ap (◌∷◌ 0) (bytes_from-append (p + 1) xs ys fits.1)
        ∙ append_step p 1 (0 ∷ []) (bytes_from digest (p + 1) xs) ys refl
    bytes_from-append p (end_of_tx tx_id ∷ xs) ys fits =
        let pad : ℕ = padding (p + 15) in
        let zeros : List ℕ = replicate pad 0 in
        let bs : List ℕ = bytes_from digest (p + 15 + pad) xs in
        ap (λ (bs : List ℕ). commit_bytes digest tx_id ++ (zeros ++ bs))
          (bytes_from-append (p + 15 + pad) xs ys fits.1)
        ∙ ap (λ (bs : List ℕ). commit_bytes digest tx_id ++ bs)
            (append_step (p + 15) pad zeros bs ys (length-replicate pad 0))
        ∙ append_step p 15 (commit_bytes digest tx_id) (zeros ++ bs) ys
            (length-commit_bytes digest digest_fits tx_id)

    pub append_page :
        (pages : List (ℕ × PageUpdate)) (tx_id : ℕ) (u : PageUpdate)
        → All PieceFits (page_pieces pages)
        → bytes_from digest 0 (page_pieces pages) ++ page_bytes digest tx_id u
          ≡ bytes_from digest 0 (page_pieces (pages ++ (tx_id, u) ∷ []))
    unfolding bytes_from
    append_page pages tx_id u fits =
        ap (λ (bs : List ℕ). bytes_from digest 0 (page_pieces pages) ++ bs)
          (sym (append-nil (page_bytes digest tx_id u)))
        ∙ sym (bytes_from-append 0 (page_pieces pages) (page tx_id u ∷ []) fits)
        ∙ ap (bytes_from digest 0) (sym (page_pieces-append pages ((tx_id, u) ∷ [])))

    abbrev pub HasPieces : List ℕ → List ℕ → List Piece → Type 0
    HasPieces front file pieces = file ≡ front ++ bytes_from digest (length front) pieces

    -- The buffer written to the end of the file.
    pub joined :
        (front file buf : List ℕ) (pieces : List Piece) (pages : List (ℕ × PageUpdate))
        → All PieceFits pieces
        → HasPieces front file pieces
        → buf ≡ bytes_from digest 0 (page_pieces pages)
        → HasPieces front (file ++ buf) (pieces ++ page_pieces pages)
    joined front file buf pieces pages fits f b =
        ap₂ ◌++◌ f (b ∙ bytes_from-page_pieces 0 _ pages)
        ∙ append_assoc front _ _
        ∙ ap (λ (bs : List ℕ). front ++ bs)
            (sym (bytes_from-append (length front) pieces (page_pieces pages) fits))

    pub align_file-HasPieces :
        (front file : List ℕ) (pieces : List Piece)
        → All PieceFits pieces
        → HasPieces front file pieces
        → HasPieces front (align_file file) (pieces ++ replicate (padding (length file)) zero_byte)
    unfolding align_file
    align_file-HasPieces front file pieces fits f =
        let zeros : List ℕ = replicate (padding (length file)) 0 in
        ap (λ (bs : List ℕ). bs ++ zeros) f
        ∙ append_assoc front _ zeros
        ∙ ap (λ (bs : List ℕ). front ++ bs)
            (ap (λ (bs : List ℕ). bytes_from digest (length front) pieces ++ bs)
                (sym (bytes_from-zeros _ (padding (length file))))
              ∙ sym (bytes_from-append (length front) pieces _ fits))

    pub commit_record-HasPieces :
        (front file : List ℕ) (pieces : List Piece) (tx_id : ℕ)
        → All PieceFits pieces
        → HasPieces front file pieces
        → HasPieces front
            (align_file (file ++ commit_bytes digest tx_id))
            (pieces ++ end_of_tx tx_id ∷ [])
    unfolding align_file bytes_from
    commit_record-HasPieces front file pieces tx_id fits f =
        let bs : List ℕ = bytes_from digest (length front) pieces in
        let c : List ℕ = commit_bytes digest tx_id in
        let l : length (file ++ c) ≡ length front + length bs + 15 = omega (
          arith,
          length-append file c,
          length-append front bs,
          ap (length {A = ℕ}) f,
          length-commit_bytes digest digest_fits tx_id,
        ) in
        let tail : List ℕ = replicate (padding (length front + length bs + 15)) 0 in
        ap (λ (n : ℕ). (file ++ c) ++ replicate (padding n) 0) l
        ∙ append_assoc file c tail
        ∙ ap (λ (xs : List ℕ). xs ++ (c ++ tail)) f
        ∙ append_assoc front bs (c ++ tail)
        ∙ ap (λ (xs : List ℕ). front ++ xs)
            (ap (λ (xs : List ℕ). bs ++ (c ++ xs)) (sym (append-nil tail))
              ∙ sym (bytes_from-append (length front) pieces (end_of_tx tx_id ∷ []) fits))
