-- ===== src/Wal/Bytes/Layout.antt =====
-- crates/lightning-core/src/storage/wal.rs: what the log's file holds, as a list of pieces, and that the
-- reader finds the records in it.
use lightning_db.Prelude.{
  ℕ, zero, suc, ◌+◌, ◌-◌, ◌^◌, ◌≤◌, ◌<◌, ◌≡◌, refl, ap, sym, ◌∙◌, Option, some, List, [], ◌∷◌, ◌++◌,
  arith, length, drop, replicate, length-append, length-replicate, length-drop, All,
}
use lightning_db.Prelude.Bytes.{drop-add, drop-exact, length_of_drop}
use lightning_db.Wal.{PageUpdate}
use lightning_db.Wal.Bytes.{
  absolute_pos, WalRecordIter, LogRecord, page_update, commit, advance, next_record, read_loop,
  collect, align_position, padding, page_bytes, commit_bytes,
}
use lightning_db.Wal.Bytes.Records.{
  Fits, length-page_bytes, length-commit_bytes, next_record-page_bytes, next_record-commit_bytes,
  next_record_padding, next_record_end,
}

pub data Piece : Type 0 where
  page : ℕ → PageUpdate → Piece
  end_of_tx : ℕ → Piece
  zero_byte : Piece

abbrev pub PieceFits : Piece → Type 0
PieceFits (page tx_id u) = Fits tx_id u
PieceFits (end_of_tx tx_id) = tx_id < 2 ^ 64
PieceFits zero_byte = Unit {0}

abbrev pub records : List Piece → List LogRecord
records [] = []
records (page tx_id u ∷ pieces) = page_update tx_id u ∷ records pieces
records (end_of_tx tx_id ∷ pieces) = commit tx_id ∷ records pieces
records (zero_byte ∷ pieces) = records pieces

module _ (digest : List ℕ → ℕ) where
  -- The bytes of the pieces, from a place of the file on. A commit is filled up to a multiple of eight.
  unfoldable pub bytes_from : ℕ → List Piece → List ℕ
  bytes_from p [] = []
  bytes_from p (page tx_id u ∷ pieces) = page_bytes digest tx_id u ++ bytes_from (p + 4127) pieces
  bytes_from p (end_of_tx tx_id ∷ pieces) =
      commit_bytes digest tx_id
      ++ (replicate (padding (p + 15)) 0 ++ bytes_from (p + 15 + padding (p + 15)) pieces)
  bytes_from p (zero_byte ∷ pieces) = 0 ∷ bytes_from (p + 1) pieces

  module _ (digest_fits : (bytes : List ℕ) → digest bytes < 2 ^ 32) where
    drop_further :
        (it : WalRecordIter) (n : ℕ) (xs ys : List ℕ)
        → drop it.pos it.buf ≡ xs ++ ys
        → length xs ≡ n
        → drop (it.pos + n) it.buf ≡ ys
    drop_further it n xs ys e l = drop-add it.pos n it.buf ∙ ap (drop n) e ∙ drop-exact n xs ys l

    collect_one :
        (loop : WalRecordIter → Option (WalRecordIter × List LogRecord)) (it : WalRecordIter)
        (rec : LogRecord) (recs : List LogRecord)
        → (last : WalRecordIter) × (loop it ≡ some (last, recs))
          × (absolute_pos last ≡ it.base_offset + length it.buf)
        → (last : WalRecordIter) × (collect digest loop (some (it, some rec))
            ≡ some (last, rec ∷ recs))
          × (absolute_pos last ≡ it.base_offset + length it.buf)
    collect_one loop it rec recs (last, e, l) = (last, rw (collect, e) refl, l)

    length_of_first :
        (it : WalRecordIter) (n : ℕ) (xs ys : List ℕ)
        → drop it.pos it.buf ≡ xs ++ ys
        → length xs ≡ n
        → 0 < n
        → length it.buf ≡ it.pos + (n + length ys)
    length_of_first it n xs ys e l h =
        let positive : 0 < length (xs ++ ys) = omega (arith, length-append xs ys) in
        omega (arith, length_of_drop it.pos it.buf e positive, length-append xs ys)

    length_filled :
        (it : WalRecordIter) (pad : ℕ) (ys : List ℕ)
        → length it.buf ≡ it.pos + (15 + length (replicate {A = ℕ} pad 0 ++ ys))
        → length it.buf ≡ it.pos + (15 + (pad + length ys))
    length_filled it pad ys e =
        omega (arith, length-append (replicate {A = ℕ} pad 0) ys, length-replicate {A = ℕ} pad 0)

    drop_filled :
        (it : WalRecordIter) (pad : ℕ) (ys : List ℕ) {p : ℕ}
        → p ≡ it.pos + (15 + pad)
        → drop (it.pos + 15) it.buf ≡ replicate {A = ℕ} pad 0 ++ ys
        → drop p it.buf ≡ ys
    drop_filled it pad ys e filled =
        ap (λ (q : ℕ). drop q it.buf)
          (e ∙ (let q : it.pos + (15 + pad) ≡ it.pos + 15 + pad = omega arith in q))
        ∙ drop-add (it.pos + 15) pad it.buf
        ∙ ap (drop pad) filled
        ∙ drop-exact pad (replicate {A = ℕ} pad 0) ys (length-replicate pad 0)

    align_position-pos :
        (it : WalRecordIter) (more : ℕ)
        → length it.buf ≡ it.pos + (15 + (padding (it.base_offset + it.pos + 15) + more))
        → (align_position (advance it 15)).pos
          ≡ it.pos + (15 + padding (it.base_offset + it.pos + 15))
    unfolding align_position
    align_position-pos it more e = omega arith

    -- The same pieces, with the place added up in another way.
    regroup :
        (a b c d : ℕ) (pieces : List Piece)
        → a + (b + c) ≡ d
        → bytes_from d pieces ≡ bytes_from (a + (b + c)) pieces
    regroup a b c d pieces e = ap (λ (p : ℕ). bytes_from p pieces) (sym e)

    -- From any place where pieces stand up to the end, the reader answers their records in order.
    pub collect-bytes_from :
        (n fuel : ℕ) (it : WalRecordIter) (pieces : List Piece)
        → it.version ≡ 2
        → All PieceFits pieces
        → it.pos ≤ length it.buf
        → drop it.pos it.buf ≡ bytes_from (it.base_offset + it.pos) pieces
        → length (records pieces) ≤ n
        → length it.buf - it.pos < fuel
        → (last : WalRecordIter) × (collect digest (read_loop digest n) (next_record digest fuel it)
            ≡ some (last, records pieces))
          × (absolute_pos last ≡ it.base_offset + length it.buf)
    unfolding bytes_from read_loop align_position absolute_pos
    collect-bytes_from n zero it pieces v fits inside e h f = absurd (omega arith)
    collect-bytes_from n (suc fuel) it [] v fits inside e h f =
        let over : length it.buf ≡ it.pos = omega (arith, ap length e, length-drop it.pos it.buf) in
        (it, rw (next_record_end digest digest_fits fuel it (omega arith)) refl, omega arith)
    collect-bytes_from n (suc fuel) it (zero_byte ∷ pieces) v fits inside e h f =
        let total = length_of_drop it.pos it.buf e (omega arith) in
        rw (next_record_padding digest digest_fits fuel it _ e) (
          collect-bytes_from n fuel (advance it 1) pieces v fits.1 (omega arith)
            (drop_further it 1 (0 ∷ []) _ e refl
              ∙ regroup it.base_offset it.pos 1 _ pieces (omega arith))
            h (omega arith))
    collect-bytes_from zero (suc fuel) it (page tx_id u ∷ pieces) v fits inside e h f =
        absurd (omega arith)
    collect-bytes_from (suc n) (suc fuel) it (page tx_id u ∷ pieces) v fits inside e h f =
        let l = length-page_bytes digest digest_fits tx_id u fits.0 in
        let total = length_of_first it _ _ _ e l (omega arith) in
        rw (next_record-page_bytes digest digest_fits fuel it tx_id u _ v fits.0 e) (
          collect_one (read_loop digest (suc n)) (advance it 4127) (page_update tx_id u) _ (
            collect-bytes_from n (suc (length it.buf)) (advance it 4127) pieces v fits.1
              (omega arith)
              (drop_further it 4127 _ _ e l
                ∙ regroup it.base_offset it.pos 4127 _ pieces (omega arith))
              (omega arith) (omega arith)))
    collect-bytes_from zero (suc fuel) it (end_of_tx tx_id ∷ pieces) v fits inside e h f =
        absurd (omega arith)
    collect-bytes_from (suc n) (suc fuel) it (end_of_tx tx_id ∷ pieces) v fits inside e h f =
        let pad : ℕ = padding (it.base_offset + it.pos + 15) in
        let l = length-commit_bytes digest digest_fits tx_id in
        let filled = drop_further it 15 _ _ e l in
        let total = length_of_first it _ _ _ e l (omega arith) in
        let there = align_position-pos it _ (length_filled it pad _ total) in
        rw (next_record-commit_bytes digest digest_fits fuel it tx_id _ v fits.0 e) (
          collect_one (read_loop digest (suc n)) (align_position (advance it 15)) (commit tx_id) _ (
            collect-bytes_from n (suc (length it.buf)) (align_position (advance it 15)) pieces v
              fits.1 (omega arith)
              (drop_filled it pad _ there filled
                ∙ ap (λ (p : ℕ). bytes_from p pieces)
                    (let q : it.base_offset + it.pos + 15 + pad
                          ≡ it.base_offset + (align_position (advance it 15)).pos =
                        omega arith in
                      q))
              (omega arith) (omega arith)))
