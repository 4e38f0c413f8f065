-- ===== src/Wal/Bytes/Replay/Recovery.antt =====
-- crates/lightning-core/src/storage/wal.rs, `replay`: what recovery takes from the log's bytes, whole or
-- cut by a crash, and that it is what the records say.
use lightning_db.Prelude.{
  ℕ, zero, suc, ◌+◌, ◌-◌, ◌^◌, ◌≤◌, ◌<◌, ◌≡◌, refl, ap, ap₂, subst, ◌∙◌, Bool, true, false, ◌||◌,
  Option, some, List, [], ◌∷◌, ◌++◌, arith, ltb, if◌then◌else◌, length, take, take-nil, replicate,
  Bool-cases, inl, inr, All,
}
use lightning_db.Prelude.Bytes.{
  le_bytes, from_le_bytes, slice, length-le_bytes, from_le_bytes-le_bytes,
}
use lightning_db.Wal.{
  PageUpdate, Replay, WalRecord, page_update, commit, replay_loop, replay_record,
}
use lightning_db.Wal.Bytes.{record_v2, padding, page_payload}
use lightning_db.Wal.Bytes.Records.{Fits}
use lightning_db.Wal.Bytes.Layout.{Piece, page, end_of_tx, zero_byte, PieceFits, bytes_from}
use lightning_db.Wal.Bytes.Replay.{
  Scan, read_exact, scan_record, scan_loop, page_update_record_v2, commit_record_v2,
  read_and_apply_page_update, read_and_apply_commit, go_on, at_eof, accept_page, accept_commit,
  update_in,
}
use lightning_db.Wal.Bytes.Replay.Torn.{framed_whole, framed_torn, body}

-- The records that stand whole in the first `n` bytes of the pieces.
unfoldable pub whole : ℕ → ℕ → List Piece → List WalRecord
whole p n [] = []
whole p n (page tx_id u ∷ pieces) =
    let more = whole (p + 4127) (n - 4127) pieces in
    if ltb n 4127 then [] else page_update tx_id u ∷ more
whole p n (end_of_tx tx_id ∷ pieces) =
    let pad = padding (p + 15) in
    let more = whole (p + 15 + pad) (n - 15 - pad) pieces in
    if ltb n 15 then [] else commit tx_id ∷ more
whole p n (zero_byte ∷ pieces) = whole (p + 1) (n - 1) pieces

module _ (digest : List ℕ → ℕ) (digest_fits : (bytes : List ℕ) → digest bytes < 2 ^ 32)
    (checkpoint : ℕ) where
  -- The loop ends with the replay in the state `r`; nothing was found corrupt.
  abbrev pub Ends : ℕ → Scan → Replay → Type 0
  Ends fuel s r =
      (final : Scan) × (scan_loop digest 2 checkpoint fuel s ≡ some final)
      × (final.replayed ≡ r)
      × (final.corrupt_records_skipped ≡ s.corrupt_records_skipped)
      × (final.framing_lost ≡ false)

  pub record IsGoing (s : Scan) : Type 0 where
    pub not_partial : s.partial_record_at_eof ≡ false
    pub not_lost : s.framing_lost ≡ false

  -- The end of the file.
  out_of_bytes :
      (fuel : ℕ) (s : Scan)
      → s.framing_lost ≡ false
      → Ends (suc fuel) (record s { rest = [] }) s.replayed
  unfolding scan_loop read_exact
  out_of_bytes fuel s h = (record s { rest = [] }, refl, refl, refl, h)

  read_one : (t : ℕ) (xs : List ℕ) → read_exact 1 (t ∷ xs) ≡ some (t ∷ [], xs)
  unfolding read_exact
  read_one t xs = let enough : ltb (length (t ∷ xs)) 1 ≡ false = ground arith in rw enough refl

  -- One byte, the type of a record.
  step :
      (fuel : ℕ) (s : Scan) (t m : ℕ) (xs : List ℕ)
      → scan_loop digest 2 checkpoint (suc fuel) (record s { rest = take (suc m) (t ∷ xs) })
        ≡ go_on digest 2 checkpoint
            (scan_loop digest 2 checkpoint fuel)
            (scan_record digest 2 checkpoint t (record s { rest = take m xs }))
  unfolding scan_loop
  step fuel s t m xs =
      let type_byte : from_le_bytes (t ∷ []) ≡ t = unfold from_le_bytes in omega arith in
      rw (scan_loop, read_one t (take m xs), type_byte) refl

  payload_id :
      (tx_id : ℕ) (u : PageUpdate)
      → Fits tx_id u
      → from_le_bytes (slice (page_payload digest tx_id u) 0 8) ≡ tx_id
  unfolding le_bytes
  payload_id tx_id u fits = from_le_bytes-le_bytes 8 tx_id fits.id_fits

  update_in-page_payload :
      (tx_id : ℕ) (u : PageUpdate) → Fits tx_id u → update_in (page_payload digest tx_id u) ≡ u
  unfolding le_bytes
  update_in-page_payload tx_id u fits =
      ap₂ (λ (f p : ℕ). record { file_id = f; page_idx = p; page_data = u.page_data })
        (from_le_bytes-le_bytes 8 u.file_id fits.file_fits)
        (from_le_bytes-le_bytes 8 u.page_idx fits.page_fits)

  length-page_payload :
      (tx_id : ℕ) (u : PageUpdate) → Fits tx_id u → length (page_payload digest tx_id u) ≡ 4120
  unfolding le_bytes
  length-page_payload tx_id u fits = omega (arith, fits.data_fits)

  page_whole :
      (s : Scan) (tx_id : ℕ) (u : PageUpdate) (m : ℕ) (ys : List ℕ)
      → Fits tx_id u
      → 4126 ≤ m
      → scan_record digest 2 checkpoint 1
          (record s { rest = take m (body digest 1 4120 (page_payload digest tx_id u) ++ ys) })
        ≡ (
          record s {
            replayed = replay_record checkpoint s.replayed (page_update tx_id u);
            rest = take (m - 2 - 4 - 4120) ys;
          },
          true,
        )
  unfolding scan_record read_and_apply_page_update page_update_record_v2 replay_record
  page_whole s tx_id u m ys fits h =
      framed_whole digest digest_fits 2 checkpoint 1 4120 _ (page_payload digest tx_id u) ys
        (length-page_payload tx_id u fits) (omega arith) m s h
      ∙ ap₂ (accept_page digest 2 checkpoint (record s { rest = take (m - 2 - 4 - 4120) ys }))
          (payload_id tx_id u fits) (update_in-page_payload tx_id u fits)

  page_torn :
      (s : Scan) (tx_id : ℕ) (u : PageUpdate) (m : ℕ) (ys : List ℕ)
      → Fits tx_id u
      → m < 4126
      → (rest : List ℕ) × (scan_record digest 2 checkpoint 1
            (record s { rest = take m (body digest 1 4120 (page_payload digest tx_id u) ++ ys) })
          ≡ at_eof (record s { rest = rest }))
  unfolding scan_record read_and_apply_page_update page_update_record_v2
  page_torn s tx_id u m ys fits h =
      framed_torn digest digest_fits 2 checkpoint 1 4120 _ (page_payload digest tx_id u) ys
        (length-page_payload tx_id u fits) (omega arith) m s h

  commit_whole :
      (s : Scan) (tx_id m : ℕ) (ys : List ℕ)
      → tx_id < 2 ^ 64
      → 14 ≤ m
      → scan_record digest 2 checkpoint 2
          (record s { rest = take m (body digest 2 8 (le_bytes 8 tx_id) ++ ys) })
        ≡ (
          record s {
            replayed = replay_record checkpoint s.replayed (commit tx_id);
            rest = take (m - 2 - 4 - 8) ys;
          },
          true,
        )
  unfolding scan_record read_and_apply_commit commit_record_v2 replay_record
  commit_whole s tx_id m ys fits h =
      framed_whole digest digest_fits 2 checkpoint 2 8 _ (le_bytes 8 tx_id) ys
        (length-le_bytes 8 tx_id) (omega arith) m s h
      ∙ ap (accept_commit digest 2 checkpoint (record s { rest = take (m - 2 - 4 - 8) ys }))
          (from_le_bytes-le_bytes 8 tx_id fits)

  commit_torn :
      (s : Scan) (tx_id m : ℕ) (ys : List ℕ)
      → m < 14
      → (rest : List ℕ) × (scan_record digest 2 checkpoint 2
            (record s { rest = take m (body digest 2 8 (le_bytes 8 tx_id) ++ ys) })
          ≡ at_eof (record s { rest = rest }))
  unfolding scan_record read_and_apply_commit commit_record_v2
  commit_torn s tx_id m ys h =
      framed_torn digest digest_fits 2 checkpoint 2 8 _ (le_bytes 8 tx_id) ys
        (length-le_bytes 8 tx_id) (omega arith) m s h

  go_on-IsGoing :
      (loop : Scan → Option Scan) (s : Scan) (accepted : Bool)
      → IsGoing s
      → go_on digest 2 checkpoint loop (s, accepted) ≡ loop s
  go_on-IsGoing loop s accepted g =
      ap₂ (λ (a b : Bool). if a || b then some s else loop s) g.not_partial g.not_lost

  -- A round that goes on, and one in which the file ends.
  proceed :
      (fuel : ℕ) (s s' : Scan) (t m : ℕ) (xs : List ℕ) (accepted : Bool) (r : Replay)
      → IsGoing s'
      → s'.corrupt_records_skipped ≡ s.corrupt_records_skipped
      → scan_record digest 2 checkpoint t (record s { rest = take m xs }) ≡ (s', accepted)
      → Ends fuel s' r
      → Ends (suc fuel) (record s { rest = take (suc m) (t ∷ xs) }) r
  proceed fuel s s' t m xs accepted r g same e (final, run, replayed, skipped, lost) = (
    final,
    step fuel s t m xs
        ∙ ap (go_on digest 2 checkpoint (scan_loop digest 2 checkpoint fuel)) e
        ∙ go_on-IsGoing (scan_loop digest 2 checkpoint fuel) s' accepted g
        ∙ run,
    replayed,
    skipped ∙ same,
    lost,
  )

  stop :
      (fuel : ℕ) (s : Scan) (t m : ℕ) (xs rest : List ℕ)
      → IsGoing s
      → scan_record digest 2 checkpoint t (record s { rest = take m xs })
        ≡ at_eof (record s { rest = rest })
      → Ends (suc fuel) (record s { rest = take (suc m) (t ∷ xs) }) s.replayed
  stop fuel s t m xs rest g e = (
    record s { rest = rest; partial_record_at_eof = true },
    step fuel s t m xs ∙ rw e refl,
    refl,
    refl,
    g.not_lost,
  )

  zero_record : (s : Scan) → scan_record digest 2 checkpoint 0 s ≡ (s, false)
  unfolding scan_record
  zero_record s = refl

  zeros :
      (k n fuel : ℕ) (s : Scan) (ys : List ℕ) (r : Replay)
      → n < fuel
      → IsGoing s
      → ((fuel' : ℕ) → n - k < fuel' → Ends fuel' (record s { rest = take (n - k) ys }) r)
      → Ends fuel (record s { rest = take n (replicate k 0 ++ ys) }) r
  zeros k n zero s ys r f g h = absurd (omega arith)
  zeros zero n (suc fuel) s ys r f g h =
      subst (λ (m : ℕ). Ends (suc fuel) (record s { rest = take m ys }) r)
        (let e : n - 0 ≡ n = omega arith in e) (h (suc fuel) (omega arith))
  zeros (suc k) zero (suc fuel) s ys r f g h =
      subst (λ (m : ℕ). Ends (suc fuel) (record s { rest = take m ys }) r)
        (let e : 0 - suc k ≡ 0 = omega arith in e) (h (suc fuel) (omega arith))
  zeros (suc k) (suc n) (suc fuel) s ys r f g h =
      proceed fuel s (record s { rest = take n (replicate k 0 ++ ys) }) 0 n _ false r
        (record { not_partial = g.not_partial; not_lost = g.not_lost }) refl (zero_record _)
        (zeros k n fuel s ys r (omega arith) g (λ fuel' f'.
          subst (λ (m : ℕ). Ends fuel' (record s { rest = take m ys }) r)
            (let e : suc n - suc k ≡ n - k = omega arith in e) (h fuel' (omega arith))))

  whole-zero : (p : ℕ) (pieces : List Piece) → whole p 0 pieces ≡ []
  unfolding whole
  whole-zero p [] = refl
  whole-zero p (page tx_id u ∷ pieces) = refl
  whole-zero p (end_of_tx tx_id ∷ pieces) = refl
  whole-zero p (zero_byte ∷ pieces) = whole-zero (p + 1) pieces

  -- The loop over pieces of which the first `n` bytes are there.
  pub scan_loop-bytes_from :
      (pieces : List Piece) (p n fuel : ℕ) (s : Scan)
      → All PieceFits pieces
      → n < fuel
      → IsGoing s
      → Ends fuel
          (record s { rest = take n (bytes_from digest p pieces) })
          (replay_loop checkpoint s.replayed (whole p n pieces))
  unfolding bytes_from whole replay_loop record_v2
  scan_loop-bytes_from pieces p n zero s fits f g = absurd (omega arith)
  scan_loop-bytes_from [] p n (suc fuel) s fits f g =
      rw (take-nil n) (out_of_bytes fuel s g.not_lost)
  scan_loop-bytes_from (zero_byte ∷ pieces) p zero (suc fuel) s fits f g =
      rw (whole-zero (p + 1) pieces) (out_of_bytes fuel s g.not_lost)
  scan_loop-bytes_from (zero_byte ∷ pieces) p (suc n) (suc fuel) s fits f g =
      proceed fuel s (record s { rest = take n (bytes_from digest (p + 1) pieces) }) 0 n _ false _
        (record { not_partial = g.not_partial; not_lost = g.not_lost }) refl (zero_record _)
        (subst
          (λ (k : ℕ).
            Ends fuel (record s { rest = take n (bytes_from digest (p + 1) pieces) })
              (replay_loop checkpoint s.replayed (whole (p + 1) k pieces)))
          (let e : n ≡ suc n - 1 = omega arith in e)
          (scan_loop-bytes_from pieces (p + 1) n fuel s fits.1 (omega arith) g))
  scan_loop-bytes_from (page tx_id u ∷ pieces) p zero (suc fuel) s fits f g =
      out_of_bytes fuel s g.not_lost
  scan_loop-bytes_from (page tx_id u ∷ pieces) p (suc n) (suc fuel) s fits f g =
      elim (Bool-cases (ltb (suc n) 4127)) [
        | inl torn ↦
            let (rest, e) =
              page_torn s tx_id u n (bytes_from digest (p + 4127) pieces) fits.0 (ground arith) in
            rw torn (stop fuel s 1 n _ rest g e)
        | inr there ↦
            let k : ℕ = n - 2 - 4 - 4120 in
            let next =
              page_whole s tx_id u n (bytes_from digest (p + 4127) pieces) fits.0 (ground arith) in
            let s' : Scan = record s {
              replayed = replay_record checkpoint s.replayed (page_update tx_id u);
            } in
            let g' : IsGoing s' = record { not_partial = g.not_partial; not_lost = g.not_lost } in
            let s'' : Scan = record s' { rest = take k (bytes_from digest (p + 4127) pieces) } in
            rw there (
              proceed fuel s s'' 1 n _ true _
                (record { not_partial = g.not_partial; not_lost = g.not_lost }) refl next
                (subst
                  (λ (m : ℕ).
                    Ends fuel s'' (replay_loop checkpoint s'.replayed (whole (p + 4127) m pieces)))
                  (let e : k ≡ suc n - 4127 = omega arith in e)
                  (scan_loop-bytes_from pieces (p + 4127) k fuel s' fits.1 (omega arith) g')))
      ]
  scan_loop-bytes_from (end_of_tx tx_id ∷ pieces) p zero (suc fuel) s fits f g =
      out_of_bytes fuel s g.not_lost
  scan_loop-bytes_from (end_of_tx tx_id ∷ pieces) p (suc n) (suc fuel) s fits f g =
      let pad : ℕ = padding (p + 15) in
      let ys : List ℕ = replicate pad 0 ++ bytes_from digest (p + 15 + pad) pieces in
      elim (Bool-cases (ltb (suc n) 15)) [
        | inl torn ↦
            let (rest, e) = commit_torn s tx_id n ys (ground arith) in
            rw torn (stop fuel s 2 n _ rest g e)
        | inr there ↦
            let k : ℕ = n - 2 - 4 - 8 in
            let next = commit_whole s tx_id n ys fits.0 (ground arith) in
            let s' : Scan = record s {
              replayed = replay_record checkpoint s.replayed (commit tx_id);
            } in
            let g' : IsGoing s' = record { not_partial = g.not_partial; not_lost = g.not_lost } in
            rw there (
              proceed fuel s (record s' { rest = take k ys }) 2 n _ true _
                (record { not_partial = g.not_partial; not_lost = g.not_lost }) refl next
                (zeros pad k fuel s' (bytes_from digest (p + 15 + pad) pieces) _ (omega arith) g'
                  (λ fuel' f'.
                    subst
                      (λ (m : ℕ).
                        Ends fuel'
                          (record s' {
                            rest = take (k - pad) (bytes_from digest (p + 15 + pad) pieces);
                          })
                          (replay_loop checkpoint s'.replayed (whole (p + 15 + pad) m pieces)))
                      (let e : k - pad ≡ suc n - 15 - pad = omega arith in e)
                      (scan_loop-bytes_from pieces (p + 15 + pad) (k - pad) fuel' s' fits.1 f'
                        g'))))
      ]
