-- ===== src/Wal/Bytes/Damage.antt =====
-- crates/lightning-core/src/storage/wal.rs, `WALRecordIter::next_record`, at a record of version 2 whose
-- length or checksum is wrong.
use lightning_db.Prelude.{
  ℕ, zero, suc, ◌+◌, ◌≤◌, ◌≡◌, ◌≢◌, ◌⊎◌, inl, inr, refl, true, false, not, none, some, List, arith,
  ltb, ◌==◌, if◌then◌else◌, length, get_or, lt→ltb, le→leb, if_both,
}
use lightning_db.Wal.Bytes.{
  WalRecordIter, corrupt, Round, done, next_record, read_loop, round, page_update_v2, commit_v2,
  number_at, bytes_at, too_short, compute_checksum_v2,
}

module _ (digest : List ℕ → ℕ) where
  -- A whole record of type `t`, with `n` bytes behind the checksum, whose length field is not that of
  -- its type, or whose checksum is not that of its bytes.
  abbrev pub IsDamaged : WalRecordIter → ℕ → ℕ → Type 0
  IsDamaged it t n =
      (get_or it.buf it.pos 0 ≡ t)
      × (it.pos + (7 + n) ≤ length it.buf)
      × ((number_at it 1 2 ≢ 4 + n)
          ⊎ (compute_checksum_v2 digest t (number_at it 1 2) (bytes_at it 7 n) ≢ number_at it 3 4))

  refused :
      (it : WalRecordIter) (a b c d : ℕ) (r : Round)
      → (a ≢ b) ⊎ (c ≢ d)
      → (if not (a == b)
          then done it (some corrupt)
          else if not (c == d)
          then done it (some corrupt)
          else r)
        ≡ done it (some corrupt)
  refused it a b c d r (inl ne) = let e : (a == b) ≡ false = ground (arith, ne) in rw e refl
  refused it a b c d r (inr ne) =
      let e : (c == d) ≡ false = ground (arith, ne) in
      rw e (if_both (λ (s : Round). s ≡ done it (some corrupt)) (not (a == b)) _ _ refl refl)

  -- At a damaged record of either type the reader answers `corrupt`, and stays where it is.
  pub next_record_damaged :
      (fuel : ℕ) (it : WalRecordIter)
      → 2 ≤ it.version
      → IsDamaged it 1 4120 ⊎ IsDamaged it 2 8
      → next_record digest (suc fuel) it ≡ some (it, some corrupt)
  unfolding next_record round page_update_v2 commit_v2
  next_record_damaged fuel it v (inl (t, fits, wrong)) =
      let inside : ltb it.pos (length it.buf) ≡ true = lt→ltb _ _ (omega arith) in
      let whole : too_short it 4127 ≡ false = ground arith in
      rw (inside, t, le→leb _ _ v, whole, refused it _ _ _ _ _ wrong) refl
  next_record_damaged fuel it v (inr (t, fits, wrong)) =
      let inside : ltb it.pos (length it.buf) ≡ true = lt→ltb _ _ (omega arith) in
      let whole : too_short it 15 ≡ false = ground arith in
      rw (inside, t, le→leb _ _ v, whole, refused it _ _ _ _ _ wrong) refl

  -- So a loop that goes on after `corrupt`, as the readers of the log do, never ends there.
  pub read_loop-hangs :
      (fuel : ℕ) (it : WalRecordIter)
      → 2 ≤ it.version
      → IsDamaged it 1 4120 ⊎ IsDamaged it 2 8
      → read_loop digest fuel it ≡ none
  unfolding read_loop
  read_loop-hangs zero it v h = refl
  read_loop-hangs (suc fuel) it v h =
      rw (next_record_damaged (length it.buf) it v h, read_loop-hangs fuel it v h) refl
