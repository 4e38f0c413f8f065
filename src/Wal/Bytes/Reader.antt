-- ===== src/Wal/Bytes/Reader.antt =====
-- crates/lightning-core/src/storage/wal.rs, `WALRecordIter`: that the reader ends, and what it answers
-- at a whole record, at padding and at a damaged record.
use lightning_db.Prelude.{
  ℕ, zero, suc, ◌+◌, ◌-◌, ◌<◌, ◌≡◌, refl, Bool, Option, none, some, List, arith, ltb, if◌then◌else◌,
  length, get_or, Bool-cases, if_both, ltb→lt, inl, inr,
}
use lightning_db.Wal.Bytes.{
  WalRecordIter, LogRecord, Round, done, again, advance, round, next_round, next_record,
  page_update_v2, page_update_v1, commit_v2, commit_v1, unknown_type, align_position,
}

module _ (digest : List ℕ → ℕ) where
  -- A round that goes on has gone past a byte at least, in the same buffer.
  data Advances (it : WalRecordIter) : Round → Type 0 where
    answers : (it' : WalRecordIter) (answer : Option LogRecord) → Advances it (done it' answer)
    goes_on : (it' : WalRecordIter) → it'.buf ≡ it.buf → it.pos < it'.pos → Advances it (again it')

  both :
      {it : WalRecordIter} (b : Bool) (r s : Round)
      → Advances it r
      → Advances it s
      → Advances it (if b then r else s)
  both {it} b r s = if_both (Advances it) b r s

  align_position-Advances :
      (it : WalRecordIter)
      → it.pos < length it.buf
      → Advances it (again (align_position (advance it 13)))
  unfolding align_position
  align_position-Advances it h = goes_on _ refl (omega arith)

  advance-Advances : (it : WalRecordIter) (n : ℕ) → 0 < n → Advances it (again (advance it n))
  advance-Advances it n h = goes_on _ refl (omega arith)

  round-Advances :
      (it : WalRecordIter) (t : ℕ) → it.pos < length it.buf → Advances it (round digest it t)
  unfolding round page_update_v2 page_update_v1 commit_v2 commit_v1 unknown_type
  round-Advances it t h =
      let a = align_position-Advances it h in
      let b = advance-Advances it 1 (omega arith) in
      let c = λ (n : ℕ). advance-Advances it (3 + n) (omega arith) in
      search (both, answers, a, b, c) depth 14

  ends_after :
      (loop : WalRecordIter → Option (WalRecordIter × Option LogRecord)) {it : WalRecordIter}
      (r : Round)
      → Advances it r
      → ((it' : WalRecordIter)
          → it'.buf ≡ it.buf
          → it.pos < it'.pos
          → (it'' : WalRecordIter) × (answer : Option LogRecord) × (loop it' ≡ some (it'', answer)))
      → (it'' : WalRecordIter) × (answer : Option LogRecord) × (next_round digest loop r
          ≡ some (it'', answer))
  ends_after loop (done it' answer) _ rec = (it', answer, refl)
  ends_after loop (again it') (goes_on _ same further) rec = rec it' same further

  -- The reader ends: with more fuel than there are bytes left, `next_record` answers.
  pub next_record-total :
      (fuel : ℕ) (it : WalRecordIter)
      → length it.buf - it.pos < fuel
      → (it' : WalRecordIter) × (answer : Option LogRecord) × (next_record digest fuel it
          ≡ some (it', answer))
  unfolding next_record
  next_record-total zero it h = absurd (omega arith)
  next_record-total (suc fuel) it h = elim (Bool-cases (ltb it.pos (length it.buf))) [
    | inr over ↦ (it, none, rw over refl)
    | inl inside ↦ rw inside (
        ends_after (next_record digest fuel) _
          (round-Advances it (get_or it.buf it.pos 0) (ltb→lt _ _ inside))
          (λ it' same further.
            next_record-total fuel it' (rw same (omega (arith, ltb→lt _ _ inside)))))
  ]
