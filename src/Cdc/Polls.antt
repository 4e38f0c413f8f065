-- ===== src/Cdc/Polls.antt =====
-- crates/lightning-core/src/cdc.rs: what the subscribers are offered as the log grows.
use lightning_db.Prelude.{
  ℕ, zero, suc, ◌*◌, ◌^◌, ◌≤◌, ◌<◌, ◌≡◌, refl, ap, ◌∙◌, Bool, none, some, List, [], ◌∷◌, ◌++◌, ◌⊎◌,
  length, All, replicate, if_both, arith,
}
use lightning_db.Wal.Bytes.{
  Wal, LogRecord, commit, read_records_from, WalRecordIter, read_loop, absolute_pos,
}
use lightning_db.Wal.Bytes.Writer.{Op, update, commits, flush, OpFits, logged}
use lightning_db.Wal.Bytes.RoundTrip.{committed, read_loop-committed}
use lightning_db.Wal.Bytes.Damage.{IsDamaged, read_loop-hangs}
use lightning_db.Cdc.{CdcEvent, offered, poll, poll_each}

-- The events of the updates among the calls, in their order.
unfoldable pub events_of : ℕ → List Op → List CdcEvent
events_of now [] = []
events_of now (update tx_id u ∷ ops) =
    record { timestamp = now; tx_id = tx_id; file_id = u.file_id; page_idx = u.page_idx }
    ∷ events_of now ops
events_of now (commits tx_id synced ∷ ops) = events_of now ops
events_of now (flush ∷ ops) = events_of now ops

offered-logged :
    (now tx_id : ℕ) (ops : List Op)
    → offered now (logged ops ++ commit tx_id ∷ []) ≡ events_of now ops
unfolding offered events_of
offered-logged now tx_id [] = refl
offered-logged now tx_id (update t u ∷ ops) =
    ap (◌∷◌ (record { timestamp = now; tx_id = t; file_id = u.file_id; page_idx = u.page_idx }))
      (offered-logged now tx_id ops)
offered-logged now tx_id (commits t synced ∷ ops) = offered-logged now tx_id ops
offered-logged now tx_id (flush ∷ ops) = offered-logged now tx_id ops

module _ (digest : List ℕ → ℕ) where
  poll-read :
      (fuel : ℕ) (file : List ℕ) (version now offset : ℕ) (last : WalRecordIter)
      (recs : List LogRecord)
      → read_loop digest fuel (read_records_from file version offset) ≡ some (last, recs)
      → poll digest fuel file version now offset ≡ some (absolute_pos last, offered now recs)
  unfolding poll
  poll-read fuel file version now offset last recs e = rw (poll, e) refl

  poll_each-same :
      (n fuel : ℕ) (file : List ℕ) (version now offset position : ℕ) (events : List CdcEvent)
      → poll digest fuel file version now offset ≡ some (position, events)
      → poll_each digest fuel file version now (replicate n offset)
        ≡ some (replicate n position, replicate n events)
  unfolding poll_each
  poll_each-same zero fuel file version now offset position events e = refl
  poll_each-same (suc n) fuel file version now offset position events e =
      rw (poll_each, e, poll_each-same n fuel file version now offset position events e) refl

  -- When the log has nothing pending and every one of `n` subscribers stands at its end, then after any
  -- calls and a commit the next poll offers to each of them an event for every page update logged since,
  -- in their order and once each, and leaves all of them at the new end of the log. The bounds are those
  -- of the log's records, of its checksum and of one read.
  pub poll_each-committed :
      ((bytes : List ℕ) → digest bytes < 2 ^ 32)
      → (n : ℕ) (wal : Wal) (ops : List Op) (tx_id : ℕ) (synced : Bool) (fuel now : ℕ)
      → wal.pending_buf ≡ []
      → 5 ≤ length wal.file
      → All OpFits ops
      → tx_id < 2 ^ 64
      → length (committed digest wal ops tx_id synced).file ≤ 64 * 1024 * 1024
      → length (logged ops ++ commit tx_id ∷ []) ≤ fuel
      → poll_each digest
          (suc fuel)
          (committed digest wal ops tx_id synced).file
          2
          now
          (replicate n (length wal.file))
        ≡ some (
          replicate n (length (committed digest wal ops tx_id synced).file),
          replicate n (events_of now ops),
        )
  poll_each-committed crc n wal ops tx_id synced fuel now idle l fits tx_fits small enough =
      let (last, read, end) =
        read_loop-committed digest crc wal ops tx_id synced fuel idle l fits tx_fits small enough in
      poll_each-same n _ _ _ _ _ _ _ (
        poll-read _ _ _ now _ last _ read
        ∙ ap (λ (p : ℕ). some (p, offered now (logged ops ++ commit tx_id ∷ []))) end
        ∙ ap
            (λ (es : List CdcEvent). some (length (committed digest wal ops tx_id synced).file, es))
            (offered-logged now tx_id ops))

  read_records_from-version :
      (file : List ℕ) (version offset : ℕ)
      → version ≤ (read_records_from file version offset).version
  unfolding read_records_from
  read_records_from-version file version offset =
      let same : version ≤ version = omega arith in
      if_both (λ (it : WalRecordIter). version ≤ it.version) _ _ _ same same

  -- A subscriber that stands at a damaged record is never answered: the poll does not end, whatever the
  -- fuel.
  pub poll-hangs :
      (fuel : ℕ) (file : List ℕ) (now offset : ℕ)
      → IsDamaged digest (read_records_from file 2 offset) 1 4120
        ⊎ IsDamaged digest (read_records_from file 2 offset) 2 8
      → poll digest fuel file 2 now offset ≡ none
  unfolding poll
  poll-hangs fuel file now offset h =
      rw
        (
          poll,
          read_loop-hangs digest fuel (read_records_from file 2 offset)
              (read_records_from-version file 2 offset) h,
        )
        refl
