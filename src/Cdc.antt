-- ===== src/Cdc.antt =====
-- crates/lightning-core/src/cdc.rs: change data capture. Readers of the log turn its page updates into
-- events. The channel of a subscriber is a library's: what stands here is the sequence of the events
-- that are offered to it (`try_send`), at the time `now`. A subscriber is its start offset, and
-- `None` is fuel that ran out.
mod Polls
mod Tests
use lightning_db.Prelude.{
  ℕ, ◌+◌, ◌-◌, Option, none, some, List, [], ◌∷◌, ◌++◌, ltb, ◌==◌, if◌then◌else◌, length, take,
  replicate,
}
use lightning_db.Wal.{PageUpdate}
use lightning_db.Wal.Bytes.{
  WalRecordIter, LogRecord, page_update, commit, corrupt, read_loop, read_records_from,
  absolute_pos,
}

pub record CdcEvent : Type 0 where
  pub timestamp : ℕ
  pub tx_id : ℕ
  pub file_id : ℕ
  pub page_idx : ℕ

-- What one record makes a reader offer: commits and damaged records are passed over.
unfoldable pub offered : ℕ → List LogRecord → List CdcEvent
offered now [] = []
offered now (page_update tx_id u ∷ recs) =
    record { timestamp = now; tx_id = tx_id; file_id = u.file_id; page_idx = u.page_idx }
    ∷ offered now recs
offered now (commit tx_id ∷ recs) = offered now recs
offered now (corrupt ∷ recs) = offered now recs

module _ (digest : List ℕ → ℕ) where
  -- A reader's loop, from an offset of the log: the new position, and the events.
  unfoldable pub poll : ℕ → List ℕ → ℕ → ℕ → ℕ → Option (ℕ × List CdcEvent)
  unfolding offered
  poll fuel file version now offset =
      elim (read_loop digest fuel (read_records_from file version offset)) [
        | none ↦ none
        | some (last, recs) ↦ some (absolute_pos last, offered now recs)
      ]

  -- `subscribe`: the start offset of the new subscriber, and the events of the replay.
  unfoldable pub subscribe : ℕ → List ℕ → ℕ → ℕ → List ℕ → Option (List ℕ × List CdcEvent)
  unfolding poll
  subscribe fuel file version now subscribers =
      let current_size = length file in
      let registered = subscribers ++ current_size ∷ [] in
      let replay = poll fuel file version now current_size in
      if ltb 0 current_size
      then elim replay [ none ↦ none | some (position, events) ↦ some (registered, events) ]
      else some (registered, [])

  -- last_positions.resize(n, 0)
  abbrev resize : ℕ → List ℕ → List ℕ
  resize n positions = take n (positions ++ replicate (n - length positions) 0)

  unfoldable pub start_offsets : List ℕ → List ℕ → List ℕ
  start_offsets [] subscribers = []
  start_offsets (p ∷ positions) [] = p ∷ positions
  start_offsets (p ∷ positions) (offset ∷ subscribers) =
      (if p == 0 then offset else p) ∷ start_offsets positions subscribers

  unfoldable pub sync_positions : List ℕ → List ℕ → List ℕ
  unfolding start_offsets
  sync_positions positions subscribers =
      if length positions == length subscribers
      then positions
      else start_offsets (resize (length subscribers) positions) subscribers

  -- The body of the thread's loop for each subscriber: the new positions, and the events of each.
  unfoldable pub poll_each : ℕ → List ℕ → ℕ → ℕ → List ℕ → Option (List ℕ × List (List CdcEvent))
  unfolding poll
  poll_each fuel file version now [] = some ([], [])
  poll_each fuel file version now (offset ∷ positions) = elim (poll fuel file version now offset) [
    | none ↦ none
    | some (position, events) ↦ elim (poll_each fuel file version now positions) [
      | none ↦ none
      | some (rest, more) ↦ some (position ∷ rest, events ∷ more)
    ]
  ]
