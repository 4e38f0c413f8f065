-- ===== src/Cdc/Tests.antt =====
-- The theorems about the readers of the log, at a small log.
use lightning_db.Prelude.{
  ℕ, ◌≡◌, refl, true, none, some, List, [], ◌∷◌, arith, length, replicate, inl, inr,
}
use lightning_db.Prelude.Bytes.{from_le_bytes}
use lightning_db.Wal.Bytes.{write_header, read_records_from}
use lightning_db.Wal.Bytes.RoundTrip.{committed}
use lightning_db.Wal.Bytes.Tests.{
  test_digest, test_digest_fits, new_wal, two_ops, two_ops-Fit, small_log,
}
use lightning_db.Cdc.{poll, poll_each}
use lightning_db.Cdc.Polls.{events_of, poll_each-committed, poll-hangs}

one_event :
    events_of 70 two_ops ≡ record { timestamp = 70; tx_id = 5; file_id = 3; page_idx = 9 } ∷ []
unfolding events_of
one_event = refl

poll_each-committed_example :
    poll_each test_digest 10
      (committed test_digest new_wal two_ops 5 true).file
      2
      70
      (replicate 3 (length new_wal.file))
    ≡ some (
      replicate 3 (length (committed test_digest new_wal two_ops 5 true).file),
      replicate 3 (events_of 70 two_ops),
    )
unfolding write_header
poll_each-committed_example =
    poll_each-committed test_digest test_digest_fits 3 new_wal two_ops 5 true 9 70 refl
      (omega arith) two_ops-Fit (omega arith) small_log (omega arith)

-- A log whose first record is a commit with a wrong length.
abbrev damaged_log : List ℕ
damaged_log = b'L' ∷ b'N' ∷ b'I' ∷ b'W' ∷ 2 ∷ 2 ∷ 0 ∷ 0 ∷ replicate 20 0

poll-hangs_example : poll test_digest 1000 damaged_log 2 70 5 ≡ none
unfolding read_records_from from_le_bytes
poll-hangs_example =
    poll-hangs test_digest 1000 damaged_log 70 5 (inr (refl, omega arith, inl (omega arith)))
