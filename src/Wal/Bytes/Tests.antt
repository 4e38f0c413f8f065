-- ===== src/Wal/Bytes/Tests.antt =====
-- The log's bytes: a small log written and read, and the theorems about it.
use lightning_db.Prelude.{
  ℕ, ◌*◌, ◌%◌, ◌^◌, ◌<◌, ◌≡◌, ◌≤◌, refl, true, false, some, List, [], ◌∷◌, ◌++◌, arith, leb→le,
  length, length-replicate, length-drop, take, drop, All, replicate,
}
use lightning_db.Prelude.Bytes.{le_bytes}
use lightning_db.Wal.{PageUpdate, replay}
use lightning_db.Wal.Bytes.{
  Wal, WalRecordIter, LogRecord, page_update, commit, write_header, log_page_update, log_commit,
  record_v2, compute_checksum_v2, align_file, read_loop, read_records_from, absolute_pos,
}
use lightning_db.Wal.Bytes.Records.{Fits}
use lightning_db.Wal.Bytes.Writer.{Op, update, commits, OpFits, logged, run, step}
use lightning_db.Wal.Bytes.RoundTrip.{committed, read_loop-committed}
use lightning_db.Wal.Bytes.Replay.{Scan, replay_bytes}
use lightning_db.Wal.Bytes.Replay.Crash.{valid, replay_bytes-prefix, replay_bytes-committed}

-- A checksum for tests.
abbrev pub test_digest : List ℕ → ℕ
test_digest bytes = length bytes % 251

pub test_digest_fits : (bytes : List ℕ) → test_digest bytes < 2 ^ 32
test_digest_fits bytes = omega arith

abbrev pub new_wal : Wal
new_wal = record { file = write_header; pending_buf = []; committed_txs = [] }

abbrev pub zero_page : PageUpdate
zero_page = record { file_id = 3; page_idx = 9; page_data = replicate 4096 0 }

abbrev pub two_ops : List Op
two_ops = update 5 zero_page ∷ commits 4 true ∷ []

pub zero_page-Fits : Fits 5 zero_page
zero_page-Fits = record {
  id_fits = omega arith;
  file_fits = omega arith;
  page_fits = omega arith;
  data_fits = length-replicate {A = ℕ} 4096 0;
}

pub two_ops-Fit : All OpFits two_ops
two_ops-Fit = (zero_page-Fits, (omega arith, tt))

pub small_log : length (committed test_digest new_wal two_ops 5 true).file ≤ 64 * 1024 * 1024
unfolding log_commit log_page_update run step write_header record_v2 compute_checksum_v2 le_bytes
    align_file
small_log =
    leb→le (length (committed test_digest new_wal two_ops 5 true).file) (64 * 1024 * 1024) refl

read_loop-committed_example :
    (last : WalRecordIter) × (read_loop test_digest 10
        (read_records_from (committed test_digest new_wal two_ops 5 true).file 2 5)
      ≡ some (last, page_update 5 zero_page ∷ commit 4 ∷ commit 5 ∷ []))
    × (absolute_pos last ≡ length (committed test_digest new_wal two_ops 5 true).file)
unfolding write_header
read_loop-committed_example =
    read_loop-committed test_digest test_digest_fits new_wal two_ops 5 true 9 refl (omega arith)
      two_ops-Fit (omega arith) small_log (omega arith)

-- A commit record with a wrong length.
abbrev damaged : WalRecordIter
damaged = record { buf = 2 ∷ 0 ∷ 0 ∷ replicate 20 0; pos = 0; base_offset = 5; version = 2 }

-- A crash after 5000 bytes: the update and the first commit stand whole, the second commit is cut.
replay_bytes-prefix_example :
    (final : Scan) × (k : ℕ) × (replay_bytes test_digest 2 0 6000
        (take 5000 (drop 5 (run test_digest new_wal two_ops).file))
      ≡ some final)
    × (final.replayed ≡ replay 0 (take k (valid (logged two_ops))))
    × (final.corrupt_records_skipped ≡ 0)
    × (final.framing_lost ≡ false)
replay_bytes-prefix_example =
    replay_bytes-prefix test_digest test_digest_fits new_wal two_ops 5000 0 6000 refl refl
      two_ops-Fit (omega arith)

replay_bytes-committed_example :
    (final : Scan) × (replay_bytes test_digest 2 0
        (2 ^ 26)
        (drop 5 (committed test_digest new_wal two_ops 5 true).file)
      ≡ some final)
    × (final.replayed ≡ replay 0 (valid (logged two_ops ++ LogRecord.commit 5 ∷ [])))
    × (final.corrupt_records_skipped ≡ 0)
    × (final.framing_lost ≡ false)
replay_bytes-committed_example =
    replay_bytes-committed test_digest test_digest_fits new_wal two_ops 5 true 0 (2 ^ 26) refl refl
      two_ops-Fit (omega arith)
      (omega (arith, small_log, length-drop 5 (committed test_digest new_wal two_ops 5 true).file))
