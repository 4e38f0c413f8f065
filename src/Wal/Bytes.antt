-- ===== src/Wal/Bytes.antt =====
-- crates/lightning-core/src/storage/wal.rs: the bytes of the log. The writer (`log_page_update`,
-- `flush_pending`, `log_commit`) appends to the file and to the buffer of pending records; its writes to
-- the file succeed, and `synced` says whether the fsync of a commit did, or was not asked for. The
-- reader is `WALRecordIter`; the text of its error messages is left out. `digest` is the CRC-32C of the
-- bytes that were fed to it, in that order. `None` of the loops is fuel that ran out.
pub mod Reader
pub mod Records
mod Layout
pub mod Writer
pub mod RoundTrip
pub mod Damage
pub mod Replay
pub mod Tests
use lightning_db.Prelude.{
  ℕ, zero, suc, ◌+◌, ◌-◌, ◌*◌, ◌%◌, ◌^◌, min, Bool, true, false, not, Option, none, some, List, [],
  ◌∷◌, ◌++◌, ltb, leb, ◌==◌, if◌then◌else◌, length, get_or, replicate, is_empty,
}
use lightning_db.Prelude.Bytes.{le_bytes, from_le_bytes, slice}
use lightning_db.Wal.{PageUpdate, add_commit}

abbrev pub page_size : ℕ
page_size = 4096

abbrev pub wal_magic : List ℕ
wal_magic = b'L' ∷ b'N' ∷ b'I' ∷ b'W' ∷ []

abbrev pub wal_version : ℕ
wal_version = 2

abbrev pub wal_header_size : ℕ
wal_header_size = 5

abbrev pub record_type_page_update : ℕ
record_type_page_update = 1

abbrev pub record_type_commit : ℕ
record_type_commit = 2

abbrev pub wal_alignment : ℕ
wal_alignment = 8

abbrev pub max_skip_per_corrupt_record : ℕ
max_skip_per_corrupt_record = 65536

abbrev pub wal_pending_flush_bytes : ℕ
wal_pending_flush_bytes = 8 * 1024 * 1024

abbrev pub max_wal_read_size : ℕ
max_wal_read_size = 64 * 1024 * 1024

abbrev pub padding : ℕ → ℕ
padding pos = (wal_alignment - pos % wal_alignment) % wal_alignment

pub record Wal : Type 0 where
  pub file : List ℕ
  pub pending_buf : List ℕ
  pub committed_txs : List ℕ

-- A new log: its header, and nothing pending.
unfoldable pub write_header : List ℕ
write_header = wal_magic ++ wal_version ∷ []

unfoldable pub align_file : List ℕ → List ℕ
align_file file = file ++ replicate (padding (length file)) 0

pub data LogRecord : Type 0 where
  page_update : ℕ → PageUpdate → LogRecord
  commit : ℕ → LogRecord
  corrupt : LogRecord

pub record WalRecordIter : Type 0 where
  pub buf : List ℕ
  pub pos : ℕ
  pub base_offset : ℕ
  pub version : ℕ

unfoldable pub absolute_pos : WalRecordIter → ℕ
absolute_pos it = it.base_offset + it.pos

-- `read_records_from`, on the bytes of the file.
unfoldable pub read_records_from : List ℕ → ℕ → ℕ → WalRecordIter
read_records_from file version offset =
    let start = if ltb offset wal_header_size then wal_header_size else offset in
    if leb (length file) start
    then record { buf = []; pos = 0; base_offset = start; version = version }
    else record {
      buf = slice file start (min (length file - start) max_wal_read_size);
      pos = 0;
      base_offset = start;
      version = version;
    }

-- self.buf[self.pos + from..self.pos + from + n]
abbrev pub bytes_at : WalRecordIter → ℕ → ℕ → List ℕ
bytes_at it from n = slice it.buf (it.pos + from) n

abbrev pub number_at : WalRecordIter → ℕ → ℕ → ℕ
number_at it from n = from_le_bytes (bytes_at it from n)

abbrev pub too_short : WalRecordIter → ℕ → Bool
too_short it needed = ltb (length it.buf) (it.pos + needed)

abbrev pub advance : WalRecordIter → ℕ → WalRecordIter
advance it n = record it { pos = it.pos + n }

unfoldable pub align_position : WalRecordIter → WalRecordIter
align_position it = record it {
  pos = min (it.pos + padding (it.base_offset + it.pos)) (length it.buf);
}

-- How a round of the loop in `next_record` ends: with an answer, or in the next round.
pub data Round : Type 0 where
  done : WalRecordIter → Option LogRecord → Round
  again : WalRecordIter → Round

-- The record that stands at a place: three numbers, and a page.
abbrev pub update_at : WalRecordIter → ℕ → PageUpdate
update_at it from = record {
  file_id = number_at it (from + 8) 8;
  page_idx = number_at it (from + 16) 8;
  page_data = bytes_at it (from + 24) page_size;
}

module _ (digest : List ℕ → ℕ) where
  unfoldable pub compute_checksum_v2 : ℕ → ℕ → List ℕ → ℕ
  compute_checksum_v2 record_type len payload = digest (record_type ∷ le_bytes 2 len ++ payload)

  -- Type, length, checksum and payload.
  unfoldable pub record_v2 : ℕ → List ℕ → ℕ → List ℕ
  record_v2 record_type payload payload_len =
      let len = payload_len % 2 ^ 16 in
      record_type ∷ le_bytes 2 len
      ++ (le_bytes 4 (compute_checksum_v2 record_type len payload) ++ payload)

  abbrev pub page_payload : ℕ → PageUpdate → List ℕ
  page_payload tx_id u =
      le_bytes 8 tx_id ++ (le_bytes 8 u.file_id ++ (le_bytes 8 u.page_idx ++ u.page_data))

  abbrev pub page_bytes : ℕ → PageUpdate → List ℕ
  page_bytes tx_id u =
      record_v2 record_type_page_update (page_payload tx_id u) (4 + 8 + 8 + 8 + page_size)

  abbrev pub commit_bytes : ℕ → List ℕ
  commit_bytes tx_id = record_v2 record_type_commit (le_bytes 8 tx_id) (4 + 8)

  -- The writes go to the end of the file, where the cursor of a log that is only written stands.
  unfoldable pub flush_pending : Wal → Wal
  unfolding align_file
  flush_pending wal =
      if is_empty wal.pending_buf
      then wal
      else record wal { file = align_file (wal.file ++ wal.pending_buf); pending_buf = [] }

  unfoldable pub log_page_update : Wal → ℕ → PageUpdate → Wal
  unfolding flush_pending
  log_page_update wal tx_id update =
      let buf = wal.pending_buf ++ page_bytes tx_id update in
      let wal' = record wal { pending_buf = buf } in
      if leb wal_pending_flush_bytes (length buf) then flush_pending wal' else wal'

  unfoldable pub log_commit : Wal → ℕ → Bool → Wal × Bool
  unfolding align_file
  log_commit wal tx_id synced =
      let commit_record = wal.pending_buf ++ commit_bytes tx_id in
      let wal' = record wal { file = align_file (wal.file ++ commit_record); pending_buf = [] } in
      if synced
      then (record wal' { committed_txs = add_commit tx_id wal.committed_txs }, true)
      else (wal', false)

  unfoldable pub page_update_v2 : WalRecordIter → Round
  unfolding compute_checksum_v2
  page_update_v2 it =
      let record_length = number_at it 1 2 in
      let payload = bytes_at it 7 (24 + page_size) in
      if not (record_length == 28 + page_size)
      then done it (some corrupt)
      else if not
          (compute_checksum_v2 record_type_page_update record_length payload == number_at it 3 4)
      then done it (some corrupt)
      else done (advance it (31 + page_size))
          (some (page_update (number_at it 7 8) (update_at it 7)))

  unfoldable pub page_update_v1 : WalRecordIter → Round
  page_update_v1 it =
      let tx_id = number_at it 5 8 in
      let update = update_at it 5 in
      if not (digest (record_type_page_update ∷ page_payload tx_id update) == number_at it 1 4)
      then done it (some corrupt)
      else done (advance it (29 + page_size)) (some (page_update tx_id update))

  unfoldable pub commit_v2 : WalRecordIter → Round
  unfolding compute_checksum_v2 align_position
  commit_v2 it =
      let record_length = number_at it 1 2 in
      if not (record_length == 12)
      then done it (some corrupt)
      else if not (
          compute_checksum_v2 record_type_commit record_length (bytes_at it 7 8)
          == number_at it 3 4)
      then done it (some corrupt)
      else done (align_position (advance it 15)) (some (commit (number_at it 7 8)))

  unfoldable pub commit_v1 : WalRecordIter → Round
  unfolding align_position
  commit_v1 it =
      if not (digest (record_type_commit ∷ bytes_at it 5 8) == number_at it 1 4)
      then again (align_position (advance it 13))
      else done (align_position (advance it 13)) (some (commit (number_at it 5 8)))

  abbrev skip_record : WalRecordIter → ℕ → Round
  skip_record it skip =
      if too_short it (3 + skip)
      then done (record it { pos = length it.buf }) none
      else again (advance it (3 + skip))

  unfoldable pub unknown_type : WalRecordIter → Round
  unknown_type it =
      if leb 2 it.version
      then if too_short it 3
        then done it none
        else skip_record it (min (number_at it 1 2) max_skip_per_corrupt_record)
      else again (advance it 1)

  -- One round of the loop, at a record's type.
  unfoldable pub round : WalRecordIter → ℕ → Round
  unfolding page_update_v2 page_update_v1 commit_v2 commit_v1 unknown_type
  round it record_type =
      if record_type == record_type_page_update
      then if leb 2 it.version
        then if too_short it (31 + page_size) then done it none else page_update_v2 it
        else if too_short it (29 + page_size)
        then done it none
        else page_update_v1 it
      else if record_type == record_type_commit
      then if leb 2 it.version
        then if too_short it 15 then done it none else commit_v2 it
        else if too_short it 13
        then done it none
        else commit_v1 it
      else if record_type == 0
      then again (advance it 1)
      else unknown_type it

  abbrev pub next_round :
      (WalRecordIter → Option (WalRecordIter × Option LogRecord))
      → Round
      → Option (WalRecordIter × Option LogRecord)
  next_round loop (done it answer) = some (it, answer)
  next_round loop (again it) = loop it

  unfoldable pub next_record : ℕ → WalRecordIter → Option (WalRecordIter × Option LogRecord)
  unfolding round
  next_record zero it = none
  next_record (suc fuel) it =
      if ltb it.pos (length it.buf)
      then next_round (next_record fuel) (round it (get_or it.buf it.pos 0))
      else some (it, none)

  -- `loop { match iter.next_record() { Some(record) => …, None => break } }`, as the readers of the log
  -- write it; here the records are collected.
  abbrev pub collect :
      (WalRecordIter → Option (WalRecordIter × List LogRecord))
      → Option (WalRecordIter × Option LogRecord)
      → Option (WalRecordIter × List LogRecord)
  collect loop none = none
  collect loop (some (it, none)) = some (it, [])
  collect loop (some (it, some rec)) = elim (loop it) [
    | none ↦ none
    | some (last, recs) ↦ some (last, rec ∷ recs)
  ]

  unfoldable pub read_loop : ℕ → WalRecordIter → Option (WalRecordIter × List LogRecord)
  unfolding next_record
  read_loop zero it = none
  read_loop (suc fuel) it = collect (read_loop fuel) (next_record (suc (length it.buf)) it)
