-- ===== src/Wal/Bytes/Replay.antt =====
-- crates/lightning-core/src/storage/wal.rs, `replay`: recovery reads the file from front to back. `rest`
-- is what follows the file's cursor. A read of the file fails only at its end, and then the cursor does
-- not matter any more; the pages that are applied stand in `applied` of Replay. The count of the records
-- is raised with the greatest transaction id, where a record is accepted.
mod Torn
mod Recovery
pub mod Crash
use mathlib.Core.Option
use lightning_db.Prelude.{
  ℕ, zero, suc, ◌+◌, ◌-◌, Bool, true, false, not, ◌||◌, Option, none, some, List, [], ◌∷◌, ◌++◌,
  ltb, ◌==◌, if◌then◌else◌, length, take, drop,
}
use lightning_db.Prelude.Bytes.{from_le_bytes, slice}
use lightning_db.Wal.{
  PageUpdate, Replay, new_replay, handle_page_update, handle_commit, count_record, drain,
}
use lightning_db.Wal.Bytes.{
  page_size, record_type_page_update, record_type_commit, max_skip_per_corrupt_record,
  compute_checksum_v2,
}

pub record Scan : Type 0 where
  pub replayed : Replay
  pub rest : List ℕ
  pub corrupt_records_skipped : ℕ
  pub partial_record_at_eof : Bool
  pub framing_lost : Bool

-- file.read_exact(&mut buffer), for a buffer of n bytes
unfoldable pub read_exact : ℕ → List ℕ → Option (List ℕ × List ℕ)
read_exact n rest = if ltb (length rest) n then none else some (take n rest, drop n rest)

-- A record is accepted (`true`) or not.
abbrev pub at_eof : Scan → Scan × Bool
at_eof s = (record s { partial_record_at_eof = true }, false)

abbrev pub lose_framing : Scan → Scan × Bool
lose_framing s = (
  record s { corrupt_records_skipped = s.corrupt_records_skipped + 1; framing_lost = true },
  false,
)

abbrev pub skip_corrupt : Scan → Scan × Bool
skip_corrupt s = (record s { corrupt_records_skipped = s.corrupt_records_skipped + 1 }, false)

-- A read, and what follows it; at the end of the file the record is partial.
abbrev pub reading : Option (List ℕ × List ℕ) → Scan → (List ℕ → Scan → Scan × Bool) → Scan × Bool
reading none s next = at_eof s
reading (some (bytes, rest)) s next = next bytes (record s { rest = rest })

-- The update in the payload of a page record: three numbers, and a page.
abbrev pub update_in : List ℕ → PageUpdate
update_in payload = record {
  file_id = from_le_bytes (slice payload 8 8);
  page_idx = from_le_bytes (slice payload 16 8);
  page_data = drop 24 payload;
}

module _ (digest : List ℕ → ℕ) (wal_version last_checkpoint_tx : ℕ) where
  abbrev pub accept_page : Scan → ℕ → PageUpdate → Scan × Bool
  accept_page s tx_id update = (
    record s {
      replayed =
          handle_page_update last_checkpoint_tx (count_record last_checkpoint_tx tx_id s.replayed)
            tx_id update;
    },
    true,
  )

  abbrev pub accept_commit : Scan → ℕ → Scan × Bool
  accept_commit s tx_id = (
    record s {
      replayed =
          handle_commit last_checkpoint_tx (count_record last_checkpoint_tx tx_id s.replayed) tx_id;
    },
    true,
  )

  -- A record of version 2 behind its type: length, checksum, and a payload of `n` bytes.
  abbrev pub framed : ℕ → ℕ → (Scan → List ℕ → Scan × Bool) → Scan → Scan × Bool
  framed record_type n accept s = reading (read_exact 2 s.rest) s (λ length_bytes s.
      let record_length = from_le_bytes length_bytes in
      if not (record_length == 4 + n)
      then lose_framing s
      else reading (read_exact 4 s.rest) s (λ checksum_bytes s.
        reading (read_exact n s.rest) s (λ payload s.
          if not (
            compute_checksum_v2 digest record_type record_length payload
            == from_le_bytes checksum_bytes)
          then skip_corrupt s
          else accept s payload)))

  unfoldable pub page_update_record_v2 : Scan → Scan × Bool
  unfolding read_exact compute_checksum_v2
  page_update_record_v2 =
      framed record_type_page_update (24 + page_size)
        (λ s payload. accept_page s (from_le_bytes (slice payload 0 8)) (update_in payload))

  unfoldable pub page_update_record_v1 : Scan → Scan × Bool
  unfolding read_exact
  page_update_record_v1 s = reading (read_exact 4 s.rest) s (λ checksum_bytes s.
      reading (read_exact 8 s.rest) s (λ tx_id_bytes s.
        reading (read_exact 8 s.rest) s (λ file_id_bytes s.
          reading (read_exact 8 s.rest) s (λ page_idx_bytes s.
            reading (read_exact page_size s.rest) s (λ page_data s.
              if not (
                digest (
                  record_type_page_update ∷ tx_id_bytes
                  ++ (file_id_bytes ++ (page_idx_bytes ++ page_data)))
                == from_le_bytes checksum_bytes)
              then skip_corrupt s
              else accept_page s (from_le_bytes tx_id_bytes) (record {
                file_id = from_le_bytes file_id_bytes;
                page_idx = from_le_bytes page_idx_bytes;
                page_data = page_data;
              }))))))

  unfoldable pub commit_record_v2 : Scan → Scan × Bool
  unfolding read_exact compute_checksum_v2
  commit_record_v2 =
      framed record_type_commit 8 (λ s tx_id_bytes. accept_commit s (from_le_bytes tx_id_bytes))

  unfoldable pub commit_record_v1 : Scan → Scan × Bool
  unfolding read_exact
  commit_record_v1 s = reading (read_exact 4 s.rest) s (λ checksum_bytes s.
      reading (read_exact 8 s.rest) s (λ tx_id_bytes s.
        if not (digest (record_type_commit ∷ tx_id_bytes) == from_le_bytes checksum_bytes)
        then skip_corrupt s
        else accept_commit s (from_le_bytes tx_id_bytes)))

  unfoldable pub read_and_apply_page_update : Scan → Scan × Bool
  unfolding page_update_record_v2 page_update_record_v1
  read_and_apply_page_update s =
      if ltb wal_version 2 then page_update_record_v1 s else page_update_record_v2 s

  unfoldable pub read_and_apply_commit : Scan → Scan × Bool
  unfolding commit_record_v2 commit_record_v1
  read_and_apply_commit s = if ltb wal_version 2 then commit_record_v1 s else commit_record_v2 s

  -- The bytes are thrown away piece by piece; all of them must be there.
  unfoldable pub skip_unknown_record : Scan → Scan × Bool
  unfolding read_exact
  skip_unknown_record s =
      if ltb wal_version 2
      then skip_corrupt s
      else reading (read_exact 2 s.rest) s (λ length_bytes s.
        let record_length = from_le_bytes length_bytes in
        if ltb max_skip_per_corrupt_record record_length
        then lose_framing s
        else reading (read_exact record_length s.rest) s (λ discarded s. skip_corrupt s))

  -- The body of the loop, at a record's type.
  unfoldable pub scan_record : ℕ → Scan → Scan × Bool
  unfolding read_and_apply_page_update read_and_apply_commit skip_unknown_record
  scan_record record_type s =
      if record_type == record_type_page_update
      then read_and_apply_page_update s
      else if record_type == record_type_commit
      then read_and_apply_commit s
      else if record_type == 0
      then (s, false)
      else skip_unknown_record s

  abbrev pub go_on : (Scan → Option Scan) → Scan × Bool → Option Scan
  go_on loop (s, accepted) = if s.partial_record_at_eof || s.framing_lost then some s else loop s

  -- The loop, on fuel.
  unfoldable pub scan_loop : ℕ → Scan → Option Scan
  unfolding scan_record read_exact
  scan_loop zero s = none
  scan_loop (suc fuel) s = elim (read_exact 1 s.rest) [
    | none ↦ some s
    | some (record_type, rest) ↦
        go_on (scan_loop fuel) (scan_record (from_le_bytes record_type) (record s { rest = rest }))
  ]

  abbrev pub new_scan : List ℕ → Scan
  new_scan rest = record {
    replayed = new_replay;
    rest = rest;
    corrupt_records_skipped = 0;
    partial_record_at_eof = false;
    framing_lost = false;
  }

  abbrev pub drained : Replay → Replay
  drained r = record r {
    pending = [];
    applied = drain last_checkpoint_tx r.commits r.pending r.applied;
  }

  abbrev pub drain_pending : Scan → Scan
  drain_pending s = record s { replayed = drained s.replayed }

  -- `replay`, on the bytes behind the file's header.
  unfoldable pub replay_bytes : ℕ → List ℕ → Option Scan
  unfolding scan_loop
  replay_bytes fuel bytes = Option.map drain_pending (scan_loop fuel (new_scan bytes))
