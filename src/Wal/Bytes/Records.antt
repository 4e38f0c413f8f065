-- ===== src/Wal/Bytes/Records.antt =====
-- crates/lightning-core/src/storage/wal.rs, `WALRecordIter::next_record`: what the reader answers where a
-- whole record stands.
use lightning_db.Prelude.{
  ℕ, suc, ◌+◌, ◌^◌, ◌≤◌, ◌<◌, ◌≡◌, refl, ap, ◌∙◌, true, false, none, some, List, ◌∷◌, ◌++◌, arith,
  ltb, leb, length, get_or, take, drop, length-append, lt→ltb, ==_refl,
}
use lightning_db.Prelude.Bytes.{
  get_or-drop, length_of_drop, le_bytes, from_le_bytes, from_le_bytes-le_bytes, take-exact,
  drop-add,
}
use lightning_db.Wal.{PageUpdate}
use lightning_db.Wal.Bytes.{
  WalRecordIter, page_update, commit, done, advance, round, next_record, record_v2,
  compute_checksum_v2, page_payload, page_update_v2, commit_v2, bytes_at, number_at, align_position,
  page_bytes, commit_bytes, too_short,
}

-- What an update of the log must fit in: 64-bit numbers, and a page of data.
pub record Fits (tx_id : ℕ) (u : PageUpdate) : Type 0 where
  pub id_fits : tx_id < 2 ^ 64
  pub file_fits : u.file_id < 2 ^ 64
  pub page_fits : u.page_idx < 2 ^ 64
  pub data_fits : length u.page_data ≡ 4096

module _ (digest : List ℕ → ℕ) (digest_fits : (bytes : List ℕ) → digest bytes < 2 ^ 32) where
  bytes_at-eq :
      (it : WalRecordIter) {xs : List ℕ} (from n : ℕ)
      → drop it.pos it.buf ≡ xs
      → bytes_at it from n ≡ take n (drop from xs)
  bytes_at-eq it from n e = ap (take n) (drop-add it.pos from it.buf ∙ ap (drop from) e)

  -- What the reader finds at a whole page record: length, checksum, payload, and the fields in it.
  record PageRead (it : WalRecordIter) (tx_id : ℕ) (u : PageUpdate) : Type 0 where
    len : number_at it 1 2 ≡ 4124
    crc : number_at it 3 4 ≡ compute_checksum_v2 digest 1 4124 (page_payload digest tx_id u)
    payload : bytes_at it 7 4120 ≡ page_payload digest tx_id u
    id : number_at it 7 8 ≡ tx_id
    file : number_at it 15 8 ≡ u.file_id
    page : number_at it 23 8 ≡ u.page_idx
    content : bytes_at it 31 4096 ≡ u.page_data

  page_update_v2-PageRead :
      (it : WalRecordIter) (tx_id : ℕ) (u : PageUpdate)
      → PageRead it tx_id u
      → page_update_v2 digest it ≡ done (advance it 4127) (some (page_update tx_id u))
  unfolding page_update_v2
  page_update_v2-PageRead it tx_id u r =
      rw (r.len, r.payload, r.crc, r.id, r.file, r.page, r.content, ==_refl) refl

  page_bytes-PageRead :
      (it : WalRecordIter) (tx_id : ℕ) (u : PageUpdate) (rest : List ℕ)
      → Fits tx_id u
      → drop it.pos it.buf ≡ page_bytes digest tx_id u ++ rest
      → PageRead it tx_id u
  unfolding record_v2 compute_checksum_v2 le_bytes
  page_bytes-PageRead it tx_id u rest fits e =
      let data_read = take-exact 4096 u.page_data rest fits.data_fits in
      let ids = λ (d : List ℕ).
        le_bytes 8 tx_id ++ (le_bytes 8 u.file_id ++ (le_bytes 8 u.page_idx ++ d)) in
      record {
        len = number_read 1 2 4124 (omega arith) refl;
        crc = number_read 3 4 _ (digest_fits _) refl;
        payload = bytes_at-eq it 7 4120 e ∙ ap ids data_read;
        id = number_read 7 8 tx_id fits.id_fits refl;
        file = number_read 15 8 u.file_id fits.file_fits refl;
        page = number_read 23 8 u.page_idx fits.page_fits refl;
        content = bytes_at-eq it 31 4096 e ∙ data_read;
      }
    where
      number_read :
          (from n v : ℕ)
          → v < 256 ^ n
          → take n (drop from (page_bytes digest tx_id u ++ rest)) ≡ le_bytes n v
          → number_at it from n ≡ v
      number_read from n v h read =
          ap from_le_bytes (bytes_at-eq it from n e ∙ read) ∙ from_le_bytes-le_bytes n v h

  pub length-page_bytes :
      (tx_id : ℕ) (u : PageUpdate) → Fits tx_id u → length (page_bytes digest tx_id u) ≡ 4127
  unfolding record_v2 compute_checksum_v2 le_bytes
  length-page_bytes tx_id u fits = omega (arith, fits.data_fits)

  -- The reader answers a page record where one stands whole, and goes past it.
  pub next_record-page_bytes :
      (fuel : ℕ) (it : WalRecordIter) (tx_id : ℕ) (u : PageUpdate) (rest : List ℕ)
      → it.version ≡ 2
      → Fits tx_id u
      → drop it.pos it.buf ≡ page_bytes digest tx_id u ++ rest
      → next_record digest (suc fuel) it ≡ some (advance it 4127, some (page_update tx_id u))
  unfolding next_record round record_v2
  next_record-page_bytes fuel it tx_id u rest v fits e =
      let first : get_or it.buf it.pos 0 ≡ 1 =
        get_or-drop it.pos it.buf 0 ∙ ap (λ (xs : List ℕ). get_or xs 0 0) e in
      let total : length it.buf ≡ it.pos + (4127 + length rest) =
        length_of_drop it.pos it.buf e (let p : 0 < suc _ = omega arith in p)
        ∙ ap (λ (n : ℕ). it.pos + n)
            (length-append (page_bytes digest tx_id u) rest
              ∙ ap (λ (n : ℕ). n + length rest) (length-page_bytes tx_id u fits)) in
      let inside : ltb it.pos (length it.buf) ≡ true = lt→ltb _ _ (omega arith) in
      let whole : too_short it 4127 ≡ false = ground arith in
      let new : leb 2 it.version ≡ true = ground arith in
      rw
        (
          inside,
          first,
          new,
          whole,
          page_update_v2-PageRead it tx_id u (page_bytes-PageRead it tx_id u rest fits e),
        )
        refl

  record CommitRead (it : WalRecordIter) (tx_id : ℕ) : Type 0 where
    len : number_at it 1 2 ≡ 12
    crc : number_at it 3 4 ≡ compute_checksum_v2 digest 2 12 (le_bytes 8 tx_id)
    payload : bytes_at it 7 8 ≡ le_bytes 8 tx_id

  commit_v2-CommitRead :
      (it : WalRecordIter) (tx_id : ℕ)
      → tx_id < 2 ^ 64
      → CommitRead it tx_id
      → commit_v2 digest it ≡ done (align_position (advance it 15)) (some (commit tx_id))
  unfolding commit_v2
  commit_v2-CommitRead it tx_id h r =
      rw (r.len, r.payload, r.crc, ==_refl, from_le_bytes-le_bytes 8 tx_id h) refl

  commit_bytes-CommitRead :
      (it : WalRecordIter) (tx_id : ℕ) (rest : List ℕ)
      → drop it.pos it.buf ≡ commit_bytes digest tx_id ++ rest
      → CommitRead it tx_id
  unfolding record_v2 compute_checksum_v2 le_bytes
  commit_bytes-CommitRead it tx_id rest e = record {
    len = ap from_le_bytes (bytes_at-eq it 1 2 e) ∙ from_le_bytes-le_bytes 2 12 (omega arith);
    crc = ap from_le_bytes (bytes_at-eq it 3 4 e) ∙ from_le_bytes-le_bytes 4 _ (digest_fits _);
    payload = bytes_at-eq it 7 8 e;
  }

  pub length-commit_bytes : (tx_id : ℕ) → length (commit_bytes digest tx_id) ≡ 15
  unfolding record_v2 compute_checksum_v2 le_bytes
  length-commit_bytes tx_id = omega arith

  -- The reader answers a commit record where one stands whole, and goes to the next multiple of eight.
  pub next_record-commit_bytes :
      (fuel : ℕ) (it : WalRecordIter) (tx_id : ℕ) (rest : List ℕ)
      → it.version ≡ 2
      → tx_id < 2 ^ 64
      → drop it.pos it.buf ≡ commit_bytes digest tx_id ++ rest
      → next_record digest (suc fuel) it
        ≡ some (align_position (advance it 15), some (commit tx_id))
  unfolding next_record round record_v2
  next_record-commit_bytes fuel it tx_id rest v h e =
      let first : get_or it.buf it.pos 0 ≡ 2 =
        get_or-drop it.pos it.buf 0 ∙ ap (λ (xs : List ℕ). get_or xs 0 0) e in
      let total : length it.buf ≡ it.pos + (15 + length rest) =
        length_of_drop it.pos it.buf e (let p : 0 < suc _ = omega arith in p)
        ∙ ap (λ (n : ℕ). it.pos + n)
            (length-append (commit_bytes digest tx_id) rest
              ∙ ap (λ (n : ℕ). n + length rest) (length-commit_bytes tx_id)) in
      let inside : ltb it.pos (length it.buf) ≡ true = lt→ltb _ _ (omega arith) in
      let whole : too_short it 15 ≡ false = ground arith in
      let new : leb 2 it.version ≡ true = ground arith in
      rw
        (
          inside,
          first,
          new,
          whole,
          commit_v2-CommitRead it tx_id h (commit_bytes-CommitRead it tx_id rest e),
        )
        refl

  -- A byte of padding takes a round, and is no record.
  pub next_record_padding :
      (fuel : ℕ) (it : WalRecordIter) (rest : List ℕ)
      → drop it.pos it.buf ≡ 0 ∷ rest
      → next_record digest (suc fuel) it ≡ next_record digest fuel (advance it 1)
  unfolding next_record round
  next_record_padding fuel it rest e =
      let first : get_or it.buf it.pos 0 ≡ 0 =
        get_or-drop it.pos it.buf 0 ∙ ap (λ (xs : List ℕ). get_or xs 0 0) e in
      let total = length_of_drop it.pos it.buf e (omega arith) in
      let inside : ltb it.pos (length it.buf) ≡ true = lt→ltb _ _ (omega arith) in
      rw (inside, first) refl

  pub next_record_end :
      (fuel : ℕ) (it : WalRecordIter)
      → length it.buf ≤ it.pos
      → next_record digest (suc fuel) it ≡ some (it, none)
  unfolding next_record
  next_record_end fuel it h =
      let over : ltb it.pos (length it.buf) ≡ false = ground arith in rw over refl
