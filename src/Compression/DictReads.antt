-- ===== src/Compression/DictReads.antt =====
-- crates/lightning-core/src/storage/compression/dict.rs: the compression of a block, and the read of one
-- value, as what they compute.
use lightning_db.Prelude.{
  if_false, ℕ, zero, suc, ◌+◌, ◌-◌, ◌*◌, ◌/◌, ◌%◌, ◌^◌, ◌≤◌, ◌<◌, ◌≡◌, min, max, refl, ap, ◌∙◌,
  true, false, List, [], ◌++◌, arith, leb, ltb, ◌==◌, le→leb, if◌then◌else◌, Bool-cases, inl, inr,
  length, get_or, take, drop, replicate, Result, ok, err,
}
use lightning_db.Prelude.Bytes.{le_bytes, from_le_bytes, slice, copy_to, length-slice}
use lightning_db.Prelude.Bits.{pow-suc}
use lightning_db.Compression.{pack_32, unpack_32}
use lightning_db.Compression.Codecs.{Compressed, CodecError, internal, compressed_size}
use lightning_db.Compression.Codecs.Dict.{index_loop, write_dict, bit_length, entry_loop}
use lightning_db.Compression.Codecs.Dict

pub bit_length-le : (fuel n k : ℕ) → n < 2 ^ k → bit_length fuel n ≤ k
unfolding bit_length
bit_length-le zero n k h = omega arith
bit_length-le (suc fuel) n zero h =
    let none : (n == 0) ≡ true = ground (arith, h) in rw none (omega arith)
bit_length-le (suc fuel) n (suc k) h = elim (Bool-cases (n == 0)) [
  | inl none ↦ rw none (omega arith)
  | inr some_bits ↦
      let half = bit_length-le fuel (n / 2) k (omega (arith, h, pow-suc k)) in
      rw some_bits (omega (arith, half))
]

abbrev pub width : ℕ → ℕ
width dict_count = max (bit_length 64 dict_count) 1

-- What the compression gives, where the loop over the values gave the dictionary.
abbrev pub packed_with : List (List ℕ) → List ℕ → ℕ → List ℕ → Compressed
packed_with words indices n dst =
    let offset : ℕ = 4 + length words * 8 in
    let dst' : List ℕ = write_dict words 4 (copy_to dst 0 (le_bytes 4 (length words))) in
    record {
      dst =
          take offset dst'
          ++ pack_32 (indices ++ replicate (32 - n) 0) (width (length words)) (drop offset dst');
      size = offset + compressed_size (width (length words));
      processed = n;
    }

pub compressed_lem :
    (src dst : List ℕ) (n : ℕ) (words : List (List ℕ)) (indices : List ℕ)
    → 0 < n
    → n ≤ 32
    → index_loop n 0 src [] ≡ ok (words, indices)
    → 4 + length words * 8 + 32 ≤ length dst
    → Dict.compress_next_page src n dst ≡ ok (packed_with words indices n dst)
unfolding Dict.compress_next_page
compressed_lem src dst n words indices some_values few e room =
    let whole : min n 32 ≡ n = omega arith in
    let go : (n == 0) ≡ false = ground arith in
    let fits : ltb (length dst) (4 + length words * 8 + 32) ≡ false = ground arith in
    rw (whole, go, e, fits) refl

not_below : (a b : ℕ) → b ≤ a → ltb a b ≡ false
not_below a b h = ground arith

not_up_to : (a b : ℕ) → b < a → leb a b ≡ false
not_up_to a b h = ground arith

not_none : (a b : ℕ) → b < a → (a == 0) ≡ false
not_none a b h = ground arith

-- The loop for one value.
one_entry :
    (indices dict_bytes temp : List ℕ) (i dict_count k : ℕ)
    → get_or indices (i % 32) 0 ≡ k
    → k < dict_count
    → length (slice dict_bytes (k * 8) 8) ≡ 8
    → length temp ≡ 256
    → entry_loop 1 indices dict_count dict_bytes i temp 0
      ≡ ok (copy_to temp 0 (slice dict_bytes (k * 8) 8))
unfolding entry_loop
one_entry indices dict_bytes temp i dict_count k index inside l full =
    let valid = not_up_to dict_count k inside in
    let fits : leb (0 + length (slice dict_bytes (k * 8) 8)) (length temp) ≡ true =
      le→leb _ _ (omega (arith, l, full)) in
    rw (index, valid, fits) refl

abbrev pub indices_in : List ℕ → ℕ → List ℕ
indices_in page dict_count =
    unpack_32 (drop (4 + dict_count * 8) page) (width dict_count) (replicate 32 0)

-- The read for a number of entries.
abbrev entry_read : List ℕ → List ℕ → ℕ → ℕ → Result CodecError (List ℕ)
entry_read page temp i dict_count =
    entry_loop 1 (indices_in page dict_count) dict_count (slice page 4 (dict_count * 8)) i temp 0

abbrev guarded_read : List ℕ → List ℕ → ℕ → ℕ → Result CodecError (List ℕ)
guarded_read page temp i dict_count =
    if ltb (length page) 4
    then err internal
    else if dict_count == 0
    then ok temp
    else if ltb (length page) (4 + dict_count * 8)
    then err internal
    else entry_read page temp i dict_count

looks_into :
    (page temp : List ℕ) (i dict_count : ℕ)
    → from_le_bytes (take 4 page) ≡ dict_count
    → 0 < dict_count
    → 4 + dict_count * 8 ≤ length page
    → Dict.decompress_from_page page i temp 0 1 ≡ entry_read page temp i dict_count
unfolding Dict.decompress_from_page
looks_into page temp i dict_count counted some_entry room =
    ap (guarded_read page temp i) counted
    ∙ if_false (ltb (length page) 4) (err internal) _
        (not_below (length page) 4 (omega (arith, room)))
    ∙ if_false (dict_count == 0) (ok temp) _ (not_none dict_count 0 some_entry)
    ∙ if_false (ltb (length page) (4 + dict_count * 8)) (err internal)
        (entry_read page temp i dict_count) (not_below (length page) (4 + dict_count * 8) room)

-- A read of one value.
pub read_lem :
    (page temp : List ℕ) (i dict_count k : ℕ)
    → from_le_bytes (take 4 page) ≡ dict_count
    → k < dict_count
    → 4 + dict_count * 8 ≤ length page
    → get_or (indices_in page dict_count) (i % 32) 0 ≡ k
    → length temp ≡ 256
    → Dict.decompress_from_page page i temp 0 1
      ≡ ok (copy_to temp 0 (slice (slice page 4 (dict_count * 8)) (k * 8) 8))
read_lem page temp i dict_count k counted inside room index full =
    let dict_bytes = length-slice page 4 (dict_count * 8) room in
    let l =
      length-slice (slice page 4 (dict_count * 8)) (k * 8) 8 (omega (arith, dict_bytes, inside)) in
    looks_into page temp i dict_count counted (omega (arith, inside)) room
    ∙ one_entry (indices_in page dict_count) (slice page 4 (dict_count * 8)) temp i dict_count k
        index inside l full
