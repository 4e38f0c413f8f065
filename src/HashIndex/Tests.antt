-- ===== src/HashIndex/Tests.antt =====
-- crates/lightning-core/src/storage/index/hash_index.rs: runs of an index, and the theorems at them.
use lightning_db.Prelude.{
  err, ℕ, zero, suc, ◌≡◌, refl, true, false, List, [], ◌∷◌, ok, none, some, length, arith,
  replicate,
}
use lightning_db.Prelude.Bytes.{copy_to, le_bytes, from_le_bytes}
use lightning_db.HashIndex.Values.{
  other, unsupported, Value, number, string, node, by_tag, serialize_value, deserialize_value,
  value_eq,
}
use lightning_db.HashIndex.RoundTrip.{deserialize-serialize_value}
use lightning_db.HashIndex.Pairs.{rows_of}
use lightning_db.HashIndex.Calls.{
  Call, inserts, deletes, looks_up, looks_up_multi, reopens, inserted, deleted, found, found_multi,
  answers, expected, answers-open_or_create_with_buckets,
}
use lightning_db.HashIndex.Entries.{after, rows_after, entries_of-after}
use lightning_db.HashIndex.Pages.{IsFile, changes_stay_inside}
use lightning_db.HashIndex.Resize.{
  resize, doubled, extended, zero_pages, reinsert, collect_all_entries, collect_buckets,
  live_entries, entries_of,
}
use lightning_db.HashIndex.{
  HashIndex, open_or_create_with_buckets, initialize_header, insert, insert_hashed, insert_loop,
  following, write_entry_to_page, blank_key, deleted_bit, compute_hash, delete, matches,
  lookup_multi, lookup_loop, scan_bucket_page, insert_internal, make_index,
}

-- One hash for all.
abbrev same_hash : Value → ℕ
same_hash key = 4

abbrev calls : List Call
calls =
    inserts (number 5) 10
    ∷ inserts (string (104 ∷ 105 ∷ [])) 11
    ∷ inserts (number 5) 12
    ∷ deletes (number 5) 10
    ∷ deletes (number 5) 10
    ∷ reopens 64
    ∷ inserts (other 0) 13
    ∷ looks_up (number 5)
    ∷ looks_up_multi (string (104 ∷ 105 ∷ [])) none
    ∷ []

answers-open_or_create_with_buckets_example :
    answers same_hash (open_or_create_with_buckets 2) calls
    ≡ inserted (ok tt)
      ∷ inserted (ok tt)
      ∷ inserted (ok tt)
      ∷ deleted (ok true)
      ∷ deleted (ok false)
      ∷ inserted (err unsupported)
      ∷ found (ok (some 12))
      ∷ found_multi (ok (11 ∷ []))
      ∷ []
unfolding expected value_eq
answers-open_or_create_with_buckets_example =
    answers-open_or_create_with_buckets same_hash 2 calls
      (omega arith, (tt, (omega arith, (tt, (tt, (tt, (tt, (tt, (tt, tt)))))))))

entries_of-after_example :
    (pairs : List (Value × ℕ)) × (entries_of (after same_hash (open_or_create_with_buckets 2) calls)
        ≡ ok pairs
      × ((key : Value) → rows_of key pairs ≡ rows_after (λ k. []) calls key))
entries_of-after_example =
    entries_of-after same_hash 2 calls
      (omega arith, (tt, (omega arith, (tt, (tt, (tt, (tt, (tt, (tt, tt)))))))))

-- Twenty entries of one bucket are on two pages.
filled : ℕ → HashIndex → HashIndex
filled zero index = index
filled (suc n) index = (insert same_hash (filled n index) (node 7) n).0

twenty_found :
    lookup_multi same_hash (filled 20 (open_or_create_with_buckets 1)) (node 7) (some 17)
    ≡ ok (0 ∷ 1 ∷ 2 ∷ 3 ∷ 4 ∷ 5 ∷ 6 ∷ 7 ∷ 8 ∷ 9 ∷ 10 ∷ 11 ∷ 12 ∷ 13 ∷ 14 ∷ 15 ∷ 16 ∷ [])
unfolding filled open_or_create_with_buckets initialize_header insert insert_hashed insert_loop
    following write_entry_to_page blank_key deleted_bit compute_hash lookup_multi lookup_loop
    scan_bucket_page matches serialize_value deserialize_value by_tag value_eq copy_to le_bytes
    from_le_bytes
twenty_found = refl

-- A doubling leaves the old pages as they are and inserts their entries again: a key whose bucket
-- stays has its row twice.
doubled_twice :
    lookup_multi same_hash
      (resize (insert same_hash (open_or_create_with_buckets 1) (node 7) 3).0).0
      (node 7)
      none
    ≡ ok (3 ∷ 3 ∷ [])
unfolding open_or_create_with_buckets initialize_header insert insert_hashed insert_loop following
    write_entry_to_page blank_key deleted_bit compute_hash lookup_multi lookup_loop scan_bucket_page
    matches serialize_value deserialize_value by_tag value_eq copy_to le_bytes from_le_bytes resize
    doubled extended zero_pages reinsert insert_internal collect_all_entries collect_buckets
    live_entries
doubled_twice = refl

changes_stay_inside_example :
    IsFile (insert same_hash (make_index 1 []) (node 7) 3).0.pages
    × IsFile (delete same_hash (make_index 1 []) (node 7) 3).0.pages
    × IsFile (resize (make_index 1 [])).0.pages
changes_stay_inside_example = changes_stay_inside same_hash (make_index 1 []) (node 7) 3 tt

deserialize-serialize_value_example :
    (out : List ℕ) × (serialize_value (string (104 ∷ 105 ∷ [])) (replicate 256 0) ≡ ok out
      × length out ≡ 256
      × deserialize_value out ≡ ok (string (104 ∷ 105 ∷ [])))
deserialize-serialize_value_example =
    deserialize-serialize_value (replicate 256 0) refl (string (104 ∷ 105 ∷ [])) (omega arith)
