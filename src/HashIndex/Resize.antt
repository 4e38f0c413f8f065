-- ===== src/HashIndex/Resize.antt =====
-- crates/lightning-core/src/storage/index/hash_index.rs: the scan of all entries, and the doubling of
-- the number of buckets.
use lightning_db.Prelude.{
  ℕ, zero, suc, ◌+◌, ◌-◌, ◌*◌, List, [], ◌∷◌, ◌++◌, ◌==◌, not, if◌then◌else◌, length, set,
  replicate, Result, ok, err, ◌>>=◌, filter,
}
use lightning_db.HashIndex.Values.{Value, IndexError, out_of_fuel, deserialize_value}
use lightning_db.HashIndex.{
  Entry, BucketPage, HashIndex, make_page, make_index, empty_page, page_at, read_header, is_deleted,
  insert_internal,
}

-- The live entries of a bucket's pages.
unfoldable pub live_entries : ℕ → List BucketPage → ℕ → Result IndexError (List Entry)
live_entries zero pages current = err out_of_fuel
live_entries (suc fuel) pages current =
    let live : List Entry =
      filter (λ entry. not (is_deleted entry)) (page_at pages current).entries in
    let rest =
      live_entries fuel pages (page_at pages current).next_page >>= λ later. ok (live ++ later) in
    if (page_at pages current).next_page == 0 then ok live else rest

-- for bucket_idx in first..first + n
unfoldable pub collect_buckets : List BucketPage → ℕ → ℕ → Result IndexError (List Entry)
collect_buckets pages bucket_idx zero = ok []
collect_buckets pages bucket_idx (suc n) = live_entries (length pages) pages bucket_idx >>= λ live.
    collect_buckets pages (suc bucket_idx) n >>= λ later. ok (live ++ later)

unfoldable pub collect_all_entries : HashIndex → Result IndexError (List Entry)
collect_all_entries index = collect_buckets index.pages 1 (read_header index)

unfoldable pub decode_entries : List Entry → Result IndexError (List (Value × ℕ))
decode_entries [] = ok []
decode_entries (entry ∷ rest) = deserialize_value entry.val_bytes >>= λ key.
    decode_entries rest >>= λ later. ok ((key, entry.row_id) ∷ later)

unfoldable pub entries_of : HashIndex → Result IndexError (List (Value × ℕ))
entries_of index = collect_all_entries index >>= decode_entries

-- The `?` behind an insertion.
abbrev pub and_then :
    HashIndex × Result IndexError (Unit {0})
    → (HashIndex → HashIndex × Result IndexError (Unit {0}))
    → HashIndex × Result IndexError (Unit {0})
and_then (index, ok u) next = next index
and_then (index, err e) next = (index, err e)

unfoldable pub reinsert : HashIndex → List Entry → HashIndex × Result IndexError (Unit {0})
reinsert index [] = (index, ok tt)
reinsert index (entry ∷ rest) =
    and_then (insert_internal index entry.stored_hash entry.val_bytes entry.row_id)
      λ index'. reinsert index' rest

-- Empty pages up to `needed` ones.
unfoldable pub extended : ℕ → List BucketPage → List BucketPage
extended needed pages = pages ++ replicate (needed - length pages) empty_page

-- for page_idx in page_idx..page_idx + n
unfoldable pub zero_pages : ℕ → ℕ → List BucketPage → List BucketPage
zero_pages page_idx zero pages = pages
zero_pages page_idx (suc n) pages = zero_pages (suc page_idx) n (set pages page_idx empty_page)

abbrev pub write_num_buckets : ℕ → List BucketPage → List BucketPage
write_num_buckets nb pages = set pages 0 (make_page nb (page_at pages 0).entries)

-- The index with its pages of twice the number of buckets, the header written.
unfoldable pub doubled : HashIndex → HashIndex
doubled index =
    let new_buckets : ℕ = index.num_buckets * 2 in
    make_index new_buckets (
      write_num_buckets new_buckets (
        zero_pages (index.num_buckets + 1) (new_buckets - index.num_buckets)
          (extended (1 + new_buckets) index.pages)))

abbrev pub resize_with :
    HashIndex → Result IndexError (List Entry) → HashIndex × Result IndexError (Unit {0})
resize_with index (ok entries) = reinsert (doubled index) entries
resize_with index (err e) = (index, err e)

unfoldable pub resize : HashIndex → HashIndex × Result IndexError (Unit {0})
resize index = resize_with index (collect_all_entries index)
