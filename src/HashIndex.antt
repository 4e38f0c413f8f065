-- ===== src/HashIndex.antt =====
-- crates/lightning-core/src/storage/index/hash_index.rs: the index of a column, a file of buckets.
-- A page is the link to the next one (its bytes 0 to 8) and its entries, of which byte 8 holds the
-- number; the header, page 0, has the number of buckets where a bucket has its link. The state is
-- the file as one transaction reads it: a page past the end is read as zeros. A file of an index
-- frees no page, so that a new page is the last one. A reopening finds the file as it was last seen.
pub mod Values
pub mod RoundTrip
pub mod Resize
pub mod Pairs
pub mod Keys
pub mod Searches
pub mod Chains
pub mod Writes
pub mod Inserts
pub mod Deletes
pub mod Refusals
pub mod Represents
pub mod Updates
pub mod Calls
pub mod Pages
pub mod Entries
mod Tests
use mathlib.Core.Option
use lightning_db.Prelude.{
  ℕ, zero, suc, ◌+◌, ◌-◌, ◌*◌, ◌^◌, ◌%◌, ◌/◌, max, Bool, true, false, ◌&&◌, List, [], ◌∷◌, ◌++◌,
  leb, ltb, ◌==◌, if◌then◌else◌, length, get_or, set, replicate, Result, ok, err, ◌>>=◌, Option,
  none, some, filter, not, map,
}
use lightning_db.HashIndex.Values.{
  Value, IndexError, page_full, key_length, reinit_failed, out_of_fuel, max_val_size, value_eq,
  serialize_value, deserialize_value,
}

pub record Entry : Type 0 where
  pub stored_hash : ℕ
  pub val_bytes : List ℕ
  pub row_id : ℕ

pub record BucketPage : Type 0 where
  pub next_page : ℕ
  pub entries : List Entry

pub record HashIndex : Type 0 where
  pub num_buckets : ℕ
  pub pages : List BucketPage

abbrev pub make_entry : ℕ → List ℕ → ℕ → Entry
make_entry hash bytes row = record { stored_hash = hash; val_bytes = bytes; row_id = row }

abbrev pub make_page : ℕ → List Entry → BucketPage
make_page next content = record { next_page = next; entries = content }

abbrev pub make_index : ℕ → List BucketPage → HashIndex
make_index nb content = record { num_buckets = nb; pages = content }

abbrev pub page_size : ℕ
page_size = 4096

abbrev pub entry_size : ℕ
entry_size = 8 + max_val_size + 8

abbrev pub max_entries_per_page : ℕ
max_entries_per_page = (page_size - 16) / entry_size

unfoldable pub deleted_bit : ℕ
deleted_bit = 2 ^ 63

abbrev pub empty_page : BucketPage
empty_page = make_page 0 []

abbrev pub page_at : List BucketPage → ℕ → BucketPage
page_at pages current = get_or pages current empty_page

-- vec![0u8; MAX_VAL_SIZE]
unfoldable pub blank_key : List ℕ
blank_key = replicate max_val_size 0

unfoldable pub initialize_header : HashIndex → HashIndex
initialize_header index =
    make_index index.num_buckets
      (index.pages ++ (make_page index.num_buckets [] ∷ replicate index.num_buckets empty_page))

-- A new file.
unfoldable pub open_or_create_with_buckets : ℕ → HashIndex
open_or_create_with_buckets initial_buckets =
    initialize_header (make_index (max initial_buckets 1) [])

abbrev pub open_or_create : HashIndex
open_or_create = open_or_create_with_buckets 64

abbrev pub buckets : HashIndex → ℕ
buckets index = index.num_buckets

abbrev pub read_header : HashIndex → ℕ
read_header index = (page_at index.pages 0).next_page

-- A file that exists: the number of buckets is that of the header, where the file has one.
unfoldable pub open_existing : ℕ → List BucketPage → HashIndex
open_existing initial_buckets [] = make_index (max initial_buckets 1) []
open_existing initial_buckets (header ∷ rest) = make_index (max header.next_page 1) (header ∷ rest)

unfoldable pub write_entry_to_page : BucketPage → ℕ → List ℕ → ℕ → Result IndexError BucketPage
write_entry_to_page page hash key_bytes row_id =
    if ltb page_size (16 + length page.entries * entry_size + entry_size)
    then err page_full
    else if length key_bytes == max_val_size
    then ok (make_page page.next_page (page.entries ++ (make_entry hash key_bytes row_id ∷ [])))
    else err key_length

-- allocate_overflow_page, and the link to the new page in the full one
abbrev pub linked : List BucketPage → ℕ → List BucketPage
linked pages current =
    set (pages ++ (empty_page ∷ [])) current
      (make_page (length pages) (page_at pages current).entries)

-- The page after a full one, which is allocated where there is none.
unfoldable pub following : List BucketPage → ℕ → List BucketPage × ℕ
following pages current =
    if (page_at pages current).next_page == 0
    then (linked pages current, length pages)
    else (pages, (page_at pages current).next_page)

abbrev pub written :
    List BucketPage
    → ℕ
    → Result IndexError BucketPage
    → List BucketPage × Result IndexError (Unit {0})
written pages current (ok page) = (set pages current page, ok tt)
written pages current (err e) = (pages, err e)

unfoldable pub insert_loop :
    ℕ
    → List BucketPage
    → ℕ
    → ℕ
    → Result IndexError (List ℕ)
    → ℕ
    → List BucketPage × Result IndexError (Unit {0})
insert_loop zero pages current hash key row_id = (pages, err out_of_fuel)
insert_loop (suc fuel) pages current hash key row_id =
    let rest =
      insert_loop fuel (following pages current).0 (following pages current).1 hash key row_id in
    if ltb (length (page_at pages current).entries) max_entries_per_page
    then written pages current
        (key >>= λ key_bytes. write_entry_to_page (page_at pages current) hash key_bytes row_id)
    else rest

abbrev pub in_file :
    HashIndex
    → List BucketPage × Result IndexError (Unit {0})
    → HashIndex × Result IndexError (Unit {0})
in_file index change = (make_index index.num_buckets change.0, change.1)

-- 1 + (hash % nb)
abbrev pub target_bucket : ℕ → ℕ → ℕ
target_bucket hash nb = suc (hash % nb)

-- The walk from the bucket of a hash, of `nb` buckets.
abbrev pub insert_in_bucket :
    HashIndex → ℕ → ℕ → Result IndexError (List ℕ) → ℕ → HashIndex × Result IndexError (Unit {0})
insert_in_bucket index nb hash key row_id =
    in_file index
      (insert_loop (suc (length index.pages)) index.pages (target_bucket hash nb) hash key row_id)

unfoldable pub insert_hashed :
    HashIndex → ℕ → Result IndexError (List ℕ) → ℕ → HashIndex × Result IndexError (Unit {0})
insert_hashed index hash key row_id =
    if read_header index == 0
    then (let index' : HashIndex = initialize_header index in
        if buckets index' == 0
        then (index', err reinit_failed)
        else insert_in_bucket index' (buckets index') hash key row_id)
    else insert_in_bucket index (read_header index) hash key row_id

unfoldable pub insert_internal :
    HashIndex → ℕ → List ℕ → ℕ → HashIndex × Result IndexError (Unit {0})
insert_internal index hash key_bytes row_id = insert_hashed index hash (ok key_bytes) row_id

abbrev pub is_deleted : Entry → Bool
is_deleted entry = leb deleted_bit entry.stored_hash

unfoldable pub matches : Entry → ℕ → Value → Result IndexError Bool
matches entry hash key =
    if is_deleted entry
    then ok false
    else if entry.stored_hash == hash
    then (deserialize_value entry.val_bytes >>= λ stored_val. ok (value_eq stored_val key))
    else ok false

abbrev pub at_limit : Option ℕ → List ℕ → Bool
at_limit none results = false
at_limit (some l) results = leb l (length results)

unfoldable pub scan_bucket_page :
    List Entry → ℕ → Value → Option ℕ → List ℕ → Result IndexError (List ℕ)
scan_bucket_page [] hash key limit results = ok results
scan_bucket_page (entry ∷ rest) hash key limit results =
    if at_limit limit results
    then ok results
    else (matches entry hash key >>= λ found.
        scan_bucket_page rest hash key limit
          (if found then results ++ (entry.row_id ∷ []) else results))

unfoldable pub lookup_loop :
    ℕ → List BucketPage → ℕ → ℕ → Value → Option ℕ → List ℕ → Result IndexError (List ℕ)
lookup_loop zero pages current hash key limit results = err out_of_fuel
lookup_loop (suc fuel) pages current hash key limit results =
    scan_bucket_page (page_at pages current).entries hash key limit results >>= λ results'.
    (let rest = lookup_loop fuel pages (page_at pages current).next_page hash key limit results' in
      if (page_at pages current).next_page == 0 then ok results' else rest)

-- The place of the first live entry of a key and a row.
unfoldable pub find_entry : List Entry → ℕ → Value → ℕ → Result IndexError (Option ℕ)
find_entry [] hash key row_id = ok none
find_entry (entry ∷ rest) hash key row_id = matches entry hash key >>= λ found.
    if found && (entry.row_id == row_id)
    then ok (some 0)
    else (find_entry rest hash key row_id >>= λ place. ok (Option.map suc place))

-- hash | DELETED_BIT, for a hash in which the bit is not set
abbrev pub tombstone : Entry → ℕ → Entry
tombstone entry hash = make_entry (hash + deleted_bit) entry.val_bytes entry.row_id

abbrev pub delete_at : List BucketPage → ℕ → ℕ → ℕ → List BucketPage
delete_at pages current place hash =
    let page : BucketPage = page_at pages current in
    set pages current (
      make_page page.next_page
        (set page.entries place (tombstone (get_or page.entries place (make_entry 0 [] 0)) hash)))

-- What a page's search means for the walk, where `rest` is the walk from the next page.
abbrev pub deleted_in :
    List BucketPage
    → ℕ
    → ℕ
    → List BucketPage × Result IndexError Bool
    → Result IndexError (Option ℕ)
    → List BucketPage × Result IndexError Bool
deleted_in pages current hash rest (err e) = (pages, err e)
deleted_in pages current hash rest (ok (some place)) = (delete_at pages current place hash, ok true)
deleted_in pages current hash rest (ok none) =
    if (page_at pages current).next_page == 0 then (pages, ok false) else rest

unfoldable pub delete_loop :
    ℕ → List BucketPage → ℕ → ℕ → Value → ℕ → List BucketPage × Result IndexError Bool
delete_loop zero pages current hash key row_id = (pages, err out_of_fuel)
delete_loop (suc fuel) pages current hash key row_id =
    let rest = delete_loop fuel pages (page_at pages current).next_page hash key row_id in
    deleted_in pages current hash rest (find_entry (page_at pages current).entries hash key row_id)

abbrev pub first : List ℕ → Option ℕ
first [] = none
first (x ∷ xs) = some x

-- `hash` is the standard library's DefaultHasher over a value.
module _ (hash : Value → ℕ) where
  -- h.finish() & !DELETED_BIT
  unfoldable pub compute_hash : Value → ℕ
  compute_hash key = hash key % deleted_bit

  unfoldable pub insert : HashIndex → Value → ℕ → HashIndex × Result IndexError (Unit {0})
  insert index key row_id =
      insert_hashed index (compute_hash key) (serialize_value key blank_key) row_id

  unfoldable pub lookup_multi : HashIndex → Value → Option ℕ → Result IndexError (List ℕ)
  lookup_multi index key limit =
      if read_header index == 0
      then ok []
      else lookup_loop (length index.pages) index.pages
          (target_bucket (compute_hash key) (read_header index)) (compute_hash key) key limit []

  unfoldable pub lookup : HashIndex → Value → Result IndexError (Option ℕ)
  lookup index key = lookup_multi index key (some 1) >>= λ results. ok (first results)

  unfoldable pub delete : HashIndex → Value → ℕ → HashIndex × Result IndexError Bool
  delete index key row_id =
      let change : List BucketPage × Result IndexError Bool =
        delete_loop (length index.pages) index.pages
          (target_bucket (compute_hash key) (read_header index)) (compute_hash key) key row_id in
      if read_header index == 0
      then (index, ok false)
      else (make_index index.num_buckets change.0, change.1)
