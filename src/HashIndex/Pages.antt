-- ===== src/HashIndex/Pages.antt =====
-- crates/lightning-core/src/storage/index/hash_index.rs: the places of the entries of a page.
use lightning_db.Prelude.{
  ℕ, zero, suc, ◌+◌, ◌*◌, ◌≤◌, Bool, false, List, [], ◌∷◌, ◌++◌, arith, ltb, ◌==◌, inl, inr, length,
  get_or, set, replicate, Result, ok, err, ◌>>=◌, Option, none, some, Bool-cases, if_both,
  length-set, length-append, All, ◌-◌,
}
use lightning_db.HashIndex.Values.{Value, IndexError, key_length, serialize_value}
use lightning_db.HashIndex.Writes.{grown}
use lightning_db.HashIndex.Resize.{
  and_then, reinsert, resize, resize_with, doubled, zero_pages, extended, collect_all_entries,
}
use lightning_db.HashIndex.{
  HashIndex, BucketPage, Entry, make_page, page_at, empty_page, page_size, entry_size, insert_loop,
  following, linked, written, write_entry_to_page, insert_hashed, insert_internal, insert, delete,
  delete_loop, deleted_in, delete_at, find_entry, initialize_header, make_entry, tombstone,
  read_header, buckets, target_bucket, compute_hash, blank_key,
}

-- The entries end inside the page.
abbrev pub IsPage : BucketPage → Type 0
IsPage page = 16 + length page.entries * entry_size ≤ page_size

abbrev pub IsFile : List BucketPage → Type 0
IsFile pages = All IsPage pages

IsFile-set :
    (pages : List BucketPage) (i : ℕ) (page : BucketPage)
    → IsFile pages
    → IsPage page
    → IsFile (set pages i page)
IsFile-set [] i page file h = tt
IsFile-set (x ∷ pages) zero page file h = (h, file.1)
IsFile-set (x ∷ pages) (suc i) page file h = (file.0, IsFile-set pages i page file.1 h)

IsFile-append : (ps qs : List BucketPage) → IsFile ps → IsFile qs → IsFile (ps ++ qs)
IsFile-append [] qs h k = k
IsFile-append (p ∷ ps) qs h k = (h.0, IsFile-append ps qs h.1 k)

empty-IsFile : (n : ℕ) → IsFile (replicate n empty_page)
empty-IsFile zero = tt
empty-IsFile (suc n) = (omega arith, empty-IsFile n)

page_at-IsPage : (pages : List BucketPage) (i : ℕ) → IsFile pages → IsPage (page_at pages i)
page_at-IsPage [] i file = omega arith
page_at-IsPage (p ∷ pages) zero file = file.0
page_at-IsPage (p ∷ pages) (suc i) file = page_at-IsPage pages i file.1

-- A page that is written, where one is, has its entries inside.
abbrev Written : Result IndexError BucketPage → Type 0
Written (ok page) = IsPage page
Written (err e) = Unit {0}

write_entry_to_page-Written :
    (page : BucketPage) (hash : ℕ) (key_bytes : List ℕ) (row : ℕ)
    → Written (write_entry_to_page page hash key_bytes row)
unfolding write_entry_to_page
write_entry_to_page-Written page hash key_bytes row =
    let l = length-append page.entries (make_entry hash key_bytes row ∷ []) in
    elim (Bool-cases (ltb 4096 (16 + length page.entries * 272 + 272))) [
      | inl full ↦ rw full tt
      | inr room ↦
          let fits : 16 + length page.entries * 272 + 272 ≤ 4096 = ground (arith, room) in
          let inside : IsPage (grown page hash key_bytes row) = omega (arith, l, fits) in
          rw room (
            if_both Written (length key_bytes == 256) (ok (grown page hash key_bytes row))
              (err key_length) inside tt)
    ]

bind-Written :
    (key : Result IndexError (List ℕ)) (next : List ℕ → Result IndexError BucketPage)
    → ((key_bytes : List ℕ) → Written (next key_bytes))
    → Written (key >>= next)
bind-Written (ok key_bytes) next h = h key_bytes
bind-Written (err e) next h = tt

written-IsFile :
    (pages : List BucketPage) (current : ℕ) (r : Result IndexError BucketPage)
    → IsFile pages
    → Written r
    → IsFile (written pages current r).0
written-IsFile pages current (ok page) file h = IsFile-set pages current page file h
written-IsFile pages current (err e) file h = file

following-IsFile :
    (pages : List BucketPage) (current : ℕ) → IsFile pages → IsFile (following pages current).0
unfolding following
following-IsFile pages current file =
    if_both (λ (to : List BucketPage × ℕ). IsFile to.0) ((page_at pages current).next_page == 0)
      (linked pages current, length pages) (pages, (page_at pages current).next_page)
      (IsFile-set (pages ++ (empty_page ∷ [])) current
        (make_page (length pages) (page_at pages current).entries)
        (IsFile-append pages (empty_page ∷ []) file (omega arith, tt))
        (page_at-IsPage pages current file))
      file

insert_loop-IsFile :
    (fuel : ℕ) (pages : List BucketPage) (current hash : ℕ) (key : Result IndexError (List ℕ))
    (row : ℕ)
    → IsFile pages
    → IsFile (insert_loop fuel pages current hash key row).0
unfolding insert_loop
insert_loop-IsFile zero pages current hash key row file = file
insert_loop-IsFile (suc fuel) pages current hash key row file =
    if_both (λ (change : List BucketPage × Result IndexError (Unit {0})). IsFile change.0)
      (ltb (length (page_at pages current).entries) 15) _ _
      (written-IsFile pages current _ file (
        bind-Written key _
          λ key_bytes. write_entry_to_page-Written (page_at pages current) hash key_bytes row))
      (insert_loop-IsFile fuel (following pages current).0 (following pages current).1 hash key row
        (following-IsFile pages current file))

initialize_header-IsFile :
    (index : HashIndex) → IsFile index.pages → IsFile (initialize_header index).pages
unfolding initialize_header
initialize_header-IsFile index file =
    IsFile-append index.pages _ file (omega arith, empty-IsFile index.num_buckets)

insert_hashed-IsFile :
    (index : HashIndex) (hash : ℕ) (key : Result IndexError (List ℕ)) (row : ℕ)
    → IsFile index.pages
    → IsFile (insert_hashed index hash key row).0.pages
unfolding insert_hashed
insert_hashed-IsFile index hash key row file =
    let fresh = initialize_header-IsFile index file in
    if_both (λ (change : HashIndex × Result IndexError (Unit {0})). IsFile change.0.pages)
      (read_header index == 0) _ _
      (if_both (λ (change : HashIndex × Result IndexError (Unit {0})). IsFile change.0.pages)
        (buckets (initialize_header index) == 0) _ _ fresh
        (insert_loop-IsFile (suc (length (initialize_header index).pages))
          (initialize_header index).pages (target_bucket hash (buckets (initialize_header index)))
          hash key row fresh))
      (insert_loop-IsFile (suc (length index.pages)) index.pages
        (target_bucket hash (read_header index)) hash key row file)

delete_at-IsFile :
    (pages : List BucketPage) (current place hash : ℕ)
    → IsFile pages
    → IsFile (delete_at pages current place hash)
delete_at-IsFile pages current place hash file =
    let page : BucketPage = page_at pages current in
    IsFile-set pages current _ file (
      omega (
        arith,
        page_at-IsPage pages current file,
        length-set page.entries place
            (tombstone (get_or page.entries place (make_entry 0 [] 0)) hash),
      ))

deleted_in-IsFile :
    (pages : List BucketPage) (current hash : ℕ) (rest : List BucketPage × Result IndexError Bool)
    (found : Result IndexError (Option ℕ))
    → IsFile pages
    → IsFile rest.0
    → IsFile (deleted_in pages current hash rest found).0
deleted_in-IsFile pages current hash rest (err e) file later = file
deleted_in-IsFile pages current hash rest (ok (some place)) file later =
    delete_at-IsFile pages current place hash file
deleted_in-IsFile pages current hash rest (ok none) file later =
    if_both (λ (change : List BucketPage × Result IndexError Bool). IsFile change.0)
      ((page_at pages current).next_page == 0) (pages, ok false) rest file later

delete_loop-IsFile :
    (fuel : ℕ) (pages : List BucketPage) (current hash : ℕ) (key : Value) (row : ℕ)
    → IsFile pages
    → IsFile (delete_loop fuel pages current hash key row).0
unfolding delete_loop
delete_loop-IsFile zero pages current hash key row file = file
delete_loop-IsFile (suc fuel) pages current hash key row file =
    deleted_in-IsFile pages current hash _ (find_entry (page_at pages current).entries hash key row)
      file (delete_loop-IsFile fuel pages (page_at pages current).next_page hash key row file)

and_then-IsFile :
    (change : HashIndex × Result IndexError (Unit {0}))
    (next : HashIndex → HashIndex × Result IndexError (Unit {0}))
    → IsFile change.0.pages
    → ((index : HashIndex) → IsFile index.pages → IsFile (next index).0.pages)
    → IsFile (and_then change next).0.pages
and_then-IsFile (index, ok u) next h keeps = keeps index h
and_then-IsFile (index, err e) next h keeps = h

reinsert-IsFile :
    (index : HashIndex) (entries : List Entry)
    → IsFile index.pages
    → IsFile (reinsert index entries).0.pages
unfolding reinsert insert_internal
reinsert-IsFile index [] file = file
reinsert-IsFile index (entry ∷ rest) file =
    and_then-IsFile (insert_internal index entry.stored_hash entry.val_bytes entry.row_id) _
      (insert_hashed-IsFile index entry.stored_hash (ok entry.val_bytes) entry.row_id file)
      (λ index' h. reinsert-IsFile index' rest h)

zero_pages-IsFile :
    (page_idx n : ℕ) (pages : List BucketPage) → IsFile pages → IsFile (zero_pages page_idx n pages)
unfolding zero_pages
zero_pages-IsFile page_idx zero pages file = file
zero_pages-IsFile page_idx (suc n) pages file =
    zero_pages-IsFile (suc page_idx) n _ (IsFile-set pages page_idx empty_page file (omega arith))

doubled-IsFile : (index : HashIndex) → IsFile index.pages → IsFile (doubled index).pages
unfolding doubled extended
doubled-IsFile index file =
    let zeroed =
      zero_pages-IsFile (index.num_buckets + 1) (index.num_buckets * 2 - index.num_buckets) _ (
        IsFile-append index.pages _ file
          (empty-IsFile (1 + index.num_buckets * 2 - length index.pages))) in
    IsFile-set _ 0 _ zeroed (page_at-IsPage _ 0 zeroed)

resize_with-IsFile :
    (index : HashIndex) (r : Result IndexError (List Entry))
    → IsFile index.pages
    → IsFile (resize_with index r).0.pages
resize_with-IsFile index (ok entries) file =
    reinsert-IsFile (doubled index) entries (doubled-IsFile index file)
resize_with-IsFile index (err e) file = file

-- The entries of every page of an index end inside the page (at most 15 of 272 bytes each behind
-- the 16 of the header, in 4,096), and an insertion of any value, a deletion and a doubling keep
-- that, whatever the file's links are and also where the call fails.
pub changes_stay_inside :
    (hash : Value → ℕ) (index : HashIndex) (key : Value) (row : ℕ)
    → IsFile index.pages
    → IsFile (insert hash index key row).0.pages
      × IsFile (delete hash index key row).0.pages
      × IsFile (resize index).0.pages
unfolding insert delete resize
changes_stay_inside hash index key row file = (
  insert_hashed-IsFile index (compute_hash hash key) (serialize_value key blank_key) row file,
  if_both (λ (change : HashIndex × Result IndexError Bool). IsFile change.0.pages)
      (read_header index == 0) _ _ file
      (delete_loop-IsFile (length index.pages) index.pages
        (target_bucket (compute_hash hash key) (read_header index)) (compute_hash hash key) key row
        file),
  resize_with-IsFile index (collect_all_entries index) file,
)
