-- ===== src/HashIndex/Updates.antt =====
-- crates/lightning-core/src/storage/index/hash_index.rs: insertions and deletions as changes of the rows
-- of a key.
use mathlib.Core.List.{append-nil}
use lightning_db.Prelude.{
  ◌^◌, ◌⊎◌, Option, none, some, err, ltb, if◌then◌else◌, sym, subst, ℕ, suc, ◌%◌, ◌<◌, ◌≡◌, refl,
  ap, ◌∙◌, Bool, false, List, [], ◌∷◌, ◌++◌, arith, ◌==◌, inl, inr, length, Result, ok, Bool-cases,
  length-replicate,
}
use lightning_db.HashIndex.Values.{
  Value, IndexError, IsKey, value_eq, value_eq_iff, number, string, boolean, node, relationship,
  date, timestamp, other, string_too_long, unsupported, serialize_value,
}
use lightning_db.HashIndex.Refusals.{insert_loop-RefusalLeaves}
use lightning_db.HashIndex.RoundTrip.{deserialize-serialize_value}
use lightning_db.HashIndex.Pairs.{
  rows_of, rows_of-append, without, contains, remove_first, rows_of-without, rows_of-without_other,
}
use lightning_db.HashIndex.Inserts.{insert_loop-Chain}
use lightning_db.HashIndex.Deletes.{delete_loop-Chain}
use lightning_db.HashIndex.{
  HashIndex, BucketPage, make_index, blank_key, read_header, insert_hashed, insert_in_bucket,
  insert, delete, delete_loop, compute_hash, open_existing, page_at,
}
use lightning_db.HashIndex.Represents.{
  Represents, added, removed, bucket_of, bucket_below, changed, elsewhere_unequal, unequal_back,
}

-- The values that there are: a number fits its bytes.
abbrev pub IsValue : Value → Type 0
IsValue (number n) = n < 256 ^ 8
IsValue (string bytes) = Unit {0}
IsValue (boolean b) = Unit {0}
IsValue (node id) = id < 256 ^ 8
IsValue (relationship id) = id < 256 ^ 8
IsValue (date d) = d < 256 ^ 4
IsValue (timestamp t) = t < 256 ^ 8
IsValue (other n) = Unit {0}

-- Why a key cannot be stored.
abbrev pub refusal : Value → Option IndexError
refusal (string bytes) = if ltb 251 (length bytes) then some string_too_long else none
refusal (other n) = some unsupported
refusal key = none

abbrev pub insertion_answer : Option IndexError → Result IndexError (Unit {0})
insertion_answer none = ok tt
insertion_answer (some e) = err e

-- The rows of each key after an insertion.
abbrev pub with_inserted : Option IndexError → Value → ℕ → (Value → List ℕ) → Value → List ℕ
with_inserted none key row rows = added key row rows
with_inserted (some e) key row rows = rows

stored_or_refused :
    (key : Value)
    → IsValue key
    → (refusal key ≡ none × IsKey key)
      ⊎ ((e : IndexError) × (refusal key ≡ some e × serialize_value key blank_key ≡ err e))
unfolding serialize_value
stored_or_refused (number n) valid = inl (refl, valid)
stored_or_refused (string bytes) valid = elim (Bool-cases (ltb 251 (length bytes))) [
  | inl long ↦ inr (string_too_long, (rw long refl, rw long refl))
  | inr short ↦ inl (rw short refl, ground (arith, short))
]
stored_or_refused (boolean b) valid = inl (refl, tt)
stored_or_refused (node id) valid = inl (refl, valid)
stored_or_refused (relationship id) valid = inl (refl, valid)
stored_or_refused (date d) valid = inl (refl, valid)
stored_or_refused (timestamp t) valid = inl (refl, valid)
stored_or_refused (other n) valid = inr (unsupported, (refl, refl))

length-blank_key : length blank_key ≡ 256
unfolding blank_key
length-blank_key = length-replicate {A = ℕ} 256 0

insert_hashed_at :
    (index : HashIndex) (nb h : ℕ) (key : Result IndexError (List ℕ)) (row : ℕ)
    → read_header index ≡ nb
    → 0 < nb
    → insert_hashed index h key row ≡ insert_in_bucket index nb h key row
unfolding insert_hashed
insert_hashed_at index nb h key row e some_bucket =
    let go : (read_header index == 0) ≡ false = ground (arith, e) in
    rw go (ap (λ (n : ℕ). insert_in_bucket index n h key row) e)

module _ (hash : Value → ℕ) where
  insert_stored :
      (index : HashIndex) (rows : Value → List ℕ) (key : Value) (row : ℕ)
      → IsKey key
      → Represents hash index rows
      → (index' : HashIndex) × (insert hash index key row ≡ (index', ok tt)
          × Represents hash index' (added key row rows))
  unfolding insert
  insert_stored index rows key row valid rep =
      let (out, (stored, whole, back)) =
        deserialize-serialize_value blank_key length-blank_key key valid in
      let b : ℕ = bucket_of hash index key in
      let (ps, (chain, meaning, strays)) =
        rep.bucket b (bucket_below hash index key rep.some_bucket) in
      let (pages', (owner', (e, frame, chain'))) =
        insert_loop-Chain hash key out row whole back (suc (length index.pages)) index.pages
          rep.owner (suc b) (suc b) ps (omega arith) chain in
      (
        make_index index.num_buckets pages',
        (
          ap
                (λ (bytes : Result IndexError (List ℕ)).
                  insert_hashed index (compute_hash hash key) bytes row)
                stored
              ∙ insert_hashed_at index index.num_buckets (compute_hash hash key) (ok out) row
                  rep.header rep.some_bucket
              ∙ ap
                  (λ (change : List BucketPage × Result IndexError (Unit {0})).
                    (make_index index.num_buckets change.0, change.1))
                  e,
          changed hash index rows (added key row rows) b pages' owner' (ps ++ ((key, row) ∷ [])) rep
              frame chain'
              (λ k f.
                rows_of-append k ps ((key, row) ∷ [])
                ∙ ap (λ (xs : List ℕ). xs ++ rows_of k ((key, row) ∷ [])) (meaning k f)
                ∙ elim (Bool-cases (value_eq key k)) [
                  | inl equal ↦ rw equal refl
                  | inr unequal ↦ rw unequal (append-nil (rows k))
                ])
              (λ k f. let unequal = elsewhere_unequal hash index key k f in rw unequal refl)
              (λ k f.
                let unequal = elsewhere_unequal hash index key k f in
                rows_of-append k ps ((key, row) ∷ [])
                ∙ ap (λ (xs : List ℕ). xs ++ rows_of k ((key, row) ∷ [])) (strays k f)
                ∙ rw unequal refl),
        ),
      )

  insert_refused :
      (index : HashIndex) (rows : Value → List ℕ) (key : Value) (row : ℕ) (e : IndexError)
      → serialize_value key blank_key ≡ err e
      → Represents hash index rows
      → (index' : HashIndex) × (insert hash index key row ≡ (index', err e)
          × Represents hash index' rows)
  unfolding insert
  insert_refused index rows key row e unstored rep =
      let b : ℕ = bucket_of hash index key in
      let (ps, (chain, meaning, strays)) =
        rep.bucket b (bucket_below hash index key rep.some_bucket) in
      let (pages', (owner', (run, untouched, chain'))) =
        insert_loop-RefusalLeaves hash (compute_hash hash key) e row (suc (length index.pages))
          index.pages rep.owner (suc b) (suc b) ps (omega arith) chain in
      (
        make_index index.num_buckets pages',
        (
          ap
                (λ (bytes : Result IndexError (List ℕ)).
                  insert_hashed index (compute_hash hash key) bytes row)
                unstored
              ∙ insert_hashed_at index index.num_buckets (compute_hash hash key) (err e) row
                  rep.header rep.some_bucket
              ∙ ap
                  (λ (change : List BucketPage × Result IndexError (Unit {0})).
                    (make_index index.num_buckets change.0, change.1))
                  run,
          changed hash index rows rows b pages' owner' ps rep untouched chain' meaning (λ k f. refl)
              strays,
        ),
      )

  pub insert-Represents :
      (index : HashIndex) (rows : Value → List ℕ) (key : Value) (row : ℕ)
      → IsValue key
      → Represents hash index rows
      → (index' : HashIndex) × (insert hash index key row ≡ (index', insertion_answer (refusal key))
          × Represents hash index' (with_inserted (refusal key) key row rows))
  insert-Represents index rows key row valid rep = elim (stored_or_refused key valid) [
    | inl (none_refused, is_key) ↦
        subst
          (λ (why : Option IndexError).
            (index' : HashIndex) × (insert hash index key row ≡ (index', insertion_answer why)
              × Represents hash index' (with_inserted why key row rows)))
          (sym none_refused) (insert_stored index rows key row is_key rep)
    | inr (e, (refused, unstored)) ↦
        subst
          (λ (why : Option IndexError).
            (index' : HashIndex) × (insert hash index key row ≡ (index', insertion_answer why)
              × Represents hash index' (with_inserted why key row rows)))
          (sym refused) (insert_refused index rows key row e unstored rep)
  ]

  abbrev delete_in_bucket : HashIndex → ℕ → Value → ℕ → HashIndex × Result IndexError Bool
  delete_in_bucket index nb key row =
      let change : List BucketPage × Result IndexError Bool =
        delete_loop (length index.pages) index.pages (suc (compute_hash hash key % nb))
          (compute_hash hash key) key row in
      (make_index index.num_buckets change.0, change.1)

  delete_from :
      (index : HashIndex) (nb : ℕ) (key : Value) (row : ℕ)
      → read_header index ≡ nb
      → 0 < nb
      → delete hash index key row ≡ delete_in_bucket index nb key row
  unfolding delete
  delete_from index nb key row e some_bucket =
      let go : (read_header index == 0) ≡ false = ground (arith, e) in
      rw go (ap (λ (n : ℕ). delete_in_bucket index n key row) e)

  pub delete-Represents :
      (index : HashIndex) (rows : Value → List ℕ) (key : Value) (row : ℕ)
      → Represents hash index rows
      → (index' : HashIndex) × (delete hash index key row ≡ (index', ok (contains row (rows key)))
          × Represents hash index' (removed key row rows))
  delete-Represents index rows key row rep =
      let b : ℕ = bucket_of hash index key in
      let (ps, (chain, meaning, strays)) =
        rep.bucket b (bucket_below hash index key rep.some_bucket) in
      let (pages', (e, frame, chain')) =
        delete_loop-Chain hash key row (length index.pages) index.pages rep.owner (suc b) (suc b) ps
          (omega arith) chain in
      (
        make_index index.num_buckets pages',
        (
          delete_from index index.num_buckets key row rep.header rep.some_bucket
              ∙ ap
                  (λ (change : List BucketPage × Result IndexError Bool).
                    (make_index index.num_buckets change.0, change.1))
                  e
              ∙ ap (λ (xs : List ℕ). (make_index index.num_buckets pages', ok (contains row xs)))
                  (meaning key refl),
          changed hash index rows (removed key row rows) b pages' rep.owner (without key row ps) rep
              frame chain'
              (λ k f. elim (Bool-cases (value_eq key k)) [
                | inl equal ↦
                    let e' = (value_eq_iff key k).0 equal in
                    rw equal (
                      ap (λ (x : Value). rows_of k (without x row ps)) e'
                      ∙ rows_of-without k row ps
                      ∙ ap (remove_first row) (meaning k f))
                | inr unequal ↦ rw unequal (
                    rows_of-without_other k key row ps (unequal_back hash key k unequal)
                    ∙ meaning k f)
              ])
              (λ k f. let unequal = elsewhere_unequal hash index key k f in rw unequal refl)
              (λ k f.
                rows_of-without_other k key row ps
                  (unequal_back hash key k (elsewhere_unequal hash index key k f))
                ∙ strays k f),
        ),
      )

-- A reopening reads the number of buckets back.
reopened_with :
    (initial_buckets nb : ℕ) (pages : List BucketPage)
    → (page_at pages 0).next_page ≡ nb
    → 0 < nb
    → open_existing initial_buckets pages ≡ make_index nb pages
unfolding open_existing
reopened_with initial_buckets nb [] e h = absurd (omega (arith, e))
reopened_with initial_buckets nb (header ∷ rest) e h =
    ap (λ (n : ℕ). make_index n (header ∷ rest)) (omega (arith, e))

pub open_existing-Represents :
    (hash : Value → ℕ) (initial_buckets : ℕ) (index : HashIndex) (rows : Value → List ℕ)
    → Represents hash index rows
    → Represents hash (open_existing initial_buckets index.pages) rows
open_existing-Represents hash initial_buckets index rows rep =
    subst (λ (index' : HashIndex). Represents hash index' rows)
      (sym (reopened_with initial_buckets index.num_buckets index.pages rep.header rep.some_bucket))
      rep
