-- ===== src/HashIndex/Calls.antt =====
-- crates/lightning-core/src/storage/index/hash_index.rs: sequences of the calls of an index.
use lightning_db.Prelude.{ℕ, ◌≡◌, refl, ap, ap₂, ◌∙◌, Bool, List, [], ◌∷◌, Result, ok, Option, All}
use lightning_db.HashIndex.Values.{Value, IndexError}
use lightning_db.HashIndex.Pairs.{contains}
use lightning_db.HashIndex.Updates.{
  insert-Represents, delete-Represents, open_existing-Represents, IsValue, refusal,
  insertion_answer, with_inserted,
}
use lightning_db.HashIndex.Represents.{
  Represents, removed, up_to, lookup_multi-Represents, lookup-Represents,
  open_or_create_with_buckets-Represents,
}
use lightning_db.HashIndex.{
  open_existing, HashIndex, open_or_create_with_buckets, insert, delete, lookup, lookup_multi,
  first,
}

pub data Call : Type 0 where
  inserts : Value → ℕ → Call
  deletes : Value → ℕ → Call
  looks_up : Value → Call
  looks_up_multi : Value → Option ℕ → Call
  -- the file is opened again, with a number of buckets for a new file
  reopens : ℕ → Call

pub data Answer : Type 0 where
  inserted : Result IndexError (Unit {0}) → Answer
  deleted : Result IndexError Bool → Answer
  found : Result IndexError (Option ℕ) → Answer
  found_multi : Result IndexError (List ℕ) → Answer

-- What is inserted is a value.
abbrev pub IsCall : Call → Type 0
IsCall (inserts key row) = IsValue key
IsCall (deletes key row) = Unit {0}
IsCall (looks_up key) = Unit {0}
IsCall (looks_up_multi key limit) = Unit {0}
IsCall (reopens n) = Unit {0}

unfoldable pub answers : (Value → ℕ) → HashIndex → List Call → List Answer
answers hash index [] = []
answers hash index (inserts key row ∷ calls) =
    inserted (insert hash index key row).1 ∷ answers hash (insert hash index key row).0 calls
answers hash index (deletes key row ∷ calls) =
    deleted (delete hash index key row).1 ∷ answers hash (delete hash index key row).0 calls
answers hash index (looks_up key ∷ calls) = found (lookup hash index key) ∷ answers hash index calls
answers hash index (looks_up_multi key limit ∷ calls) =
    found_multi (lookup_multi hash index key limit) ∷ answers hash index calls
answers hash index (reopens n ∷ calls) = answers hash (open_existing n index.pages) calls

-- The same calls of a function from keys to rows.
unfoldable pub expected : (Value → List ℕ) → List Call → List Answer
expected rows [] = []
expected rows (inserts key row ∷ calls) =
    inserted (insertion_answer (refusal key))
    ∷ expected (with_inserted (refusal key) key row rows) calls
expected rows (deletes key row ∷ calls) =
    deleted (ok (contains row (rows key))) ∷ expected (removed key row rows) calls
expected rows (looks_up key ∷ calls) = found (ok (first (rows key))) ∷ expected rows calls
expected rows (looks_up_multi key limit ∷ calls) =
    found_multi (ok (up_to limit (rows key))) ∷ expected rows calls
expected rows (reopens n ∷ calls) = expected rows calls

answers-Represents :
    (hash : Value → ℕ) (index : HashIndex) (rows : Value → List ℕ) (calls : List Call)
    → All IsCall calls
    → Represents hash index rows
    → answers hash index calls ≡ expected rows calls
unfolding answers expected
answers-Represents hash index rows [] valid rep = refl
answers-Represents hash index rows (inserts key row ∷ calls) valid rep =
    let (index', (e, rep')) = insert-Represents hash index rows key row valid.0 rep in
    ap
      (λ (change : HashIndex × Result IndexError (Unit {0})).
        inserted change.1 ∷ answers hash change.0 calls)
      e
    ∙ ap (◌∷◌ (inserted (insertion_answer (refusal key)))) (
        answers-Represents hash index' (with_inserted (refusal key) key row rows) calls valid.1
          rep')
answers-Represents hash index rows (deletes key row ∷ calls) valid rep =
    let (index', (e, rep')) = delete-Represents hash index rows key row rep in
    ap
      (λ (change : HashIndex × Result IndexError Bool).
        deleted change.1 ∷ answers hash change.0 calls)
      e
    ∙ ap (◌∷◌ (deleted (ok (contains row (rows key)))))
        (answers-Represents hash index' (removed key row rows) calls valid.1 rep')
answers-Represents hash index rows (looks_up key ∷ calls) valid rep =
    ap₂ ◌∷◌ (ap found (lookup-Represents hash index rows key rep))
      (answers-Represents hash index rows calls valid.1 rep)
answers-Represents hash index rows (looks_up_multi key limit ∷ calls) valid rep =
    ap₂ ◌∷◌ (ap found_multi (lookup_multi-Represents hash index rows key limit rep))
      (answers-Represents hash index rows calls valid.1 rep)
answers-Represents hash index rows (reopens n ∷ calls) valid rep =
    answers-Represents hash (open_existing n index.pages) rows calls valid.1
      (open_existing-Represents hash n index rows rep)

-- For every hash function, number of buckets and sequence of insertions, deletions, lookups and
-- reopenings of the file, with keys of any length whose numbers fit their bytes, a new index
-- answers as a function from keys to lists of rows does: an insertion appends the row to its key,
-- but a string of more than 251 bytes, a null and a composite value are refused and change no key's
-- rows; a deletion says whether the key had the row and removes the first one; a lookup gives the
-- key's rows in their order, up to its limit; a reopening changes nothing.
pub answers-open_or_create_with_buckets :
    (hash : Value → ℕ) (initial_buckets : ℕ) (calls : List Call)
    → All IsCall calls
    → answers hash (open_or_create_with_buckets initial_buckets) calls ≡ expected (λ key. []) calls
answers-open_or_create_with_buckets hash initial_buckets calls valid =
    answers-Represents hash (open_or_create_with_buckets initial_buckets) (λ key. []) calls valid
      (open_or_create_with_buckets-Represents hash initial_buckets)
