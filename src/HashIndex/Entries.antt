-- ===== src/HashIndex/Entries.antt =====
-- crates/lightning-core/src/storage/index/hash_index.rs: the scan of all the entries of an index.
use lightning_db.Prelude.{
  ℕ, zero, suc, ◌+◌, ◌≤◌, ◌<◌, ◌≡◌, ◌≢◌, refl, ap, ap₂, sym, subst, ◌∙◌, Bool, true, false, ◌&&◌,
  not, List, [], ◌∷◌, ◌++◌, arith, leb, ltb, ◌==◌, inl, inr, if◌then◌else◌, length, filter, Result,
  ok, ◌>>=◌, Bool-cases, All,
}
use mathlib.Core.List.{append-nil}
use lightning_db.HashIndex.Values.{Value, IndexError, deserialize_value}
use lightning_db.HashIndex.Pairs.{rows_of, rows_of-append}
use lightning_db.HashIndex.Keys.{Holds, nothing, dead, live}
use lightning_db.HashIndex.Chains.{Chain, last, more, Chain-inside}
use lightning_db.HashIndex.Updates.{
  insert-Represents, delete-Represents, open_existing-Represents, refusal, with_inserted,
}
use lightning_db.HashIndex.Represents.{
  Represents, bucket_of, bucket_below, removed, open_or_create_with_buckets-Represents,
}
use lightning_db.HashIndex.Calls.{Call, inserts, deletes, looks_up, looks_up_multi, reopens, IsCall}
use lightning_db.HashIndex.Resize.{
  live_entries, collect_buckets, collect_all_entries, decode_entries, entries_of,
}
use lightning_db.HashIndex.{
  open_existing, HashIndex, BucketPage, Entry, page_at, is_deleted, insert, delete,
  open_or_create_with_buckets,
}

-- The entries of which the bytes are those of the keys.
data Decodes : List Entry → List (Value × ℕ) → Type 0 where
  no_entry : Decodes [] []
  entry :
      {e : Entry} {es : List Entry} {ps : List (Value × ℕ)} (key : Value)
      → deserialize_value e.val_bytes ≡ ok key
      → Decodes es ps
      → Decodes (e ∷ es) ((key, e.row_id) ∷ ps)

Decodes-append :
    (es : List Entry) (ps : List (Value × ℕ)) (fs : List Entry) (qs : List (Value × ℕ))
    → Decodes es ps
    → Decodes fs qs
    → Decodes (es ++ fs) (ps ++ qs)
Decodes-append _ _ fs qs no_entry k = k
Decodes-append (e ∷ es) (p ∷ ps) fs qs (entry key a h) k =
    entry key a (Decodes-append es ps fs qs h k)

decode_entries-Decodes :
    (es : List Entry) (ps : List (Value × ℕ)) → Decodes es ps → decode_entries es ≡ ok ps
unfolding decode_entries
decode_entries-Decodes _ _ no_entry = refl
decode_entries-Decodes (e ∷ es) (p ∷ ps) (entry key a h) =
    rw (a, decode_entries-Decodes es ps h) refl

abbrev live_of : List Entry → List Entry
live_of es = filter (λ e. not (is_deleted e)) es

step_of_live :
    (fuel : ℕ) (pages : List BucketPage) (p q : ℕ) (later : List Entry)
    → (page_at pages p).next_page ≡ q
    → 0 < q
    → live_entries fuel pages q ≡ ok later
    → live_entries (suc fuel) pages p ≡ ok (live_of (page_at pages p).entries ++ later)
unfolding live_entries
step_of_live fuel pages p q later link up e =
    let go : ((page_at pages p).next_page == 0) ≡ false = ground (arith, link) in
    rw (go, link, e) refl

module _ (hash : Value → ℕ) where
  live_of-Holds :
      (es : List Entry) (ps : List (Value × ℕ)) → Holds hash es ps → Decodes (live_of es) ps
  live_of-Holds _ _ nothing = no_entry
  live_of-Holds (e ∷ es) ps (dead d h) = rw d (live_of-Holds es ps h)
  live_of-Holds (e ∷ es) (p ∷ ps) (live key d a b h) = rw d (entry key a (live_of-Holds es ps h))

  live_entries-Chain :
      (fuel : ℕ) (pages : List BucketPage) (owner : ℕ → ℕ) (root p : ℕ) (ps : List (Value × ℕ))
      → length pages ≤ fuel + p
      → Chain hash pages owner root p ps
      → (es : List Entry) × (live_entries fuel pages p ≡ ok es × Decodes es ps)
  unfolding live_entries
  live_entries-Chain zero pages owner root p ps enough chain =
      absurd (omega (arith, Chain-inside hash pages owner root p ps chain))
  live_entries-Chain (suc fuel) pages owner root p ps enough (last h o room end holds) =
      let stop : ((page_at pages p).next_page == 0) ≡ true = ground (arith, end) in
      (
        live_of (page_at pages p).entries,
        (rw stop refl, live_of-Holds (page_at pages p).entries ps holds),
      )
  live_entries-Chain (suc fuel) pages owner root p _ enough
        (more {ps = ps} {qs = qs} q h o full link up holds rest) =
      let (later, (e, decodes)) =
        live_entries-Chain fuel pages owner root q qs (omega arith) rest in
      (
        live_of (page_at pages p).entries ++ later,
        (
          step_of_live fuel pages p q later link (omega arith) e,
          Decodes-append (live_of (page_at pages p).entries) ps later qs
              (live_of-Holds (page_at pages p).entries ps holds) decodes,
        ),
      )

  -- The rows of a key, where its bucket is one of `n` from `b` on.
  abbrev rows_between : HashIndex → (Value → List ℕ) → ℕ → ℕ → Value → List ℕ
  rows_between index rows b n key =
      if leb b (bucket_of hash index key) && ltb (bucket_of hash index key) (b + n)
      then rows key
      else []

  rows_of_buckets :
      (index : HashIndex) (rows : Value → List ℕ) (b n : ℕ) (ps qs : List (Value × ℕ)) (key : Value)
      → (bucket_of hash index key ≡ b → rows_of key ps ≡ rows key)
      → (bucket_of hash index key ≢ b → rows_of key ps ≡ [])
      → rows_of key qs ≡ rows_between index rows (suc b) n key
      → rows_of key (ps ++ qs) ≡ rows_between index rows b (suc n) key
  rows_of_buckets index rows b n ps qs key here strays later =
      let k : ℕ = bucket_of hash index key in
      rows_of-append key ps qs ∙ elim (Bool-cases (k == b)) [
        | inl same ↦
            let e : k ≡ b = ground (arith, same) in
            let beyond : (leb (suc b) k && ltb k (suc b + n)) ≡ false = ground (arith, e) in
            let inside : (leb b k && ltb k (b + suc n)) ≡ true = ground (arith, e) in
            let none_later : rows_of key qs ≡ [] = later ∙ rw beyond refl in
            ap₂ ◌++◌ (here e) none_later ∙ rw inside (append-nil (rows key))
        | inr differ ↦
            let e : k ≢ b = λ e. ground (arith, e, differ) in
            let shift : (leb (suc b) k && ltb k (suc b + n)) ≡ (leb b k && ltb k (b + suc n)) =
              ground (arith, differ) in
            let same_later : rows_of key qs ≡ rows_between index rows b (suc n) key =
              later ∙ rw shift refl in
            ap₂ ◌++◌ (strays e) same_later
      ]

  collect_buckets-Represents :
      (index : HashIndex) (rows : Value → List ℕ) (b n : ℕ)
      → b + n ≤ index.num_buckets
      → Represents hash index rows
      → (es : List Entry) × ((ps : List (Value × ℕ)) × (collect_buckets index.pages (suc b) n
              ≡ ok es
            × Decodes es ps
            × ((key : Value) → rows_of key ps ≡ rows_between index rows b n key)))
  unfolding collect_buckets
  collect_buckets-Represents index rows b zero inside rep =
      ([], ([], (refl, no_entry, λ key. ground arith)))
  collect_buckets-Represents index rows b (suc n) inside rep =
      let (ps, (chain, here, strays)) = rep.bucket b (omega arith) in
      let (es, (e, decodes)) =
        live_entries-Chain (length index.pages) index.pages rep.owner (suc b) (suc b) ps
          (omega arith) chain in
      let (later, (qs, (e', decodes', rest))) =
        collect_buckets-Represents index rows (suc b) n (omega arith) rep in
      (
        es ++ later,
        (
          ps ++ qs,
          (
            rw (e, e') refl,
            Decodes-append es ps later qs decodes decodes',
            λ key. rows_of_buckets index rows b n ps qs key (here key) (strays key) (rest key),
          ),
        ),
      )

  entries_of-Represents :
      (index : HashIndex) (rows : Value → List ℕ)
      → Represents hash index rows
      → (pairs : List (Value × ℕ)) × (entries_of index ≡ ok pairs
          × ((key : Value) → rows_of key pairs ≡ rows key))
  unfolding entries_of collect_all_entries
  entries_of-Represents index rows rep =
      let (es, (pairs, (e, decodes, here))) =
        collect_buckets-Represents index rows 0 index.num_buckets (omega arith) rep in
      (
        pairs,
        (
          ap (λ (n : ℕ). collect_buckets index.pages 1 n >>= decode_entries) rep.header
              ∙ ap (λ (found : Result IndexError (List Entry)). found >>= decode_entries) e
              ∙ decode_entries-Decodes es pairs decodes,
          λ key.
              here key
              ∙ (let inside : (leb 0 (bucket_of hash index key)
                        && ltb (bucket_of hash index key) (0 + index.num_buckets))
                      ≡ true =
                    ground (arith, bucket_below hash index key rep.some_bucket) in
                  rw inside refl),
        ),
      )

  -- The index behind a sequence of calls, and the rows that it stands for.
  unfoldable pub after : HashIndex → List Call → HashIndex
  after index [] = index
  after index (inserts key row ∷ calls) = after (insert hash index key row).0 calls
  after index (deletes key row ∷ calls) = after (delete hash index key row).0 calls
  after index (looks_up key ∷ calls) = after index calls
  after index (looks_up_multi key limit ∷ calls) = after index calls
  after index (reopens n ∷ calls) = after (open_existing n index.pages) calls

unfoldable pub rows_after : (Value → List ℕ) → List Call → Value → List ℕ
rows_after rows [] = rows
rows_after rows (inserts key row ∷ calls) =
    rows_after (with_inserted (refusal key) key row rows) calls
rows_after rows (deletes key row ∷ calls) = rows_after (removed key row rows) calls
rows_after rows (looks_up key ∷ calls) = rows_after rows calls
rows_after rows (looks_up_multi key limit ∷ calls) = rows_after rows calls
rows_after rows (reopens n ∷ calls) = rows_after rows calls

after-Represents :
    (hash : Value → ℕ) (index : HashIndex) (rows : Value → List ℕ) (calls : List Call)
    → All IsCall calls
    → Represents hash index rows
    → Represents hash (after hash index calls) (rows_after rows calls)
unfolding after rows_after
after-Represents hash index rows [] valid rep = rep
after-Represents hash index rows (inserts key row ∷ calls) valid rep =
    let (index', (e, rep')) = insert-Represents hash index rows key row valid.0 rep in
    subst
      (λ (change : HashIndex × Result IndexError (Unit {0})).
        Represents hash (after hash change.0 calls)
          (rows_after (with_inserted (refusal key) key row rows) calls))
      (sym e)
      (after-Represents hash index' (with_inserted (refusal key) key row rows) calls valid.1 rep')
after-Represents hash index rows (deletes key row ∷ calls) valid rep =
    let (index', (e, rep')) = delete-Represents hash index rows key row rep in
    subst
      (λ (change : HashIndex × Result IndexError Bool).
        Represents hash (after hash change.0 calls) (rows_after (removed key row rows) calls))
      (sym e) (after-Represents hash index' (removed key row rows) calls valid.1 rep')
after-Represents hash index rows (looks_up key ∷ calls) valid rep =
    after-Represents hash index rows calls valid.1 rep
after-Represents hash index rows (looks_up_multi key limit ∷ calls) valid rep =
    after-Represents hash index rows calls valid.1 rep
after-Represents hash index rows (reopens n ∷ calls) valid rep =
    after-Represents hash (open_existing n index.pages) rows calls valid.1
      (open_existing-Represents hash n index rows rep)

-- After every sequence of calls of a new index, with keys whose numbers fit their bytes, the scan
-- of all entries succeeds, and among its pairs each key has exactly the rows that the insertions
-- that were not refused and the deletions left it, in their order.
pub entries_of-after :
    (hash : Value → ℕ) (initial_buckets : ℕ) (calls : List Call)
    → All IsCall calls
    → (pairs : List (Value × ℕ)) × (entries_of
            (after hash (open_or_create_with_buckets initial_buckets) calls)
          ≡ ok pairs
        × ((key : Value) → rows_of key pairs ≡ rows_after (λ k. []) calls key))
entries_of-after hash initial_buckets calls valid =
    entries_of-Represents hash (after hash (open_or_create_with_buckets initial_buckets) calls)
      (rows_after (λ k. []) calls)
      (after-Represents hash (open_or_create_with_buckets initial_buckets) (λ k. []) calls valid
        (open_or_create_with_buckets-Represents hash initial_buckets))
