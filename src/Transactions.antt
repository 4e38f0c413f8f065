-- ===== src/Transactions.antt =====
-- crates/lightning-core/src/transaction/transaction_manager.rs: the counters, the sets of active
-- transactions, and the begin, commit, rollback and drop of a transaction with what these do to the row
-- versions of the tables. The calls of the buffer manager, the log, the catalog and the undo buffer
-- enter by their outcome, `Outcomes`; page contents and catalog counts are not in this state. An index
-- of texts or vectors is the mutations that it has taken.
mod End
mod Queries
mod Watermark
mod World
mod Counts
mod Horizon
mod Published
mod Publish
mod Effects
mod LogFailure
mod Aborted
mod Tests
use lightning_db.Prelude.{
  ℕ, ◌+◌, ◌-◌, ◌^◌, min, max, zero, suc, Bool, true, false, not, ◌&&◌, ◌||◌, Option, none, some,
  List, [], ◌∷◌, ◌++◌, ltb, leb, ◌==◌, if◌then◌else◌, length, get_or, set, filter, contains,
  is_empty, Result, ok, err,
}
use lightning_db.Prelude.HashMap.{HashMap, lookup, insert, remove}
use lightning_db.RowVersion
use lightning_db.RowVersion.{RowVersion}

abbrev pub u64_max : ℕ
u64_max = 2 ^ 64 - 1

pub data Error : Type 0 where
  tx_id_overflow timestamp_overflow flush_failed sync_failed merge_failed : Error
  log_failed save_failed undo_failed : Error

-- The number of the index, the node, and what is put there: fields by name, or the bits of the numbers.
pub data IndexMutation : Type 0 where
  fts_insert : ℕ → ℕ → List (List ℕ × List ℕ) → IndexMutation
  fts_delete : ℕ → ℕ → IndexMutation
  vector_upsert : ℕ → ℕ → List ℕ → IndexMutation
  vector_delete : ℕ → ℕ → IndexMutation

pub record Transaction : Type 0 where
  pub tx_id : ℕ
  pub is_read_only : Bool
  pub read_ts : ℕ
  pub commit_ts : ℕ
  -- the table's number, and the row
  pub modified_rows : List (ℕ × ℕ)
  -- the table's number, the start and the end
  pub bulk_row_ranges : List (ℕ × ℕ × ℕ)
  pub index_mutations : List IndexMutation
  pub finalized : Bool

pub record TransactionManager : Type 0 where
  pub next_tx_id : ℕ
  pub current_ts : ℕ
  pub committed_tx_count : ℕ
  pub active_tx_ids : List ℕ
  pub active_read_ts : HashMap ℕ

pub new : TransactionManager
new = record {
  next_tx_id = 1;
  current_ts = 1;
  committed_tx_count = 0;
  active_tx_ids = [];
  active_read_ts = [];
}

-- The `HashSet` of active ids: no id stands twice.
unfoldable pub add_id : ℕ → List ℕ → List ℕ
add_id id ids = if contains id ids then ids else id ∷ ids

unfoldable pub remove_id : ℕ → List ℕ → List ℕ
remove_id id ids = filter (λ x. not (x == id)) ids

-- *entry(read_ts).or_insert(0) += 1
abbrev raise_count : ℕ → Option ℕ → HashMap ℕ → HashMap ℕ
raise_count read_ts none m = insert read_ts 1 m
raise_count read_ts (some count) m = insert read_ts (count + 1) m

unfoldable pub add_read_ts : ℕ → HashMap ℕ → HashMap ℕ
add_read_ts read_ts m = raise_count read_ts (lookup read_ts m) m

abbrev lower_count : ℕ → Option ℕ → HashMap ℕ → HashMap ℕ
lower_count read_ts none m = m
lower_count read_ts (some count) m =
    if count - 1 == 0 then remove read_ts m else insert read_ts (count - 1) m

unfoldable pub remove_read_ts : HashMap ℕ → ℕ → HashMap ℕ
remove_read_ts m read_ts = lower_count read_ts (lookup read_ts m) m

abbrev or_else : Option ℕ → ℕ → ℕ
or_else none d = d
or_else (some x) d = x

-- The transaction that `begin_at` hands out.
abbrev pub begun : TransactionManager → Bool → Option ℕ → Transaction
begun m is_read_only snapshot_ts = record {
  tx_id = m.next_tx_id;
  is_read_only = is_read_only;
  read_ts = or_else snapshot_ts m.current_ts;
  commit_ts = 0;
  modified_rows = [];
  bulk_row_ranges = [];
  index_mutations = [];
  finalized = false;
}

unfoldable pub begin_at :
    TransactionManager → Bool → Option ℕ → Result Error (Transaction × TransactionManager)
unfolding add_id add_read_ts
begin_at m is_read_only snapshot_ts =
    if m.next_tx_id == u64_max
    then err tx_id_overflow
    else let tx = begun m is_read_only snapshot_ts in
      ok (
        tx,
        record m {
          next_tx_id = m.next_tx_id + 1;
          active_tx_ids = if is_read_only then m.active_tx_ids else add_id tx.tx_id m.active_tx_ids;
          active_read_ts = add_read_ts tx.read_ts m.active_read_ts;
        },
      )

-- What the indexes of texts and vectors have taken, and the text indexes that were committed, in order.
pub record Indexes : Type 0 where
  pub taken : List IndexMutation
  pub fts_committed : List ℕ

-- The manager, the row versions of the tables, and the indexes.
pub record Db : Type 0 where
  pub manager : TransactionManager
  pub tables : List RowVersion
  pub indexes : Indexes

abbrev pub touch_fts : List ℕ → ℕ → List ℕ
touch_fts fts_touched index =
    if contains index fts_touched then fts_touched else fts_touched ++ index ∷ []

unfoldable pub fts_of : List ℕ → List IndexMutation → List ℕ
fts_of fts_touched [] = fts_touched
fts_of fts_touched (fts_insert index node fields ∷ ms) = fts_of (touch_fts fts_touched index) ms
fts_of fts_touched (fts_delete index node ∷ ms) = fts_of (touch_fts fts_touched index) ms
fts_of fts_touched (vector_upsert index node embedding ∷ ms) = fts_of fts_touched ms
fts_of fts_touched (vector_delete index node ∷ ms) = fts_of fts_touched ms

-- The calls of the indexes succeed; a failure of one is only logged.
unfoldable pub apply_index_mutations : Db → Transaction → Db
unfolding fts_of
apply_index_mutations db tx = record db {
  indexes = record {
    taken = db.indexes.taken ++ tx.index_mutations;
    fts_committed = db.indexes.fts_committed ++ fts_of [] tx.index_mutations;
  };
}

abbrev pub table_at : Db → ℕ → RowVersion
table_at db t = get_or db.tables t RowVersion.new

abbrev pub put_table : Db → ℕ → RowVersion → Db
put_table db t rv = record db { tables = set db.tables t rv }

-- The ranges that a flush of buffered rows registers stand in the transaction beforehand.
unfoldable pub commit_ranges : Db → List (ℕ × ℕ × ℕ) → ℕ → Db
commit_ranges db [] ts = db
commit_ranges db ((t, start, end) ∷ ranges) ts =
    commit_ranges (put_table db t (RowVersion.commit_row_batch (table_at db t) start end ts)) ranges
      ts

unfoldable pub commit_rows : Db → List (ℕ × ℕ) → ℕ → Db
commit_rows db [] ts = db
commit_rows db ((t, row_id) ∷ rows) ts =
    commit_rows (put_table db t (RowVersion.commit_row (table_at db t) row_id ts)) rows ts

-- What the other components answer in a commit. `normal` is `SyncMode::Normal`.
pub record Outcomes : Type 0 where
  pub flushed : Bool
  pub normal : Bool
  pub synced : Bool
  pub merged : Bool
  pub logged : Bool
  pub saved : Bool

abbrev pub Outcome : Type 0
Outcome = Db × Transaction × Result Error (Unit {0})

-- The common end of a commit and of a rollback.
unfoldable pub finish : Db → Transaction → Outcome
unfolding remove_read_ts
finish db tx = (
  record db {
    manager = record (db.manager) {
      active_read_ts = remove_read_ts db.manager.active_read_ts tx.read_ts;
    };
  },
  record tx { finalized = true },
  ok tt,
)

-- From the log's record on.
unfoldable pub commit_logged : Outcomes → Db → Transaction → Outcome
unfolding finish remove_id
commit_logged out db tx =
    if not out.logged
    then (db, tx, err log_failed)
    else let done = record db {
      manager = record (db.manager) {
        active_tx_ids = remove_id tx.tx_id db.manager.active_tx_ids;
        committed_tx_count = db.manager.committed_tx_count + 1;
      };
    } in
      if not out.saved then (done, tx, err save_failed) else finish done tx

unfoldable pub commit : Outcomes → Db → Transaction → Outcome
unfolding commit_logged apply_index_mutations
commit out db tx =
    let db' = apply_index_mutations db tx in
    if tx.is_read_only
    then finish db tx
    else if not out.flushed
    then (db', tx, err flush_failed)
    else if out.normal && not out.synced
    then (db', tx, err sync_failed)
    else if db'.manager.current_ts == u64_max
    then (db', tx, err timestamp_overflow)
    else let ts = db'.manager.current_ts + 1 in
      let ticked = record db' { manager = record (db'.manager) { current_ts = ts } } in
      let tx' = record tx { commit_ts = ts } in
      if not out.merged
      then (ticked, tx', err merge_failed)
      else commit_logged out
          (commit_rows (commit_ranges ticked tx.bulk_row_ranges ts) tx.modified_rows ts) tx'
