-- ===== src/Transactions/Tests.antt =====
-- Runs of the transaction manager, and the theorems about it at concrete states.
use lightning_db.Prelude.{
  ℕ, ◌≤◌, ◌<◌, ◌≡◌, refl, true, false, none, some, List, [], ◌∷◌, arith, err,
}
use lightning_db.Prelude.HashMap.{lookup, insert, remove}
use lightning_db.RowVersion
use lightning_db.RowVersion.{
  RowVersion, Conflict, committed_at, is_visible, mark_row, commit_row, touch, shard_idx,
}
use lightning_db.RowVersion.Shards.{new-IsValid}
use lightning_db.Transactions.{
  Db, Indexes, fts_insert, Transaction, TransactionManager, Outcomes, begin_at, begun, commit,
  commit_rows, commit_ranges, finish, table_at, new,
}
use lightning_db.Transactions.End.{rollback}
use lightning_db.Transactions.Queries.{resolved_tx_watermark, get_min_active_read_ts}
use lightning_db.Transactions.World.{World, Event, begins, writes, commits, nth, step, run}
use lightning_db.Transactions.Horizon.{IsTracked, horizon-le-read_ts}
use lightning_db.Transactions.Published.{AreValid, IsPublished, EveryRow, Fits}
use lightning_db.Transactions.Publish.{next_ts}
use lightning_db.Transactions.Effects.{commit_visible, commit_conflicts}
use lightning_db.Transactions.LogFailure.{log_failure_publishes}

-- Transaction 2 is in use, transactions 1 and 3 have ended.
abbrev busy : TransactionManager
busy = record new {
  next_tx_id = 4;
  current_ts = 9;
  active_tx_ids = 2 ∷ [];
  active_read_ts = (6, 1) ∷ [];
}

busy_watermark : resolved_tx_watermark busy ≡ 3
unfolding resolved_tx_watermark
busy_watermark = refl

abbrev no_indexes : Indexes
no_indexes = record { taken = []; fts_committed = [] }

abbrev idle : World
idle = record {
  db = record { manager = new; tables = RowVersion.new ∷ []; indexes = no_indexes };
  live = [];
}

idle-IsTracked : IsTracked idle
unfolding lookup new
idle-IsTracked = record { counted = λ ts. (refl, λ e. absurd (cc)); unfinished = tt }

abbrev all_well : Outcomes
all_well = record {
  flushed = true;
  normal = true;
  synced = true;
  merged = true;
  logged = true;
  saved = true;
}

-- A reader starts, then a writer starts, writes and commits, then another reader starts.
abbrev one_commit : List Event
one_commit =
    begins true none ∷ begins false none ∷ writes 0 0 7 ∷ commits 0 all_well ∷ begins true none ∷ []

abbrev first_reader : Transaction
first_reader = begun new true none

first_reader_in_use : nth (run idle one_commit).live 1 ≡ some first_reader
unfolding run step new begin_at commit finish mark_row lookup insert remove RowVersion.new shard_idx
    RowVersion.active_check RowVersion.committed_check commit_rows commit_ranges
first_reader_in_use = refl

horizon-le-read_ts_example :
    get_min_active_read_ts (run idle one_commit).db.manager ≤ first_reader.read_ts
horizon-le-read_ts_example =
    horizon-le-read_ts idle one_commit 1 first_reader idle-IsTracked first_reader_in_use

abbrev store : Db
store = record {
  manager = busy;
  tables = RowVersion.new ∷ RowVersion.new ∷ [];
  indexes = no_indexes;
}

abbrev writer : Transaction
writer = record {
  tx_id = 2;
  is_read_only = false;
  read_ts = 6;
  commit_ts = 0;
  modified_rows = (1, 7) ∷ (0, 3) ∷ [];
  bulk_row_ranges = (1, 20, 24) ∷ [];
  index_mutations = fts_insert 0 21 (([], 97 ∷ []) ∷ []) ∷ [];
  finalized = false;
}

store-AreValid : AreValid store
store-AreValid = (new-IsValid, (new-IsValid, tt))

store-Fits : Fits store writer
store-Fits = ((omega arith, (omega arith, tt)), (omega arith, tt))

commit_visible_example :
    EveryRow
      (λ p. is_visible (table_at (commit all_well store writer).0 p.0) p.1 5 10 ≡ true)
      writer
unfolding commit finish
commit_visible_example =
    commit_visible all_well store writer store-AreValid store-Fits refl refl 5 10 (omega arith)

commit_conflicts_example :
    EveryRow
      (λ p.
        (c : ℕ) × (mark_row (table_at (commit all_well store writer).0 p.0) p.1 5 9
          ≡ err (committed_at c))
        × (9 < c))
      writer
unfolding commit finish
commit_conflicts_example =
    commit_conflicts all_well store writer store-AreValid store-Fits refl refl 5 9 (omega arith)

abbrev no_merge : Outcomes
no_merge = record all_well { merged = false }

abbrev no_log : Outcomes
no_log = record all_well { logged = false }

log_failure_publishes_example :
    EveryRow
      (IsPublished
        (rollback true (commit no_log store writer).0 (commit no_log store writer).1).0
        (next_ts no_log store writer store-AreValid store-Fits))
      writer
unfolding commit
log_failure_publishes_example =
    log_failure_publishes no_log store writer store-AreValid store-Fits true refl refl
