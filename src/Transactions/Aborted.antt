-- ===== src/Transactions/Aborted.antt =====
-- crates/lightning-core/src/transaction/transaction_manager.rs, `commit` and `rollback`: the rollback of a
-- transaction whose commit failed, beside the rollback of one that did not try to commit.
use lightning_db.Prelude.{ℕ, ◌≡◌, Bool, true, false, [], ◌++◌, Result, ok, err}
use lightning_db.RowVersion
use lightning_db.Transactions.{
  Db, Indexes, Transaction, TransactionManager, Error, Outcome, log_failed, save_failed,
  apply_index_mutations, fts_of,
}
use lightning_db.Transactions.End.{rollback, rollback_rows, rollback_ranges}

-- The steps after the row versions were committed.
abbrev pub is_late : Error → Bool
is_late log_failed = true
is_late save_failed = true
is_late _ = false

abbrev fails_late : Result Error (Unit {0}) → Bool
fails_late (ok u) = false
fails_late (err e) = is_late e

abbrev beside : Db → TransactionManager → Indexes → Db
beside db m i = record db { manager = m; indexes = i }

module _ (db : Db) (tx : Transaction) (undone : Bool) where
  -- A state after a rollback, beside the one of a rollback without a commit.
  abbrev pub AbortsInto : Outcome → Type 0
  AbortsInto o =
      (o.0.tables ≡ (rollback undone db tx).0.tables)
      × (o.0.manager.active_tx_ids ≡ (rollback undone db tx).0.manager.active_tx_ids)
      × (o.0.manager.active_read_ts ≡ (rollback undone db tx).0.manager.active_read_ts)
      × (o.0.indexes.taken ≡ db.indexes.taken ++ tx.index_mutations)
      × (o.0.indexes.fts_committed ≡ db.indexes.fts_committed ++ fts_of [] tx.index_mutations)
      × ((rollback undone db tx).0.indexes.taken ≡ db.indexes.taken)

  abbrev rolled : Db → Db
  rolled d = rollback_ranges (rollback_rows d tx.modified_rows) tx.bulk_row_ranges

  -- The state that an early failure leaves.
  abbrev failed_at : ℕ → Db
  failed_at ts = record (apply_index_mutations db tx) {
    manager = record (db.manager) { current_ts = ts };
  }

  abbrev EndsEarly : Outcome → Type 0
  EndsEarly o =
      (e : Error)
      → o.2 ≡ err e
      → is_late e ≡ false
      → (ts : ℕ) × ((commit_ts : ℕ) × ((o.0 ≡ failed_at ts)
            × (o.1 ≡ record tx { commit_ts = commit_ts })))
