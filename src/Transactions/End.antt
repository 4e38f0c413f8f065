-- ===== src/Transactions/End.antt =====
-- crates/lightning-core/src/transaction/transaction_manager.rs: `rollback`, and the `Drop` of a
-- transaction that was neither committed nor rolled back. The counts of a table that a rollback sets
-- back, and the page versions that both discard, are not in this state.
use lightning_db.Prelude.{ℕ, Bool, true, List, [], ◌∷◌, if◌then◌else◌, not, err}
use lightning_db.RowVersion
use lightning_db.Transactions.{
  Db, Transaction, undo_failed, Outcome, table_at, put_table, finish, remove_id, remove_read_ts,
}

unfoldable pub rollback_rows : Db → List (ℕ × ℕ) → Db
rollback_rows db [] = db
rollback_rows db ((t, row_id) ∷ rows) =
    rollback_rows (put_table db t (RowVersion.rollback_row (table_at db t) row_id)) rows

unfoldable pub rollback_ranges : Db → List (ℕ × ℕ × ℕ) → Db
rollback_ranges db [] = db
rollback_ranges db ((t, start, end) ∷ ranges) =
    rollback_ranges (put_table db t (RowVersion.rollback_row_batch (table_at db t) start end))
      ranges

abbrev pub forget_id : Db → ℕ → Db
forget_id db tx_id = record db {
  manager = record (db.manager) { active_tx_ids = remove_id tx_id db.manager.active_tx_ids };
}

-- `undone` is the outcome of the undo buffer.
unfoldable pub rollback : Bool → Db → Transaction → Outcome
unfolding finish
rollback undone db tx =
    if tx.is_read_only
    then finish db tx
    else if not undone
    then (db, tx, err undo_failed)
    else finish
        (forget_id (rollback_ranges (rollback_rows db tx.modified_rows) tx.bulk_row_ranges)
          tx.tx_id)
        tx

-- `alive`: the manager that the transaction points to is still there.
unfoldable pub drop_tx : Bool → Db → Transaction → Db × Transaction
unfolding finish
drop_tx alive db tx =
    if tx.finalized
    then (db, tx)
    else if alive
    then (let released = record db {
      manager = record (db.manager) {
        active_read_ts = remove_read_ts db.manager.active_read_ts tx.read_ts;
      };
    } in
        (
          if tx.is_read_only then released else forget_id released tx.tx_id,
          record tx { finalized = true },
        ))
    else (db, record tx { finalized = true })
