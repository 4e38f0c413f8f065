-- ===== src/Transactions/World.antt =====
-- crates/lightning-core/src/transaction/transaction_manager.rs: the manager with the transactions that
-- are in use, and any sequence of calls on them.
use lightning_db.Prelude.{
  ℕ, zero, suc, Bool, true, Option, none, some, List, [], ◌∷◌, set, Result, ok, err,
}
use lightning_db.RowVersion
use lightning_db.Transactions.{
  Db, Transaction, TransactionManager, Error, Outcomes, Outcome, begin_at, commit, table_at,
  put_table,
}
use lightning_db.Transactions.End.{rollback, drop_tx}

pub record World : Type 0 where
  pub db : Db
  pub live : List Transaction

pub data Event : Type 0 where
  begins : Bool → Option ℕ → Event
  -- the transaction's place, the table's number, the row
  writes : ℕ → ℕ → ℕ → Event
  commits : ℕ → Outcomes → Event
  rolls_back : ℕ → Bool → Event
  drops : ℕ → Event

abbrev pub nth : List Transaction → ℕ → Option Transaction
nth [] i = none
nth (tx ∷ live) zero = some tx
nth (tx ∷ live) (suc i) = nth live i

abbrev pub remove_at : List Transaction → ℕ → List Transaction
remove_at [] i = []
remove_at (tx ∷ live) zero = live
remove_at (tx ∷ live) (suc i) = tx ∷ remove_at live i

abbrev pub started : World → Result Error (Transaction × TransactionManager) → World
started w (ok (tx, m)) = record { db = record (w.db) { manager = m }; live = tx ∷ w.live }
started w (err e) = w

abbrev pub wrote :
    World → ℕ → Transaction → ℕ → ℕ → Result RowVersion.Conflict RowVersion.RowVersion → World
wrote w i tx t row_id (ok rv) = record {
  db = put_table w.db t rv;
  live = set w.live i (record tx { modified_rows = (t, row_id) ∷ tx.modified_rows });
}
wrote w i tx t row_id (err c) = w

-- A transaction whose commit or rollback fails stays in use.
abbrev pub ended : World → ℕ → Outcome → World
ended w i (db, tx, ok u) = record { db = db; live = remove_at w.live i }
ended w i (db, tx, err e) = record { db = db; live = set w.live i tx }

abbrev pub on_tx : World → Option Transaction → (Transaction → World) → World
on_tx w none f = w
on_tx w (some tx) f = f tx

unfoldable pub step : World → Event → World
step w (begins is_read_only snapshot_ts) =
    started w (begin_at w.db.manager is_read_only snapshot_ts)
step w (writes i t row_id) =
    on_tx w (nth w.live i) (λ tx.
      wrote w i tx t row_id (RowVersion.mark_row (table_at w.db t) row_id tx.tx_id tx.read_ts))
step w (commits i out) = on_tx w (nth w.live i) (λ tx. ended w i (commit out w.db tx))
step w (rolls_back i undone) = on_tx w (nth w.live i) (λ tx. ended w i (rollback undone w.db tx))
step w (drops i) =
    on_tx w (nth w.live i)
      (λ tx. record { db = (drop_tx true w.db tx).0; live = remove_at w.live i })

unfoldable pub run : World → List Event → World
run w [] = w
run w (e ∷ es) = run (step w e) es
