-- ===== src/Transactions/Effects.antt =====
-- crates/lightning-core/src/transaction/transaction_manager.rs, `commit`: what readers and writers meet
-- after a commit that succeeded.
use lightning_db.Prelude.{ℕ, ◌≤◌, ◌<◌, ◌≡◌, refl, true, false, Option, none, some, arith, ok, err}
use lightning_db.RowVersion.{
  RowVersion, CommittedVersion, committed_at, is_visible, visible, mark_row, active_check,
  committed_check,
}
use lightning_db.RowVersion.Shards.{active, history}
use lightning_db.Transactions.{Db, Transaction, Outcomes, commit, table_at}
use lightning_db.Transactions.Publish.{next_ts, commit_publishes}
use lightning_db.Transactions.Published.{AreValid, Spans, IsPublished, EveryRow, EveryRow-map, Fits}

visible_of_Spans :
    (o : Option ℕ) (h : Option CommittedVersion) (ts reader read_ts : ℕ)
    → o ≡ none
    → Spans h ts
    → ts ≤ read_ts
    → visible o h reader read_ts ≡ true
unfolding visible
visible_of_Spans none none ts reader read_ts e s l = absurd s
visible_of_Spans none (some c) ts reader read_ts e s l = ground arith
visible_of_Spans (some x) h ts reader read_ts e s l = absurd (cc)

module _ (rv : RowVersion) (row_id ts : ℕ) where
  refused_of_Spans :
      (tx_id read_ts : ℕ) (o : Option ℕ) (h : Option CommittedVersion)
      → active rv row_id ≡ o
      → history rv row_id ≡ h
      → o ≡ none
      → Spans h ts
      → read_ts < ts
      → (c : ℕ) × (mark_row rv row_id tx_id read_ts ≡ err (committed_at c)) × (ts ≤ c)
  unfolding mark_row active_check committed_check
  refused_of_Spans tx_id read_ts none none a b e s l = absurd s
  refused_of_Spans tx_id read_ts none (some c) a b e s l = (c.last_ts, ground arith, s.1)
  refused_of_Spans tx_id read_ts (some x) h a b e s l = absurd (cc)

module _ (out : Outcomes) (db : Db) (tx : Transaction) (v : AreValid db) (fits : Fits db tx)
    (writer : tx.is_read_only ≡ false) (succeeds : (commit out db tx).2 ≡ ok tt) where
  -- After a commit that succeeded, of a transaction that may write and whose tables are there, every
  -- row that the transaction wrote, one by one or as a part of
  -- a range, is visible to every snapshot that is not before the commit's timestamp.
  pub commit_visible :
      (reader read_ts : ℕ)
      → db.manager.current_ts < read_ts
      → EveryRow (λ p. is_visible (table_at (commit out db tx).0 p.0) p.1 reader read_ts ≡ true) tx
  unfolding is_visible
  commit_visible reader read_ts l =
      EveryRow-map (IsPublished (commit out db tx).0 (next_ts out db tx v fits)) _
        (λ p h.
          visible_of_Spans _ _ (next_ts out db tx v fits) reader read_ts h.0 h.1 (omega arith))
        tx (commit_publishes out db tx v fits writer succeeds)

  -- After a commit that succeeded, of a transaction that may write and whose tables are there, a write to a row that the transaction wrote, one by one or as a
  -- part of a range, is refused, with a later commit as the reason, when the writer's snapshot is not after the one that the commit started from.
  pub commit_conflicts :
      (tx_id read_ts : ℕ)
      → read_ts ≤ db.manager.current_ts
      → EveryRow
          (λ p.
            (c : ℕ) × (mark_row (table_at (commit out db tx).0 p.0) p.1 tx_id read_ts
              ≡ err (committed_at c))
            × (read_ts < c))
          tx
  commit_conflicts tx_id read_ts l =
      EveryRow-map (IsPublished (commit out db tx).0 (next_ts out db tx v fits)) _
        (λ p h.
          let (c, e, le) =
            refused_of_Spans (table_at (commit out db tx).0 p.0) p.1 (next_ts out db tx v fits)
              tx_id read_ts _ _ refl refl h.0 h.1 (omega arith) in
          (c, e, omega arith))
        tx (commit_publishes out db tx v fits writer succeeds)
