-- ===== src/Transactions/LogFailure.antt =====
-- crates/lightning-core/src/transaction/transaction_manager.rs, `commit` and `rollback`: the failure of the
-- log's commit record, and the rollback that a caller answers it with.
use lightning_db.Prelude.{
  ℕ, ◌-◌, ◌<◌, ◌≡◌, refl, Bool, false, List, [], ◌∷◌, arith, ◌==◌, length, err, All, subst, ◌∙◌,
  sym, not, ◌&&◌, length-set, if_both, count_up,
}
use lightning_db.RowVersion
use lightning_db.RowVersion.{RowVersion, rollback_row, commit_row}
use lightning_db.RowVersion.Shards.{
  IsValid, active-rollback_row, history-rollback_row, rollback_row-IsValid, commit_row-IsValid,
}
use lightning_db.RowVersion.Batch
use lightning_db.RowVersion.Batch.{rollback_row_batch-eq_loop}
use lightning_db.Transactions.{
  Db, Transaction, Outcomes, Outcome, log_failed, commit, commit_rows, commit_ranges, u64_max,
  table_at, put_table,
}
use lightning_db.Transactions.End.{rollback, rollback_rows, rollback_ranges}
use lightning_db.Transactions.Published.{
  AreValid, Free, IsPublished, EveryRow, EveryRow-map, Fits, All-get_or, All-set, put_table-keeps,
}
use lightning_db.Transactions.Publish.{
  next_ts, ticked, EveryRow-IsPublished, commit_ranges-AreValid,
}

rollback_row-Free :
    (rv : RowVersion) (v : IsValid rv) (row_id ts r : ℕ)
    → Free rv ts r
    → Free (rollback_row rv row_id) ts r
rollback_row-Free rv v row_id ts r h = (
  rw (active-rollback_row rv v row_id r) (ground arith),
  rw (history-rollback_row rv v row_id r) h.1,
)

rollback_rows-IsValid :
    (rv : RowVersion) (v : IsValid rv) (row_ids : List ℕ) → IsValid (Batch.rollback_rows rv row_ids)
unfolding Batch.rollback_rows
rollback_rows-IsValid rv v [] = v
rollback_rows-IsValid rv v (x ∷ row_ids) =
    rollback_rows-IsValid (rollback_row rv x) (rollback_row-IsValid rv v x) row_ids

rollback_rows-Free :
    (rv : RowVersion) (v : IsValid rv) (row_ids : List ℕ) (ts r : ℕ)
    → Free rv ts r
    → Free (Batch.rollback_rows rv row_ids) ts r
unfolding Batch.rollback_rows
rollback_rows-Free rv v [] ts r h = h
rollback_rows-Free rv v (x ∷ row_ids) ts r h =
    rollback_rows-Free (rollback_row rv x) (rollback_row-IsValid rv v x) row_ids ts r
      (rollback_row-Free rv v x ts r h)

module _ (ts : ℕ) (p : ℕ × ℕ) where
  rollback_rows-keeps :
      (db : Db) (v : AreValid db) (rows : List (ℕ × ℕ))
      → All (λ q. q.0 < length db.tables) rows
      → IsPublished db ts p
      → IsPublished (rollback_rows db rows) ts p
        × AreValid (rollback_rows db rows)
        × (length (rollback_rows db rows).tables ≡ length db.tables)
  unfolding rollback_rows
  rollback_rows-keeps db v [] fits h = (h, v, refl)
  rollback_rows-keeps db v ((t, r) ∷ rows) (fit, fits) h =
      let rv : RowVersion = table_at db t in
      let rv' : RowVersion = rollback_row rv r in
      let w : IsValid rv = All-get_or db.tables t v in
      let h' = put_table-keeps ts p db t rv' fit (rollback_row-Free rv w r ts p.1) h in
      let v' : AreValid (put_table db t rv') =
        All-set db.tables t rv' v (rollback_row-IsValid rv w r) in
      let (h'', v'', l) =
        rollback_rows-keeps (put_table db t rv') v' rows (rw (length-set db.tables t rv') fits)
          h' in
      (h'', v'', l ∙ length-set db.tables t rv')

  rollback_ranges-keeps :
      (db : Db) (v : AreValid db) (ranges : List (ℕ × ℕ × ℕ))
      → All (λ q. q.0 < length db.tables) ranges
      → IsPublished db ts p
      → IsPublished (rollback_ranges db ranges) ts p
  unfolding rollback_ranges
  rollback_ranges-keeps db v [] fits h = h
  rollback_ranges-keeps db v ((t, s, e) ∷ ranges) (fit, fits) h =
      let rv : RowVersion = table_at db t in
      let rv' : RowVersion = RowVersion.rollback_row_batch rv s e in
      let w : IsValid rv = All-get_or db.tables t v in
      let as_loop : rv' ≡ Batch.rollback_rows rv (count_up (e - s) s) =
        rollback_row_batch-eq_loop rv w s e in
      let h' =
        put_table-keeps ts p db t rv' fit
          (λ f. subst (λ x. Free x ts p.1) (sym as_loop) (rollback_rows-Free rv w _ ts p.1 f)) h in
      let v' : AreValid (put_table db t rv') =
        All-set db.tables t rv' v (subst IsValid (sym as_loop) (rollback_rows-IsValid rv w _)) in
      rollback_ranges-keeps (put_table db t rv') v' ranges (rw (length-set db.tables t rv') fits) h'

commit_rows-AreValid :
    (ts : ℕ) (db : Db) (v : AreValid db) (rows : List (ℕ × ℕ))
    → AreValid (commit_rows db rows ts)
      × (length (commit_rows db rows ts).tables ≡ length db.tables)
unfolding commit_rows
commit_rows-AreValid ts db v [] = (v, refl)
commit_rows-AreValid ts db v ((t, r) ∷ rows) =
    let rv : RowVersion = commit_row (table_at db t) r ts in
    let (v', l) =
      commit_rows-AreValid ts (put_table db t rv)
        (All-set db.tables t rv v
          (commit_row-IsValid (table_at db t) (All-get_or db.tables t v) r ts))
        rows in
    (v', l ∙ length-set db.tables t rv)

module _ (out : Outcomes) (db : Db) (tx : Transaction) (v : AreValid db) (fits : Fits db tx)
    (undone : Bool) where
  abbrev ts : ℕ
  ts = next_ts out db tx v fits

  abbrev written : Db
  written =
      commit_rows (commit_ranges (ticked out db tx v fits) tx.bulk_row_ranges ts) tx.modified_rows
        ts

  rolled_back-IsPublished :
      EveryRow
        (IsPublished
          (rollback_ranges (rollback_rows written tx.modified_rows) tx.bulk_row_ranges)
          ts)
        tx
  unfolding ticked
  rolled_back-IsPublished =
      let (v₁, l₁) = commit_ranges-AreValid ts (ticked out db tx v fits) v tx.bulk_row_ranges in
      let (v₂, l₂) =
        commit_rows-AreValid ts (commit_ranges (ticked out db tx v fits) tx.bulk_row_ranges ts) v₁
          tx.modified_rows in
      let same : length written.tables ≡ length db.tables = l₂ ∙ l₁ in
      let all_fit : All (λ p. p.0 < length written.tables) tx.modified_rows = rw same fits.0 in
      EveryRow-map (IsPublished written ts) _
        (λ p h.
          let (h', v', l') = rollback_rows-keeps ts p written v₂ tx.modified_rows all_fit h in
          rollback_ranges-keeps ts p (rollback_rows written tx.modified_rows) v' tx.bulk_row_ranges
            (rw (l', same) fits.1) h')
        tx (EveryRow-IsPublished out db tx v fits)

  abbrev StayPublished : Outcome → Type 0
  StayPublished o = o.2 ≡ err log_failed → EveryRow (IsPublished (rollback undone o.0 o.1).0 ts) tx

  -- When the log does not take the commit record, `commit` answers with an error although every row
  -- that the transaction wrote, one by one or as a part of a range, is already published, and a
  -- rollback of the transaction leaves each of them published.
  pub log_failure_publishes :
      tx.is_read_only ≡ false
      → (commit out db tx).2 ≡ err log_failed
      → EveryRow (IsPublished (rollback undone (commit out db tx).0 (commit out db tx).1).0 ts) tx
  unfolding commit rollback ticked
  log_failure_publishes ro = rw ro (
      if_both StayPublished (not out.flushed) _ _ (λ e. absurd (cc))
        (if_both StayPublished (out.normal && not out.synced) _ _ (λ e. absurd (cc))
          (if_both StayPublished (db.manager.current_ts == u64_max) _ _ (λ e. absurd (cc))
            (if_both StayPublished (not out.merged) _ _ (λ e. absurd (cc))
              (if_both StayPublished (not out.logged) _ _
                (λ e.
                  (if_both {A = Outcome} (λ o. EveryRow (IsPublished o.0 ts) tx) (not undone) _ _
                    (EveryRow-IsPublished out db tx v fits) rolled_back-IsPublished))
                (if_both StayPublished (not out.saved) _ _ (λ e. absurd (cc))
                  (λ e. absurd (cc))))))))
