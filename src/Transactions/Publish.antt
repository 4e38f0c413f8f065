-- ===== src/Transactions/Publish.antt =====
-- crates/lightning-core/src/transaction/transaction_manager.rs, `commit`: the rows of a transaction are
-- committed, one by one and as ranges.
use lightning_db.Prelude.{
  ℕ, ◌+◌, ◌<◌, ◌≡◌, refl, false, List, [], ◌∷◌, ◌==◌, length, ok, All, ◌∙◌, not, ◌&&◌, length-set,
  if_both,
}
use lightning_db.RowVersion
use lightning_db.RowVersion.{RowVersion, commit_row, commit_row_batch}
use lightning_db.RowVersion.Shards.{IsValid, commit_row-IsValid}
use lightning_db.RowVersion.Batch.{commit_row_batch-IsValid}
use lightning_db.Transactions.Published.{
  AreValid, IsPublished, EveryRow, OfRanges, OfRanges-map, Fits, All-get_or, All-set,
  put_table-keeps, put_table-IsPublished, commit_row-Free, commit_row-keeps, commit_row_batch-keeps,
  commit_row_batch-Free,
}
use lightning_db.Transactions.{
  Db, Transaction, Outcomes, Outcome, commit, commit_rows, commit_ranges, table_at, put_table,
  u64_max, apply_index_mutations,
}

module _ (ts : ℕ) where
  commit_rows-keeps :
      (db : Db) (v : AreValid db) (rows : List (ℕ × ℕ)) (p : ℕ × ℕ)
      → All (λ q. q.0 < length db.tables) rows
      → IsPublished db ts p
      → IsPublished (commit_rows db rows ts) ts p
  unfolding commit_rows
  commit_rows-keeps db v [] p fits h = h
  commit_rows-keeps db v ((t, r) ∷ rows) p (fit, fits) h =
      let w : IsValid (table_at db t) = All-get_or db.tables t v in
      let rv : RowVersion = commit_row (table_at db t) r ts in
      commit_rows-keeps (put_table db t rv)
        (All-set db.tables t rv v (commit_row-IsValid (table_at db t) w r ts)) rows p
        (rw (length-set db.tables t rv) fits)
        (put_table-keeps ts p db t rv fit (commit_row-keeps (table_at db t) w r ts p.1) h)

  commit_rows-publishes :
      (db : Db) (v : AreValid db) (rows : List (ℕ × ℕ))
      → All (λ q. q.0 < length db.tables) rows
      → All (IsPublished (commit_rows db rows ts) ts) rows
  unfolding commit_rows
  commit_rows-publishes db v [] fits = tt
  commit_rows-publishes db v ((t, r) ∷ rows) (fit, fits) =
      let w : IsValid (table_at db t) = All-get_or db.tables t v in
      let rv : RowVersion = commit_row (table_at db t) r ts in
      let db' : Db = put_table db t rv in
      let v' : AreValid db' =
        All-set db.tables t rv v (commit_row-IsValid (table_at db t) w r ts) in
      let fits' : All (λ q. q.0 < length db'.tables) rows = rw (length-set db.tables t rv) fits in
      (
        commit_rows-keeps db' v' rows (t, r) fits'
            (put_table-IsPublished ts (t, r) db t rv fit r
              (commit_row-Free (table_at db t) w r ts)),
        commit_rows-publishes db' v' rows fits',
      )

  -- A table after a range of it is committed.
  abbrev ranged : Db → ℕ × ℕ × ℕ → Db
  ranged db q = put_table db q.0 (commit_row_batch (table_at db q.0) q.1 q.2 ts)

  ranged-AreValid : (db : Db) (q : ℕ × ℕ × ℕ) → AreValid db → AreValid (ranged db q)
  ranged-AreValid db q v =
      All-set db.tables q.0 _ v
        (commit_row_batch-IsValid (table_at db q.0) (All-get_or db.tables q.0 v) q.1 q.2 ts)

  pub commit_ranges-AreValid :
      (db : Db) (v : AreValid db) (ranges : List (ℕ × ℕ × ℕ))
      → AreValid (commit_ranges db ranges ts)
        × (length (commit_ranges db ranges ts).tables ≡ length db.tables)
  unfolding commit_ranges
  commit_ranges-AreValid db v [] = (v, refl)
  commit_ranges-AreValid db v ((t, s, e) ∷ ranges) =
      let rv : RowVersion = RowVersion.commit_row_batch (table_at db t) s e ts in
      let (v', l) =
        commit_ranges-AreValid (put_table db t rv)
          (All-set db.tables t rv v
            (commit_row_batch-IsValid (table_at db t) (All-get_or db.tables t v) s e ts))
          ranges in
      (v', l ∙ length-set db.tables t rv)

  commit_ranges-keeps :
      (db : Db) (v : AreValid db) (ranges : List (ℕ × ℕ × ℕ)) (p : ℕ × ℕ)
      → All (λ q. q.0 < length db.tables) ranges
      → IsPublished db ts p
      → IsPublished (commit_ranges db ranges ts) ts p
  unfolding commit_ranges
  commit_ranges-keeps db v [] p fits h = h
  commit_ranges-keeps db v ((t, s, e) ∷ ranges) p (fit, fits) h =
      let w : IsValid (table_at db t) = All-get_or db.tables t v in
      let rv : RowVersion = commit_row_batch (table_at db t) s e ts in
      commit_ranges-keeps (ranged db (t, s, e)) (ranged-AreValid db (t, s, e) v) ranges p
        (rw (length-set db.tables t rv) fits)
        (put_table-keeps ts p db t rv fit (commit_row_batch-keeps (table_at db t) w s e ts p.1) h)

  commit_ranges-publishes :
      (db : Db) (v : AreValid db) (ranges : List (ℕ × ℕ × ℕ))
      → All (λ q. q.0 < length db.tables) ranges
      → OfRanges (IsPublished (commit_ranges db ranges ts) ts) ranges
  unfolding commit_ranges
  commit_ranges-publishes db v [] fits = tt
  commit_ranges-publishes db v ((t, s, e) ∷ ranges) (fit, fits) =
      let w : IsValid (table_at db t) = All-get_or db.tables t v in
      let rv : RowVersion = commit_row_batch (table_at db t) s e ts in
      let v' : AreValid (ranged db (t, s, e)) = ranged-AreValid db (t, s, e) v in
      let fits' : All (λ q. q.0 < length (ranged db (t, s, e)).tables) ranges =
        rw (length-set db.tables t rv) fits in
      (
        λ r lo hi.
            commit_ranges-keeps (ranged db (t, s, e)) v' ranges (t, r) fits'
              (put_table-IsPublished ts (t, r) db t rv fit r
                (commit_row_batch-Free (table_at db t) w s e ts r lo hi)),
        commit_ranges-publishes (ranged db (t, s, e)) v' ranges fits',
      )

module _ (out : Outcomes) (db : Db) (tx : Transaction) (v : AreValid db) (fits : Fits db tx) where
  abbrev pub next_ts : ℕ
  next_ts = db.manager.current_ts + 1

  unfoldable pub ticked : Db
  unfolding apply_index_mutations
  ticked = record (apply_index_mutations db tx) {
    manager = record (db.manager) { current_ts = next_ts };
  }

  pub EveryRow-IsPublished :
      EveryRow
        (IsPublished
          (commit_rows (commit_ranges ticked tx.bulk_row_ranges next_ts) tx.modified_rows next_ts)
          next_ts)
        tx
  unfolding ticked
  EveryRow-IsPublished =
      let (v', l) = commit_ranges-AreValid next_ts ticked v tx.bulk_row_ranges in
      let ranged_db : Db = commit_ranges ticked tx.bulk_row_ranges next_ts in
      let fits' : All (λ q. q.0 < length ranged_db.tables) tx.modified_rows = rw l fits.0 in
      (
        commit_rows-publishes next_ts ranged_db v' tx.modified_rows fits',
        OfRanges-map _ _ (λ p h. commit_rows-keeps next_ts ranged_db v' tx.modified_rows p fits' h)
            tx.bulk_row_ranges (commit_ranges-publishes next_ts ticked v tx.bulk_row_ranges fits.1),
      )

  abbrev Publishes : Outcome → Type 0
  Publishes o = o.2 ≡ ok tt → EveryRow (IsPublished o.0 next_ts) tx

  -- When a commit succeeds, every row that the transaction wrote, one by one or as a part of
  -- a range, is free, and has the commit's
  -- timestamp between its first and its last commit.
  pub commit_publishes :
      tx.is_read_only ≡ false
      → (commit out db tx).2 ≡ ok tt
      → EveryRow (IsPublished (commit out db tx).0 next_ts) tx
  unfolding commit ticked
  commit_publishes ro = rw ro (
      if_both Publishes (not out.flushed) _ _ (λ e. absurd (cc))
        (if_both Publishes (out.normal && not out.synced) _ _ (λ e. absurd (cc))
          (if_both Publishes (db.manager.current_ts == u64_max) _ _ (λ e. absurd (cc))
            (if_both Publishes (not out.merged) _ _ (λ e. absurd (cc))
              (if_both Publishes (not out.logged) _ _ (λ e. absurd (cc))
                (if_both Publishes (not out.saved) _ _ (λ e. absurd (cc))
                  (λ e. EveryRow-IsPublished)))))))
