-- ===== src/Transactions/Counts.antt =====
-- crates/lightning-core/src/transaction/transaction_manager.rs: the counts of the active snapshots, and
-- what the calls do to them.
use lightning_db.Prelude.{
  ℕ, zero, suc, ◌+◌, ◌-◌, ◌≡◌, ◌≢◌, refl, Bool, true, false, Option, none, some, List, [], ◌∷◌,
  arith, ◌==◌, if◌then◌else◌, set, ok, err, ap, ap₂, ◌∙◌, not, ◌&&◌,
}
use lightning_db.Prelude.HashMap.{HashMap, lookup, lookup-insert, lookup-remove}
use lightning_db.Transactions.{
  Db, Transaction, TransactionManager, Outcomes, Outcome, or_else, add_read_ts, remove_read_ts,
  lower_count, raise_count, u64_max, commit, commit_logged, commit_rows, commit_ranges, put_table,
}
use lightning_db.Transactions.End.{rollback, rollback_rows, rollback_ranges}
use lightning_db.Transactions.World.{nth, remove_at}

-- The transactions in use with this snapshot.
abbrev pub readers : ℕ → List Transaction → ℕ
readers ts [] = 0
readers ts (tx ∷ live) = (if tx.read_ts == ts then 1 else 0) + readers ts live

-- The map has for each snapshot the number of transactions in use with it, and no zero.
abbrev pub IsCounted : HashMap ℕ → List Transaction → Type 0
IsCounted m live = (ts : ℕ) → (or_else (lookup ts m) 0 ≡ readers ts live) × (lookup ts m ≢ some 0)

abbrev one_if : Bool → ℕ
one_if b = if b then 1 else 0

raise_count-count :
    (m : HashMap ℕ) (ts j : ℕ) (o : Option ℕ)
    → lookup ts m ≡ o
    → (or_else (lookup j (raise_count ts o m)) 0 ≡ one_if (ts == j) + or_else (lookup j m) 0)
      × (lookup j m ≢ some 0 → lookup j (raise_count ts o m) ≢ some 0)
raise_count-count m ts j none e = ground (arith, lookup-insert ts j 1 m)
raise_count-count m ts j (some c) e = ground (arith, lookup-insert ts j (c + 1) m)

lower_count-count :
    (m : HashMap ℕ) (ts j : ℕ) (o : Option ℕ)
    → lookup ts m ≡ o
    → (or_else (lookup j (lower_count ts o m)) 0 ≡ or_else (lookup j m) 0 - one_if (ts == j))
      × (lookup j m ≢ some 0 → lookup j (lower_count ts o m) ≢ some 0)
lower_count-count m ts j none e = ground arith
lower_count-count m ts j (some c) e =
    ground (arith, lookup-insert ts j (c - 1) m, lookup-remove ts j m)

-- A transaction that starts, and one that ends.
pub add_read_ts-IsCounted :
    (m : HashMap ℕ) (live : List Transaction) (tx : Transaction)
    → IsCounted m live
    → IsCounted (add_read_ts tx.read_ts m) (tx ∷ live)
unfolding add_read_ts
add_read_ts-IsCounted m live tx c j =
    ground (arith, c j, raise_count-count m tx.read_ts j (lookup tx.read_ts m) refl)

pub readers-remove_at :
    (live : List Transaction) (i ts : ℕ) (tx : Transaction)
    → nth live i ≡ some tx
    → one_if (tx.read_ts == ts) + readers ts (remove_at live i) ≡ readers ts live
readers-remove_at [] i ts tx e = absurd (cc)
readers-remove_at (x ∷ live) zero ts tx e = ground arith
readers-remove_at (x ∷ live) (suc i) ts tx e = ground (arith, readers-remove_at live i ts tx e)

pub readers-set :
    (live : List Transaction) (i ts : ℕ) (tx tx' : Transaction)
    → nth live i ≡ some tx
    → tx'.read_ts ≡ tx.read_ts
    → readers ts (set live i tx') ≡ readers ts live
readers-set [] i ts tx tx' e q = refl
readers-set (x ∷ live) zero ts tx tx' e q = ground arith
readers-set (x ∷ live) (suc i) ts tx tx' e q = ground (arith, readers-set live i ts tx tx' e q)

pub remove_read_ts-IsCounted :
    (m : HashMap ℕ) (live : List Transaction) (i : ℕ) (tx : Transaction)
    → nth live i ≡ some tx
    → IsCounted m live
    → IsCounted (remove_read_ts m tx.read_ts) (remove_at live i)
unfolding remove_read_ts
remove_read_ts-IsCounted m live i tx e c j = ground (
  arith,
  c j,
  readers-remove_at live i j tx e,
  lower_count-count m tx.read_ts j (lookup tx.read_ts m) refl,
)

pub manager-commit_rows :
    (db : Db) (rows : List (ℕ × ℕ)) (ts : ℕ) → (commit_rows db rows ts).manager ≡ db.manager
unfolding commit_rows
manager-commit_rows db [] ts = refl
manager-commit_rows db ((t, r) ∷ rows) ts = manager-commit_rows (put_table db t _) rows ts

pub manager-commit_ranges :
    (db : Db) (ranges : List (ℕ × ℕ × ℕ)) (ts : ℕ)
    → (commit_ranges db ranges ts).manager ≡ db.manager
unfolding commit_ranges
manager-commit_ranges db [] ts = refl
manager-commit_ranges db ((t, s, e) ∷ ranges) ts =
    manager-commit_ranges (put_table db t _) ranges ts

pub manager-rollback_rows :
    (db : Db) (rows : List (ℕ × ℕ)) → (rollback_rows db rows).manager ≡ db.manager
unfolding rollback_rows
manager-rollback_rows db [] = refl
manager-rollback_rows db ((t, r) ∷ rows) = manager-rollback_rows (put_table db t _) rows

pub manager-rollback_ranges :
    (db : Db) (ranges : List (ℕ × ℕ × ℕ)) → (rollback_ranges db ranges).manager ≡ db.manager
unfolding rollback_ranges
manager-rollback_ranges db [] = refl
manager-rollback_ranges db ((t, s, e) ∷ ranges) = manager-rollback_ranges (put_table db t _) ranges

-- An end that succeeds gives up the transaction's snapshot once; one that fails keeps it.
abbrev pub Ends : HashMap ℕ → Transaction → Outcome → Type 0
Ends m tx (db', tx', ok u) = db'.manager.active_read_ts ≡ remove_read_ts m tx.read_ts
Ends m tx (db', tx', err e) =
    (db'.manager.active_read_ts ≡ m) × (tx'.read_ts ≡ tx.read_ts) × (tx'.finalized ≡ tx.finalized)

Ends-if :
    (b : Bool) (m : HashMap ℕ) (tx : Transaction) (x y : Outcome)
    → Ends m tx x
    → Ends m tx y
    → Ends m tx (if b then x else y)
Ends-if true m tx x y h k = h
Ends-if false m tx x y h k = k

commit_logged-Ends :
    (out : Outcomes) (db : Db) (tx tx₀ : Transaction) (m : HashMap ℕ)
    → db.manager.active_read_ts ≡ m
    → tx.read_ts ≡ tx₀.read_ts
    → tx.finalized ≡ tx₀.finalized
    → Ends m tx₀ (commit_logged out db tx)
unfolding commit_logged
commit_logged-Ends out db tx tx₀ m e q f =
    Ends-if (not out.logged) m tx₀ _ _ (e, q, f)
      (Ends-if (not out.saved) m tx₀ _ _ (e, q, f) (ap₂ remove_read_ts e q))

pub commit-Ends :
    (out : Outcomes) (db : Db) (tx : Transaction)
    → Ends db.manager.active_read_ts tx (commit out db tx)
unfolding commit
commit-Ends out db tx =
    let m : HashMap ℕ = db.manager.active_read_ts in
    Ends-if tx.is_read_only m tx _ _ refl (
      Ends-if (not out.flushed) m tx _ _ (refl, refl, refl)
        (Ends-if (out.normal && not out.synced) m tx _ _ (refl, refl, refl)
          (Ends-if (db.manager.current_ts == u64_max) m tx _ _ (refl, refl, refl)
            (Ends-if (not out.merged) m tx _ _ (refl, refl, refl)
              (commit_logged-Ends out _ _ tx m
                (ap (λ (x : TransactionManager). x.active_read_ts)
                  (manager-commit_rows _ tx.modified_rows _
                    ∙ manager-commit_ranges _ tx.bulk_row_ranges _))
                refl refl)))))

pub rollback-Ends :
    (undone : Bool) (db : Db) (tx : Transaction)
    → Ends db.manager.active_read_ts tx (rollback undone db tx)
unfolding rollback
rollback-Ends undone db tx =
    let m : HashMap ℕ = db.manager.active_read_ts in
    Ends-if tx.is_read_only m tx _ _ refl (
      Ends-if (not undone) m tx _ _ (refl, refl, refl)
        (ap (λ (x : TransactionManager). remove_read_ts x.active_read_ts tx.read_ts)
          (manager-rollback_ranges _ tx.bulk_row_ranges
            ∙ manager-rollback_rows db tx.modified_rows)))
