-- ===== src/Transactions/Horizon.antt =====
-- crates/lightning-core/src/transaction/transaction_manager.rs, `get_min_active_read_ts`: the horizon
-- that the vacuum takes is not past any snapshot in use.
use lightning_db.Prelude.{
  ℕ, zero, suc, ◌+◌, ◌≤◌, ◌<◌, ◌≡◌, ◌≢◌, refl, Bool, true, false, Option, none, some, List, [], ◌∷◌,
  arith, ◌==◌, set, Result, ok, err, Bool-cases, inl, inr, All, subst, ◌∙◌,
}
use mathlib.Core.Option.{some-injective}
use lightning_db.Prelude.HashMap.{HashMap, lookup}
use lightning_db.RowVersion
use lightning_db.Transactions.{
  Db, Transaction, Outcome, or_else, remove_read_ts, begin_at, begun, u64_max,
}
use lightning_db.Transactions.End.{drop_tx}
use lightning_db.Transactions.Queries.{get_min_active_read_ts, min_key}
use lightning_db.Transactions.World.{
  World, Event, begins, writes, commits, rolls_back, drops, nth, remove_at, started, wrote, ended,
  on_tx, step, run,
}
use lightning_db.Transactions.Counts.{
  IsCounted, readers, Ends, commit-Ends, rollback-Ends, add_read_ts-IsCounted,
  remove_read_ts-IsCounted, readers-set,
}

-- What every state that the calls reach satisfies: the counts are right, and a transaction in use has
-- not ended.
pub record IsTracked (w : World) : Type 0 where
  pub counted : IsCounted w.db.manager.active_read_ts w.live
  pub unfinished : All (λ tx. tx.finalized ≡ false) w.live

module _ (P : Transaction → Type 0) where
  All-nth :
      (live : List Transaction) (i : ℕ) (tx : Transaction)
      → All P live
      → nth live i ≡ some tx
      → P tx
  All-nth [] i tx h e = absurd (cc)
  All-nth (x ∷ live) zero tx h e = subst P (some-injective x tx e) h.0
  All-nth (x ∷ live) (suc i) tx h e = All-nth live i tx h.1 e

  All-remove_at : (live : List Transaction) (i : ℕ) → All P live → All P (remove_at live i)
  All-remove_at [] i h = tt
  All-remove_at (x ∷ live) zero h = h.1
  All-remove_at (x ∷ live) (suc i) h = (h.0, All-remove_at live i h.1)

  All-set :
      (live : List Transaction) (i : ℕ) (tx : Transaction)
      → All P live
      → P tx
      → All P (set live i tx)
  All-set [] i tx h p = tt
  All-set (x ∷ live) zero tx h p = (p, h.1)
  All-set (x ∷ live) (suc i) tx h p = (h.0, All-set live i tx h.1 p)

module _ (w : World) (v : IsTracked w) where
  abbrev Unfinished : Transaction → Type 0
  Unfinished tx = tx.finalized ≡ false

  nth-Unfinished : (i : ℕ) (tx : Transaction) → nth w.live i ≡ some tx → Unfinished tx
  nth-Unfinished i tx e = All-nth Unfinished w.live i tx v.unfinished e

  replaced :
      (db : Db) (i : ℕ) (tx tx' : Transaction)
      → nth w.live i ≡ some tx
      → db.manager.active_read_ts ≡ w.db.manager.active_read_ts
      → tx'.read_ts ≡ tx.read_ts
      → tx'.finalized ≡ tx.finalized
      → IsTracked (record { db = db; live = set w.live i tx' })
  replaced db i tx tx' e m q f = record {
    counted = λ j. rw m (ground (arith, v.counted j, readers-set w.live i j tx tx' e q));
    unfinished = All-set Unfinished w.live i tx' v.unfinished (f ∙ nth-Unfinished i tx e);
  }

  released :
      (db : Db) (i : ℕ) (tx : Transaction)
      → nth w.live i ≡ some tx
      → db.manager.active_read_ts ≡ remove_read_ts w.db.manager.active_read_ts tx.read_ts
      → IsTracked (record { db = db; live = remove_at w.live i })
  released db i tx e m = record {
    counted =
        λ j. rw m (remove_read_ts-IsCounted w.db.manager.active_read_ts w.live i tx e v.counted j);
    unfinished = All-remove_at Unfinished w.live i v.unfinished;
  }

  ended-IsTracked :
      (i : ℕ) (tx : Transaction) (o : Outcome)
      → nth w.live i ≡ some tx
      → Ends w.db.manager.active_read_ts tx o
      → IsTracked (ended w i o)
  ended-IsTracked i tx (db, tx', ok u) e h = released db i tx e h
  ended-IsTracked i tx (db, tx', err x) e (h, q, f) = replaced db i tx tx' e h q f

  wrote-IsTracked :
      (i t row_id : ℕ) (tx : Transaction) (r : Result RowVersion.Conflict RowVersion.RowVersion)
      → nth w.live i ≡ some tx
      → IsTracked (wrote w i tx t row_id r)
  wrote-IsTracked i t row_id tx (ok rv) e = replaced _ i tx _ e refl refl refl
  wrote-IsTracked i t row_id tx (err x) e = v

  drop_tx-releases :
      (tx : Transaction)
      → tx.finalized ≡ false
      → (drop_tx true w.db tx).0.manager.active_read_ts
        ≡ remove_read_ts w.db.manager.active_read_ts tx.read_ts
  unfolding drop_tx
  drop_tx-releases tx f = ground arith

  begins-IsTracked :
      (ro : Bool) (snap : Option ℕ) → IsTracked (started w (begin_at w.db.manager ro snap))
  unfolding begin_at
  begins-IsTracked ro snap = elim (Bool-cases (w.db.manager.next_tx_id == u64_max)) [
    | inl e ↦ rw e v
    | inr e ↦ rw e (record {
      counted =
          add_read_ts-IsCounted w.db.manager.active_read_ts w.live (begun w.db.manager ro snap)
            v.counted;
      unfinished = (refl, v.unfinished);
    })
  ]

  on_tx-IsTracked :
      (o : Option Transaction) (f : Transaction → World)
      → ((tx : Transaction) → o ≡ some tx → IsTracked (f tx))
      → IsTracked (on_tx w o f)
  on_tx-IsTracked none f h = v
  on_tx-IsTracked (some tx) f h = h tx refl

step-IsTracked : (w : World) (e : Event) → IsTracked w → IsTracked (step w e)
unfolding step
step-IsTracked w (begins ro snap) v = begins-IsTracked w v ro snap
step-IsTracked w (writes i t row_id) v =
    on_tx-IsTracked w v (nth w.live i) _ λ tx e. wrote-IsTracked w v i t row_id tx _ e
step-IsTracked w (commits i out) v =
    on_tx-IsTracked w v (nth w.live i) _
      λ tx e. ended-IsTracked w v i tx _ e (commit-Ends out w.db tx)
step-IsTracked w (rolls_back i undone) v =
    on_tx-IsTracked w v (nth w.live i) _
      λ tx e. ended-IsTracked w v i tx _ e (rollback-Ends undone w.db tx)
step-IsTracked w (drops i) v =
    on_tx-IsTracked w v (nth w.live i) _
      λ tx e. released w v _ i tx e (drop_tx-releases w v tx (nth-Unfinished w v i tx e))

pub run-IsTracked : (w : World) (es : List Event) → IsTracked w → IsTracked (run w es)
unfolding run
run-IsTracked w [] v = v
run-IsTracked w (e ∷ es) v = run-IsTracked (step w e) es (step-IsTracked w e v)

min_key-le : (m : HashMap ℕ) (ts d : ℕ) → lookup ts m ≢ none → or_else (min_key m) d ≤ ts
unfolding lookup
min_key-le [] ts d h = absurd (h refl)
min_key-le ((k, c) ∷ m) ts d h = ground (arith, min_key-le m ts (ts + 1))

readers-pos :
    (live : List Transaction) (i : ℕ) (tx : Transaction)
    → nth live i ≡ some tx
    → 0 < readers tx.read_ts live
readers-pos [] i tx e = absurd (cc)
readers-pos (x ∷ live) zero tx e = ground arith
readers-pos (x ∷ live) (suc i) tx e = ground (arith, readers-pos live i tx e)

-- After any calls, failing ones included, the horizon of the vacuum is not past the snapshot of any
-- transaction that has not ended.
pub horizon-le-read_ts :
    (w : World) (es : List Event) (i : ℕ) (tx : Transaction)
    → IsTracked w
    → nth (run w es).live i ≡ some tx
    → get_min_active_read_ts (run w es).db.manager ≤ tx.read_ts
unfolding get_min_active_read_ts
horizon-le-read_ts w es i tx v e =
    let m : HashMap ℕ = (run w es).db.manager.active_read_ts in
    min_key-le m tx.read_ts _ (λ none_there.
      ground (arith, (run-IsTracked w es v).counted tx.read_ts, readers-pos (run w es).live i tx e))
