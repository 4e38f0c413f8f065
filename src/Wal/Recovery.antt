-- ===== src/Wal/Recovery.antt =====
-- crates/lightning-core/src/storage/wal.rs, `replay`: which updates recovery applies.
use lightning_db.Prelude.{
  ℕ, ◌≡◌, refl, ap, ◌∙◌, sym, Bool, true, false, ◌&&◌, ◌||◌, Option, none, some, List, [], ◌∷◌,
  ◌++◌, arith, ltb, ◌==◌, if◌then◌else◌, contains, Bool-cases, inl, inr, subst, if_both, ==_refl,
}
use mathlib.Core.List.{append_assoc, append-nil}
use lightning_db.Prelude.HashMap.{
  HashMap, lookup, lookup-insert, lookup-remove, lookup-empty, Distinct, insert-Distinct,
  remove-Distinct,
}
use lightning_db.Wal.{
  PageUpdate, WalRecord, page_update, commit, Replay, new_replay, updates_or_empty, for_tx,
  add_commit, release, handle_page_update, handle_commit, replay_record, replay_loop, drain, replay,
  count_record,
}

-- The updates that the log has for a transaction, in order.
abbrev pub updates_of : ℕ → List WalRecord → List PageUpdate
updates_of tx_id [] = []
updates_of tx_id (page_update t u ∷ records) =
    if t == tx_id then u ∷ updates_of tx_id records else updates_of tx_id records
updates_of tx_id (commit t ∷ records) = updates_of tx_id records

abbrev pub is_committed : ℕ → List WalRecord → Bool
is_committed tx_id [] = false
is_committed tx_id (page_update t u ∷ records) = is_committed tx_id records
is_committed tx_id (commit t ∷ records) = t == tx_id || is_committed tx_id records

-- The applied updates that are for a transaction, in order.
abbrev pub of_tx : ℕ → List (ℕ × PageUpdate) → List PageUpdate
of_tx tx_id [] = []
of_tx tx_id ((t, u) ∷ applied) = if t == tx_id then u ∷ of_tx tx_id applied else of_tx tx_id applied

of_tx-append :
    (tx_id : ℕ) (xs ys : List (ℕ × PageUpdate))
    → of_tx tx_id (xs ++ ys) ≡ of_tx tx_id xs ++ of_tx tx_id ys
of_tx-append tx_id [] ys = refl
of_tx-append tx_id ((t, u) ∷ xs) ys = ground (arith, of_tx-append tx_id xs ys)

of_tx-for_tx :
    (tx_id t : ℕ) (updates : List PageUpdate)
    → of_tx tx_id (for_tx t updates) ≡ (if t == tx_id then updates else [])
of_tx-for_tx tx_id t [] = ground arith
of_tx-for_tx tx_id t (u ∷ updates) = ground (arith, of_tx-for_tx tx_id t updates)

module _ (last_checkpoint_tx : ℕ) where
  -- What has been seen of a transaction is pending, or applied once it is committed and later than the
  -- checkpoint.
  pub record Tracks (r : Replay) (tx_id : ℕ) (committed : Bool) (updates : List PageUpdate)
      : Type 0 where
    pub commits_right : contains tx_id r.commits ≡ committed
    pub applied_right :
        of_tx tx_id r.applied ≡ (if ltb last_checkpoint_tx tx_id && committed then updates else [])
    pub pending_right :
        updates_or_empty (lookup tx_id r.pending)
        ≡ (if ltb last_checkpoint_tx tx_id && committed then [] else updates)

  pub handle_page_update-Tracks :
      (r : Replay) (tx_id t : ℕ) (u : PageUpdate) (committed : Bool) (updates : List PageUpdate)
      → Tracks r tx_id committed updates
      → Tracks
          (handle_page_update last_checkpoint_tx r t u)
          tx_id
          committed
          (if t == tx_id then updates ++ u ∷ [] else updates)
  unfolding handle_page_update
  handle_page_update-Tracks r tx_id t u committed updates k = ground (
    arith,
    of_tx-append tx_id r.applied ((t, u) ∷ []),
    lookup-insert t tx_id (updates_or_empty (lookup t r.pending) ++ u ∷ []) r.pending,
    append-nil updates,
  )

  contains-add_commit :
      (t tx_id : ℕ) (commits : List ℕ)
      → contains tx_id (add_commit t commits) ≡ (t == tx_id || contains tx_id commits)
  contains-add_commit t tx_id commits =
      ground (arith, ap (λ (x : ℕ). contains x commits) {x = t} {y = tx_id})

  release-Tracks :
      (r : Replay) (tx_id t : ℕ) (committed : Bool) (updates : List PageUpdate)
      (o : Option (List PageUpdate))
      → lookup t r.pending ≡ o
      → ltb last_checkpoint_tx t ≡ true
      → Tracks r tx_id committed updates
      → Tracks
          (release last_checkpoint_tx (record r { commits = add_commit t r.commits }) t o)
          tx_id
          (t == tx_id || committed)
          updates
  release-Tracks r tx_id t committed updates none e late k = ground (
    arith,
    contains-add_commit t tx_id r.commits,
    ap (λ (x : ℕ). lookup x r.pending) {x = t} {y = tx_id},
  )
  release-Tracks r tx_id t committed updates (some us) e late k = ground (
    arith,
    contains-add_commit t tx_id r.commits,
    of_tx-append tx_id r.applied (for_tx t us),
    of_tx-for_tx tx_id t us,
    lookup-remove t tx_id r.pending,
    ap (λ (x : ℕ). lookup x r.pending) {x = t} {y = tx_id},
    append-nil updates,
    append-nil us,
  )

  pub handle_commit-Tracks :
      (r : Replay) (tx_id t : ℕ) (committed : Bool) (updates : List PageUpdate)
      → Tracks r tx_id committed updates
      → Tracks (handle_commit last_checkpoint_tx r t) tx_id (t == tx_id || committed) updates
  unfolding handle_commit
  handle_commit-Tracks r tx_id t committed updates k =
      elim (Bool-cases (ltb last_checkpoint_tx t)) [
        | inl late ↦
            rw late (release-Tracks r tx_id t committed updates (lookup t r.pending) refl late k)
        | inr early ↦ rw early (
            ground (
              arith,
              contains-add_commit t tx_id r.commits,
              ap (λ (x : ℕ). ltb last_checkpoint_tx x) {x = t} {y = tx_id},
            ))
      ]

  pub count_record-Tracks :
      (r : Replay) (tx_id t : ℕ) (committed : Bool) (updates : List PageUpdate)
      → Tracks r tx_id committed updates
      → Tracks (count_record last_checkpoint_tx t r) tx_id committed updates
  count_record-Tracks r tx_id t committed updates k = record {
    commits_right = k.commits_right;
    applied_right = k.applied_right;
    pending_right = k.pending_right;
  }

  replay_loop-Tracks :
      (r : Replay) (tx_id : ℕ) (committed : Bool) (updates : List PageUpdate)
      (records : List WalRecord)
      → Tracks r tx_id committed updates
      → Tracks
          (replay_loop last_checkpoint_tx r records)
          tx_id
          (is_committed tx_id records || committed)
          (updates ++ updates_of tx_id records)
  unfolding replay_loop replay_record
  replay_loop-Tracks r tx_id committed updates [] k =
      subst (Tracks r tx_id committed) (sym (append-nil updates)) k
  replay_loop-Tracks r tx_id committed updates (page_update t u ∷ records) k =
      let r' : Replay =
        handle_page_update last_checkpoint_tx (count_record last_checkpoint_tx t r) t u in
      let step : Tracks r' tx_id committed (if t == tx_id then updates ++ u ∷ [] else updates) =
        handle_page_update-Tracks (count_record last_checkpoint_tx t r) tx_id t u committed updates
          (count_record-Tracks r tx_id t committed updates k) in
      let rest : Tracks (replay_loop last_checkpoint_tx r' records) tx_id
          (is_committed tx_id records || committed)
          ((if t == tx_id then updates ++ u ∷ [] else updates) ++ updates_of tx_id records) =
        replay_loop-Tracks r' tx_id committed (if t == tx_id then updates ++ u ∷ [] else updates)
          records step in
      subst
        (Tracks (replay_loop last_checkpoint_tx r' records) tx_id
          (is_committed tx_id records || committed))
        (elim (Bool-cases (t == tx_id)) [
          | inl e ↦ rw e (append_assoc updates (u ∷ []) (updates_of tx_id records))
          | inr e ↦ rw e refl
        ])
        rest
  replay_loop-Tracks r tx_id committed updates (commit t ∷ records) k =
      let r' : Replay = handle_commit last_checkpoint_tx (count_record last_checkpoint_tx t r) t in
      let step : Tracks r' tx_id (t == tx_id || committed) updates =
        handle_commit-Tracks (count_record last_checkpoint_tx t r) tx_id t committed updates
          (count_record-Tracks r tx_id t committed updates k) in
      subst
        (λ c.
          Tracks (replay_loop last_checkpoint_tx r' records) tx_id c
            (updates ++ updates_of tx_id records))
        (let swap : (is_committed tx_id records || (t == tx_id || committed))
              ≡ ((t == tx_id || is_committed tx_id records) || committed) =
            ground arith in
          swap)
        (replay_loop-Tracks r' tx_id (t == tx_id || committed) updates records step)

  handle_page_update-Distinct :
      (r : Replay) (t : ℕ) (u : PageUpdate)
      → Distinct r.pending
      → Distinct (handle_page_update last_checkpoint_tx r t u).pending
  unfolding handle_page_update
  handle_page_update-Distinct r t u d =
      ground
        (arith, insert-Distinct t (updates_or_empty (lookup t r.pending) ++ u ∷ []) r.pending d)

  release-Distinct :
      (r : Replay) (t : ℕ) (o : Option (List PageUpdate))
      → Distinct r.pending
      → Distinct (release last_checkpoint_tx r t o).pending
  release-Distinct r t none d = d
  release-Distinct r t (some us) d = remove-Distinct t r.pending d

  handle_commit-Distinct :
      (r : Replay) (t : ℕ)
      → Distinct r.pending
      → Distinct (handle_commit last_checkpoint_tx r t).pending
  unfolding handle_commit
  handle_commit-Distinct r t d =
      if_both (λ (x : Replay). Distinct x.pending) (ltb last_checkpoint_tx t) _ _
        (release-Distinct (record r { commits = add_commit t r.commits }) t (lookup t r.pending) d)
        d

  replay_loop-Distinct :
      (r : Replay) (records : List WalRecord)
      → Distinct r.pending
      → Distinct (replay_loop last_checkpoint_tx r records).pending
  unfolding replay_loop replay_record
  replay_loop-Distinct r [] d = d
  replay_loop-Distinct r (page_update t u ∷ records) d =
      replay_loop-Distinct (replay_record last_checkpoint_tx r (page_update t u)) records
        (handle_page_update-Distinct (count_record last_checkpoint_tx t r) t u d)
  replay_loop-Distinct r (commit t ∷ records) d =
      replay_loop-Distinct (replay_record last_checkpoint_tx r (commit t)) records
        (handle_commit-Distinct (count_record last_checkpoint_tx t r) t d)

  drain_nothing :
      (commits : List ℕ) (pending : HashMap (List PageUpdate)) (applied : List (ℕ × PageUpdate))
      → Distinct pending
      → ((t : ℕ)
          → (ltb last_checkpoint_tx t && contains t commits) ≡ true
          → updates_or_empty (lookup t pending) ≡ [])
      → drain last_checkpoint_tx commits pending applied ≡ applied
  unfolding drain lookup
  drain_nothing commits [] applied d h = refl
  drain_nothing commits ((t, us) ∷ pending) applied d h =
      drain_nothing commits pending _ d.1
        (λ j e. ground (arith, h j, ap (λ (x : ℕ). lookup x pending) {x = t} {y = j}))
      ∙ elim (Bool-cases (ltb last_checkpoint_tx t && contains t commits)) [
        | inl late ↦
            let none_left : us ≡ [] = rw (==_refl t) at (h t late) in
            rw late
              (ap (λ (xs : List PageUpdate). applied ++ for_tx t xs) none_left ∙ append-nil applied)
        | inr early ↦ rw early refl
      ]

  pub new-Tracks : (tx_id : ℕ) → Tracks new_replay tx_id false []
  new-Tracks tx_id = record {
    commits_right = refl;
    applied_right = ground arith;
    pending_right = ground (arith, lookup-empty {V = List PageUpdate} tx_id);
  }

  abbrev seen : List WalRecord → Replay
  seen records = replay_loop last_checkpoint_tx new_replay records

  pub seen-Tracks :
      (records : List WalRecord) (tx_id : ℕ)
      → Tracks (seen records) tx_id (is_committed tx_id records || false) (updates_of tx_id records)
  seen-Tracks records tx_id =
      replay_loop-Tracks new_replay tx_id false [] records (new-Tracks tx_id)

  -- Nothing that must be applied is pending when the log ends: the drain after the loop applies nothing.
  pub drain_applies_nothing :
      (records : List WalRecord)
      → (replay last_checkpoint_tx records).applied
        ≡ (replay_loop last_checkpoint_tx new_replay records).applied
  unfolding replay
  drain_applies_nothing records =
      drain_nothing (seen records).commits (seen records).pending (seen records).applied
        (replay_loop-Distinct new_replay records tt)
        (λ t e.
          ground
            (arith, (seen-Tracks records t).commits_right, (seen-Tracks records t).pending_right))

  -- Recovery applies, for each transaction, all its updates in the log's order when the transaction is
  -- committed in the log and its id is above the checkpoint's, wherever its commit record stands;
  -- otherwise it applies none of them.
  pub replay-of_tx :
      (records : List WalRecord) (tx_id : ℕ)
      → of_tx tx_id (replay last_checkpoint_tx records).applied ≡ (
          if ltb last_checkpoint_tx tx_id && is_committed tx_id records
          then updates_of tx_id records
          else [])
  replay-of_tx records tx_id = ground (
    arith,
    ap (of_tx tx_id) (drain_applies_nothing records),
    (seen-Tracks records tx_id).applied_right,
  )
