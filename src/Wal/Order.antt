-- ===== src/Wal/Order.antt =====
-- crates/lightning-core/src/storage/wal.rs, `replay`: the order in which recovery applies updates.
use lightning_db.Prelude.{
  ℕ, ◌≡◌, refl, ap, ◌∙◌, sym, subst, false, Option, none, some, List, [], ◌∷◌, ◌++◌, arith, ltb,
  ◌==◌, if◌then◌else◌, contains, Bool-cases, inl, inr,
}
use mathlib.Core.List.{append_assoc, append-nil}
use lightning_db.Prelude.HashMap.{lookup}
use lightning_db.Wal.{
  PageUpdate, WalRecord, page_update, commit, Replay, new_replay, updates_or_empty, for_tx,
  add_commit, release, handle_page_update, handle_commit, replay_record, replay_loop, replay,
  count_record,
}
use lightning_db.Wal.Recovery.{
  updates_of, Tracks, count_record-Tracks, handle_page_update-Tracks, handle_commit-Tracks,
  new-Tracks, drain_applies_nothing,
}

-- The log as the engine writes it: no update of a transaction after its commit, and one commit each.
abbrev pub IsOrdered : List ℕ → List WalRecord → Type 0
IsOrdered committed [] = Unit
IsOrdered committed (page_update t u ∷ records) =
    (contains t committed ≡ false) × IsOrdered committed records
IsOrdered committed (commit t ∷ records) =
    (contains t committed ≡ false) × IsOrdered (t ∷ committed) records

module _ (last_checkpoint_tx : ℕ) where
  -- Commit by commit, the updates that stand before the commit.
  abbrev pub in_commit_order : List WalRecord → List WalRecord → List (ℕ × PageUpdate)
  in_commit_order before [] = []
  in_commit_order before (page_update t u ∷ records) =
      in_commit_order (before ++ page_update t u ∷ []) records
  in_commit_order before (commit t ∷ records) =
      (if ltb last_checkpoint_tx t then for_tx t (updates_of t before) else [])
      ++ in_commit_order (before ++ commit t ∷ []) records

  release_applied :
      (r : Replay) (t : ℕ) (o : Option (List PageUpdate))
      → (release last_checkpoint_tx r t o).applied ≡ r.applied ++ for_tx t (updates_or_empty o)
  release_applied r t none = sym (append-nil r.applied)
  release_applied r t (some us) = refl

  handle_commit_applied :
      (r : Replay) (t : ℕ) (updates : List PageUpdate)
      → Tracks last_checkpoint_tx r t false updates
      → (handle_commit last_checkpoint_tx r t).applied
        ≡ r.applied ++ (if ltb last_checkpoint_tx t then for_tx t updates else [])
  unfolding handle_commit
  handle_commit_applied r t updates k = elim (Bool-cases (ltb last_checkpoint_tx t)) [
    | inl late ↦ rw late (
        release_applied (record r { commits = add_commit t r.commits }) t (lookup t r.pending)
        ∙ ap (λ (us : List PageUpdate). r.applied ++ for_tx t us) (ground (arith, k.pending_right)))
    | inr early ↦ rw early (sym (append-nil r.applied))
  ]

  updates_of-snoc :
      (j : ℕ) (before : List WalRecord) (t : ℕ) (u : PageUpdate)
      → updates_of j (before ++ page_update t u ∷ [])
        ≡ (if t == j then updates_of j before ++ u ∷ [] else updates_of j before)
  updates_of-snoc j [] t u = ground arith
  updates_of-snoc j (page_update t' u' ∷ before) t u = ground (arith, updates_of-snoc j before t u)
  updates_of-snoc j (commit t' ∷ before) t u = updates_of-snoc j before t u

  updates_of-snoc_commit :
      (j : ℕ) (before : List WalRecord) (t : ℕ)
      → updates_of j (before ++ commit t ∷ []) ≡ updates_of j before
  updates_of-snoc_commit j [] t = refl
  updates_of-snoc_commit j (page_update t' u' ∷ before) t =
      ground (arith, updates_of-snoc_commit j before t)
  updates_of-snoc_commit j (commit t' ∷ before) t = updates_of-snoc_commit j before t

  abbrev TracksAll : Replay → List ℕ → List WalRecord → Type 0
  TracksAll r committed before =
      (j : ℕ) → Tracks last_checkpoint_tx r j (contains j committed) (updates_of j before)

  page_update_applied :
      (r : Replay) (t : ℕ) (u : PageUpdate)
      → contains t r.commits ≡ false
      → (handle_page_update last_checkpoint_tx (count_record last_checkpoint_tx t r) t u).applied
        ≡ r.applied
  unfolding handle_page_update
  page_update_applied r t u e = rw e refl

  replay_loop_applied :
      (r : Replay) (committed : List ℕ) (before records : List WalRecord)
      → TracksAll r committed before
      → IsOrdered committed records
      → (replay_loop last_checkpoint_tx r records).applied
        ≡ r.applied ++ in_commit_order before records
  unfolding replay_loop replay_record
  replay_loop_applied r committed before [] k o = sym (append-nil r.applied)
  replay_loop_applied r committed before (page_update t u ∷ records) k o =
      let c : Replay = count_record last_checkpoint_tx t r in
      let r' : Replay = handle_page_update last_checkpoint_tx c t u in
      let before' : List WalRecord = before ++ page_update t u ∷ [] in
      let k' : TracksAll r' committed before' = λ j.
        subst (Tracks last_checkpoint_tx r' j (contains j committed))
          (sym (updates_of-snoc j before t u))
          (handle_page_update-Tracks last_checkpoint_tx c j t u (contains j committed)
            (updates_of j before)
            (count_record-Tracks last_checkpoint_tx r j t (contains j committed)
              (updates_of j before) (k j))) in
      replay_loop_applied r' committed before' records k' o.1
      ∙ ap (λ (xs : List (ℕ × PageUpdate)). xs ++ in_commit_order before' records)
          (page_update_applied r t u ((k t).commits_right ∙ o.0))
  replay_loop_applied r committed before (commit t ∷ records) k o =
      let c : Replay = count_record last_checkpoint_tx t r in
      let r' : Replay = handle_commit last_checkpoint_tx c t in
      let before' : List WalRecord = before ++ commit t ∷ [] in
      let kc : TracksAll c committed before = λ j.
        count_record-Tracks last_checkpoint_tx r j t (contains j committed) (updates_of j before)
          (k j) in
      let k' : TracksAll r' (t ∷ committed) before' = λ j.
        subst (Tracks last_checkpoint_tx r' j (contains j (t ∷ committed)))
          (sym (updates_of-snoc_commit j before t))
          (handle_commit-Tracks last_checkpoint_tx c j t (contains j committed)
            (updates_of j before) (kc j)) in
      replay_loop_applied r' (t ∷ committed) before' records k' o.1
      ∙ ap (λ (xs : List (ℕ × PageUpdate)). xs ++ in_commit_order before' records)
          (handle_commit_applied c t (updates_of t before)
            (subst (λ b. Tracks last_checkpoint_tx c t b (updates_of t before)) o.0 (kc t)))
      ∙ append_assoc r.applied _ _

  -- Over a log in which no transaction has an update or a second commit after its commit, recovery
  -- applies the updates of the committed transactions above the checkpoint in the order of the commits,
  -- and those of one transaction in the log's order.
  pub replay-in_commit_order :
      (records : List WalRecord)
      → IsOrdered [] records
      → (replay last_checkpoint_tx records).applied ≡ in_commit_order [] records
  replay-in_commit_order records o =
      drain_applies_nothing last_checkpoint_tx records
      ∙ replay_loop_applied new_replay [] [] records (new-Tracks last_checkpoint_tx) o
