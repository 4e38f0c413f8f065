-- ===== src/RowVersion/Tests.antt =====
-- Runs of the row version table, and the theorems about it at concrete states.
use lightning_db.Prelude.{◌≡◌, refl, true, false, some, List, [], ◌∷◌, map, arith, ok, err}
use lightning_db.Prelude.HashMap.{lookup, insert, remove}
use lightning_db.RowVersion.{
  RowVersion, CommittedVersion, Conflict, committed_at, new, shard_idx, mark_row, commit_row,
  is_visible, visible, touch, vacuum,
}
use lightning_db.RowVersion.Mask.{get_visibility_mask}
use lightning_db.RowVersion.Mask.Agrees.{get_visibility_mask-eq_map}
use lightning_db.RowVersion.Shards.{
  IsValid, active, history, marked, new-IsValid, commit_row-IsValid, marked-IsValid,
}
use lightning_db.RowVersion.Vacuum.{refusal, vacuum-is_visible, vacuum-mark_row, vacuum_hides}
use lightning_db.RowVersion.Conflicts.{mark_row_accepts}
use lightning_db.RowVersion.Run.{Op, run, marks, commits, rollbacks, vacuums}
use lightning_db.RowVersion.Isolation.{no_lost_update, snapshot_stable}

-- Row 7 was committed at 5, row 8 at 9; then transaction 4 changes row 7.
abbrev settled : RowVersion
settled = commit_row (commit_row new 7 5) 8 9

settled-IsValid : IsValid settled
settled-IsValid = commit_row-IsValid _ (commit_row-IsValid new new-IsValid 7 5) 8 9

abbrev contended : RowVersion
contended = marked settled settled-IsValid 7 4

contended-IsValid : IsValid contended
contended-IsValid = marked-IsValid settled settled-IsValid 7 4

abbrev first_five : CommittedVersion
first_five = record { first_ts = 5; last_ts = 5 }

contended-history : history contended 7 ≡ some first_five
unfolding commit_row touch new shard_idx lookup insert remove
contended-history = refl

contended-active : active contended 7 ≡ some 4
unfolding commit_row new shard_idx lookup insert remove
contended-active = refl

snapshots_differ :
    (is_visible settled 8 1 6 ≡ false)
    × (is_visible settled 7 1 6 ≡ true)
    × (is_visible settled 9 1 6 ≡ true)
unfolding is_visible visible commit_row touch new shard_idx lookup insert remove
snapshots_differ = (refl, refl, refl)

conflict_of_snapshot : refusal (mark_row settled 8 1 6) ≡ some (committed_at 9)
unfolding mark_row commit_row touch new shard_idx lookup insert remove
conflict_of_snapshot = refl

get_visibility_mask-eq_map_example :
    get_visibility_mask contended (8 ∷ 7 ∷ []) 1 6 (true ∷ [])
    ≡ map (λ row_id. is_visible contended row_id 1 6) (8 ∷ 7 ∷ [])
get_visibility_mask-eq_map_example =
    get_visibility_mask-eq_map contended contended-IsValid (8 ∷ 7 ∷ []) 1 6 (true ∷ [])

mark_row_accepts_example : mark_row settled 7 4 6 ≡ ok contended
unfolding commit_row touch new shard_idx lookup insert remove
mark_row_accepts_example =
    (mark_row_accepts settled settled-IsValid 7 4 6 contended).1 (tt, omega arith, refl)

vacuum-is_visible_example : is_visible (vacuum contended 6).0 8 1 7 ≡ is_visible contended 8 1 7
unfolding commit_row touch new shard_idx lookup insert remove
vacuum-is_visible_example =
    vacuum-is_visible contended contended-IsValid 8 1 7 6 (omega arith) (omega arith) tt

vacuum-mark_row_example :
    refusal (mark_row (vacuum contended 6).0 8 1 7) ≡ refusal (mark_row contended 8 1 7)
vacuum-mark_row_example = vacuum-mark_row contended contended-IsValid 8 1 7 6 (omega arith)

vacuum_hides_example :
    (is_visible contended 7 1 6 ≡ true) × (is_visible (vacuum contended 6).0 7 1 6 ≡ false)
vacuum_hides_example =
    vacuum_hides contended contended-IsValid 7 1 6 6 (omega arith) 4 first_five contended-active
      (λ e. absurd (omega arith)) contended-history (omega arith) (omega arith)

abbrev interleaved : List Op
interleaved = marks 7 4 6 ∷ vacuums 6 ∷ commits 7 12 ∷ rollbacks 8 ∷ []

no_lost_update_example :
    (c : Conflict) × (mark_row (run (commit_row settled 7 10) interleaved) 7 1 6 ≡ err c)
no_lost_update_example =
    no_lost_update settled interleaved 7 1 6 10 settled-IsValid (omega arith) (omega arith)

snapshot_stable_example :
    is_visible (run contended (commits 7 12 ∷ marks 7 5 12 ∷ rollbacks 7 ∷ [])) 7 1 6 ≡ true
snapshot_stable_example =
    snapshot_stable contended (commits 7 12 ∷ marks 7 5 12 ∷ rollbacks 7 ∷ []) 7 1 6 first_five
      contended-IsValid contended-history (rw contended-active (λ e. absurd (omega arith)))
      (omega arith)
