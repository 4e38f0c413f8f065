-- ===== src/Wal/Tests.antt =====
-- Recovery from a small log, and the theorems about it at that log.
use lightning_db.Prelude.{ℕ, ◌≡◌, refl, List, [], ◌∷◌, ltb, ◌&&◌, if◌then◌else◌}
use lightning_db.Prelude.HashMap.{lookup, insert, remove}
use lightning_db.Wal.{PageUpdate, WalRecord, page_update, commit, replay, replay_record}
use lightning_db.Wal.Recovery.{updates_of, is_committed, of_tx, replay-of_tx}
use lightning_db.Wal.Order.{in_commit_order, replay-in_commit_order}

abbrev page : ℕ → ℕ → PageUpdate
page page_idx byte = record { file_id = 1; page_idx = page_idx; page_data = byte ∷ [] }

-- Transactions 4 and 5 interleave and commit, 6 does not commit, and 2 is below the checkpoint.
abbrev small_log : List WalRecord
small_log =
    page_update 4 (page 0 1)
    ∷ page_update 5 (page 0 2)
    ∷ page_update 2 (page 3 9)
    ∷ commit 5
    ∷ page_update 6 (page 1 7)
    ∷ page_update 4 (page 1 3)
    ∷ commit 4
    ∷ commit 2
    ∷ []

small_log-applied :
    (replay 3 small_log).applied ≡ (5, page 0 2) ∷ (4, page 0 1) ∷ (4, page 1 3) ∷ []
unfolding replay replay_record lookup insert remove
small_log-applied = refl

replay-of_tx_example :
    of_tx 2 (replay 3 small_log).applied
    ≡ (if ltb 3 2 && is_committed 2 small_log then updates_of 2 small_log else [])
replay-of_tx_example = replay-of_tx 3 small_log 2

replay-in_commit_order_example : (replay 3 small_log).applied ≡ in_commit_order 3 [] small_log
replay-in_commit_order_example =
    replay-in_commit_order 3 small_log
      (refl, (refl, (refl, (refl, (refl, (refl, (refl, (refl, tt))))))))
