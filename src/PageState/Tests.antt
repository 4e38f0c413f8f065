-- ===== src/PageState/Tests.antt =====
-- Runs of the page state, and the theorems about it at concrete words.
use lightning_db.Prelude.{ℕ, ◌+◌, ◌*◌, ◌^◌, ◌<◌, ◌≡◌, refl, List, [], ◌∷◌, arith, All}
use lightning_db.PageState.{new, try_lock, unlock, clear_referenced, set_dirty}
use lightning_db.PageState.Fields.{view}
use lightning_db.PageState.Locking.{
  Op, try_locks, unlocks, set_dirties, clear_references, IsWord, apply, run, run_fields, run-view,
}

abbrev first_word : ℕ
first_word = 3 * 2 ^ 56

-- A thread locks, another fails to, the dirty bit is set, and the first thread unlocks.
abbrev two_threads : List Op
two_threads =
    try_locks first_word ∷ try_locks first_word ∷ set_dirties ∷ unlocks ∷ clear_references ∷ []

two_threads-words : All IsWord two_threads
two_threads-words = omega arith

first_word_lem : new ≡ first_word
unfolding new
first_word_lem = refl

two_threads-end : run first_word two_threads ≡ 2 ^ 63 + 1
unfolding run apply try_lock unlock clear_referenced set_dirty
two_threads-end = refl

run-view_example :
    (run first_word two_threads < 2 ^ 64)
    × (view (run first_word two_threads) ≡ run_fields (view first_word) two_threads)
run-view_example = run-view first_word two_threads (omega arith) two_threads-words
