-- ===== src/TokenCache/Tests.antt =====
-- The answers of the token cache, over a hash function for tests.
use lightning_db.Prelude.{ℕ, ◌*◌, ◌+◌, ◌≡◌, refl, List, [], ◌∷◌, if◌then◌else◌, contains}
use lightning_db.TokenCache.{revoked, maybe_valid, new, check}
use lightning_db.TokenCache.Answers.{Call, inserts, revokes, rebuilds, revocations, run, check-run}

abbrev four_words : ℕ → List ℕ
four_words item =
    (item * 7_919 + 1) ∷ (item * 104_729 + 2) ∷ (item * 1_299_709 + 3) ∷ (item + 4) ∷ []

abbrev calls : List Call
calls = inserts 5 ∷ rebuilds (7 ∷ 8 ∷ []) (8 ∷ []) ∷ inserts 9 ∷ revokes 9 ∷ []

check-run_example :
    check four_words (run four_words new calls) 8
    ≡ (if contains 8 (revocations [] calls) then revoked else maybe_valid)
check-run_example = check-run four_words calls 8 refl
