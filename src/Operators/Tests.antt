-- ===== src/Operators/Tests.antt =====
-- The theorems about operators, over a child that hands out the chunks of a list.
use lightning_db.Prelude.{ℕ, refl, List, [], ◌∷◌, arith}
use lightning_db.Operators.{chunk, finished, GetNext, Yields, ends, gives}
use lightning_db.Operators.LimitSkip.{limit_next, skip_next, page-Yields}

abbrev source_next : GetNext (List (List ℕ)) ℕ ℕ
source_next [] = ([], finished)
source_next (c ∷ cs) = (cs, chunk c)

abbrev three_chunks : List (List ℕ)
three_chunks = (1 ∷ 2 ∷ []) ∷ [] ∷ (3 ∷ 4 ∷ 5 ∷ []) ∷ []

abbrev five_rows : List ℕ
five_rows = 1 ∷ 2 ∷ 3 ∷ 4 ∷ 5 ∷ []

abbrev source-Yields : Yields source_next three_chunks five_rows
source-Yields =
    gives (1 ∷ 2 ∷ []) (3 ∷ 4 ∷ 5 ∷ []) refl
      (gives [] (3 ∷ 4 ∷ 5 ∷ []) refl (gives (3 ∷ 4 ∷ 5 ∷ []) [] refl (ends refl refl) refl) refl)
      refl

page-Yields_example :
    Yields
      (limit_next (skip_next source_next 9))
      (record {
        child = record { child = three_chunks; count = 0; skip = 1 };
        count = 0;
        limit = 3;
      })
      (2 ∷ 3 ∷ 4 ∷ [])
page-Yields_example =
    page-Yields source_next three_chunks five_rows source-Yields 9 1 3 (omega arith) (omega arith)
