-- ===== src/Operators.antt =====
-- The pull interface of crates/lightning-core/src/processor (trait `PhysicalOperator`): an operator is
-- asked for one chunk of rows after another, and keeps a state between the calls. What an operator
-- yields is stated without its state, so the theorems about operators compose.
pub mod LimitSkip
mod Tests
use lightning_db.Prelude.{ℕ, suc, ◌≡◌, List, [], ◌∷◌, ◌++◌}

-- `Ok(Some(chunk))`, `Ok(None)` and `Err(e)`; `looping` is a loop that ran out of its fuel.
pub data Answer (A E : Type 0) : Type 0 where
  chunk : List A → Answer A E
  finished : Answer A E
  failed : E → Answer A E
  looping : Answer A E

-- `get_next` of an operator with state `S`.
abbrev pub GetNext : Type 0 → Type 0 → Type 0 → Type 0
GetNext S A E = S → S × Answer A E

-- The calls on the state answer with the rows, chunk by chunk, and then with the end.
pub data Yields {S A E : Type 0} (get_next : GetNext S A E) : S → List A → Type 0 where
  ends :
      {s s' : S} {rows : List A}
      → get_next s ≡ (s', Answer.finished)
      → rows ≡ []
      → Yields get_next s rows
  gives :
      {s s' : S} {rows : List A} (c rest : List A)
      → get_next s ≡ (s', Answer.chunk c)
      → Yields get_next s' rest
      → rows ≡ c ++ rest
      → Yields get_next s rows

-- The chunks of such a sequence.
abbrev pub chunks :
    {S A E : Type 0} {get_next : GetNext S A E} {s : S} {rows : List A} → Yields get_next s rows → ℕ
chunks (ends e r) = 0
chunks (gives c rest e y r) = suc (chunks y)
