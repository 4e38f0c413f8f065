-- ===== src/FreeSpace/Tests.antt =====
-- The theorems about the free pages at a small manager, with a serializer for tests.
use lightning_db.Prelude.{ℕ, ◌≡◌, refl, none, some, List, [], ◌∷◌, ◌++◌, Result, ok, err}
use lightning_db.Prelude.HashMap.{HashMap, lookup, insert}
use lightning_db.FreeSpace.{Disk, Error, database, record_free_page, get_free_page, new}
use lightning_db.FreeSpace.Queues.{Use, frees, takes, queue, after, freed, taken, taken-queue}

abbrev uses : List Use
uses = frees 1 10 ∷ frees 2 7 ∷ frees 1 20 ∷ takes 1 ∷ takes 3 ∷ frees 1 30 ∷ takes 1 ∷ []

taken_in_order : taken 1 new uses ≡ 10 ∷ 20 ∷ []
unfolding taken record_free_page get_free_page lookup insert
taken_in_order = refl

taken-queue_example : taken 1 new uses ++ queue (after new uses) 1 ≡ queue new 1 ++ freed 1 uses
taken-queue_example = taken-queue 1 new uses

-- It can write the empty map only.
abbrev write_empty : HashMap (List ℕ) → Result Error (List ℕ)
write_empty [] = ok (0 ∷ [])
write_empty (entry ∷ m) = err database

abbrev read_empty : List ℕ → Result Error (HashMap (List ℕ))
read_empty buf = ok []

write_empty-read_empty :
    (m : HashMap (List ℕ)) (buf : List ℕ) → write_empty m ≡ ok buf → read_empty buf ≡ ok m
write_empty-read_empty [] buf e = refl
write_empty-read_empty (entry ∷ m) buf e = absurd (cc)

abbrev stale : Disk
stale = record { file = some (9 ∷ []); tmp_file = none }
