-- ===== src/Prelude/HashMap.antt =====
-- Rust's `HashMap` with `u64` keys, as an association list. `Distinct` is what the type promises:
-- no key stands twice. The order of the entries is not observed by the code that is modelled.
use mathlib.Core.Path.{◌≡◌, refl}
use mathlib.Core.Option.{Option, none, some}
use mathlib.Core.List.{List, [], ◌∷◌}
use native.Mathlib.Omega.{arith}
use Prim.Native.Nat.{ℕ, ◌≤◌}
use lightning_db.Prelude.Tests.{◌==◌, if◌then◌else◌}
use lightning_db.Prelude.Lists.{length}

abbrev pub HashMap {ℓ} : Type ℓ → Type ℓ
HashMap V = List (ℕ × V)

module _ {ℓ} {V : Type ℓ} where
  -- m.get(&k)
  unfoldable pub lookup : ℕ → HashMap V → Option V
  lookup k [] = none
  lookup k ((j, v) ∷ m) = if j == k then some v else lookup k m

  -- m.remove(&k)
  unfoldable pub remove : ℕ → HashMap V → HashMap V
  remove k [] = []
  remove k ((j, v) ∷ m) = let rest = remove k m in if j == k then rest else (j, v) ∷ rest

  -- m.insert(k, v)
  unfoldable pub insert : ℕ → V → HashMap V → HashMap V
  unfolding remove
  insert k v m = (k, v) ∷ remove k m

  abbrev keep_entry : ℕ → Option V → HashMap V → HashMap V
  keep_entry k none m = m
  keep_entry k (some v) m = (k, v) ∷ m

  -- m.retain(f), where the closure drops a value (`none`) or puts another in its place
  unfoldable pub retain : (V → Option V) → HashMap V → HashMap V
  retain f [] = []
  retain f ((j, v) ∷ m) = keep_entry j (f v) (retain f m)

  abbrev pub Distinct : HashMap V → Type ℓ
  Distinct [] = Unit
  Distinct ((k, v) ∷ m) = (lookup k m ≡ none) × Distinct m

  pub lookup-remove :
      (k j : ℕ) (m : HashMap V) → lookup j (remove k m) ≡ (if k == j then none else lookup j m)
  unfolding lookup remove
  lookup-remove k j [] = ground arith
  lookup-remove k j ((i, v) ∷ m) = ground (arith, lookup-remove k j m)

  pub lookup-insert :
      (k j : ℕ) (v : V) (m : HashMap V)
      → lookup j (insert k v m) ≡ (if k == j then some v else lookup j m)
  unfolding lookup insert
  lookup-insert k j v m = ground (arith, lookup-remove k j m)

  pub remove-Distinct : (k : ℕ) (m : HashMap V) → Distinct m → Distinct (remove k m)
  unfolding remove
  remove-Distinct k [] d = tt
  remove-Distinct k ((i, v) ∷ m) d = ground (arith, remove-Distinct k m d.1, lookup-remove k i m)

  pub insert-Distinct : (k : ℕ) (v : V) (m : HashMap V) → Distinct m → Distinct (insert k v m)
  unfolding insert
  insert-Distinct k v m d = ground (arith, remove-Distinct k m d, lookup-remove k k m)

  abbrev pub and_then : Option V → (V → Option V) → Option V
  and_then none f = none
  and_then (some v) f = f v

  lookup-retain-none :
      (f : V → Option V) (k : ℕ) (m : HashMap V) → lookup k m ≡ none → lookup k (retain f m) ≡ none
  unfolding lookup retain
  lookup-retain-none f k [] h = refl
  lookup-retain-none f k ((i, v) ∷ m) h = ground (arith, lookup-retain-none f k m)

  pub retain-Distinct : (f : V → Option V) (m : HashMap V) → Distinct m → Distinct (retain f m)
  unfolding lookup retain
  retain-Distinct f [] d = tt
  retain-Distinct f ((i, v) ∷ m) d =
      ground (arith, retain-Distinct f m d.1, lookup-retain-none f i m d.0)

  pub lookup-retain :
      (f : V → Option V) (k : ℕ) (m : HashMap V)
      → Distinct m
      → lookup k (retain f m) ≡ and_then (lookup k m) f
  unfolding lookup retain
  lookup-retain f k [] d = refl
  lookup-retain f k ((i, v) ∷ m) d =
      ground (arith, lookup-retain f k m d.1, lookup-retain-none f k m)

  pub length-retain-le : (f : V → Option V) (m : HashMap V) → length (retain f m) ≤ length m
  unfolding retain
  length-retain-le f [] = omega arith
  length-retain-le f ((i, v) ∷ m) = ground (arith, length-retain-le f m)

pub lookup-empty {ℓ} : {V : Type ℓ} (k : ℕ) → lookup {V = V} k [] ≡ none
unfolding lookup
lookup-empty k = refl
