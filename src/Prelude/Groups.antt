-- ===== src/Prelude/Groups.antt =====
-- Elements grouped by a key, a group for each index, as the batch operations of the sharded tables
-- do: `group` starts from empty groups and pushes each element to the end of its group.
use Prim.Native.Nat.{ℕ, ◌+◌, ◌-◌, ◌≤◌, ◌<◌}
use mathlib.Core.Path.{◌≡◌, refl, sym, ◌∙◌}
use mathlib.Core.List.{List, [], ◌∷◌, ◌++◌, append-nil, append_assoc}
use native.Mathlib.Omega.{arith}
use lightning_db.Prelude.Tests.{◌==◌, leb, if◌then◌else◌}
use lightning_db.Prelude.Lists.{
  length, get_or, set, filter, All, length-set, get_or-set, is_empty, get_or-cons, replicate,
  get_or-replicate, length-replicate, ext_get_or,
}

module _ {ℓ} {A : Type ℓ} (key : A → ℕ) where
  -- groups[key(a)].push(a)
  abbrev pub push_to : List (List A) → A → List (List A)
  push_to groups a = set groups (key a) (get_or groups (key a) [] ++ a ∷ [])

  unfoldable pub group : List (List A) → List A → List (List A)
  group groups [] = groups
  group groups (a ∷ xs) = group (push_to groups a) xs

  pub length-group :
      (groups : List (List A)) (xs : List A) → length (group groups xs) ≡ length groups
  unfolding group
  length-group groups [] = refl
  length-group groups (a ∷ xs) = length-group (push_to groups a) xs ∙ length-set groups _ _

  -- Group `k` has the elements with the key `k`, in their order.
  pub get_or-group :
      (n : ℕ) (groups : List (List A)) (xs : List A) (k : ℕ)
      → length groups ≡ n
      → All (λ a. key a < n) xs
      → get_or (group groups xs) k [] ≡ get_or groups k [] ++ filter (λ a. key a == k) xs
  unfolding group
  get_or-group n groups [] k l h = sym (append-nil _)
  get_or-group n groups (a ∷ xs) k l h = ground (
    arith,
    get_or-group n (push_to groups a) xs k (length-set groups _ _ ∙ l) h.1,
    get_or-set groups (key a) k (get_or groups (key a) [] ++ a ∷ []) [],
    append_assoc (get_or groups k []) (a ∷ []) (filter (λ a. key a == k) xs),
  )

-- The table of the shards, `S`, by index; `s₀` stands for what an index out of range would read.
module _ {A S : Type 0} (s₀ : S) (f : A → S → S) where
  -- for a in xs { f(a, s) }
  unfoldable pub fold_in : List A → S → S
  fold_in [] s = s
  fold_in (a ∷ xs) s = fold_in xs (f a s)

  -- for (i, g) in groups.enumerate() { if g.is_empty() { continue } for a in g { f(a, shards[i]) } }
  unfoldable pub for_groups : ℕ → List (List A) → List S → List S
  unfolding fold_in
  for_groups i [] shards = shards
  for_groups i (g ∷ groups) shards =
      for_groups (i + 1) groups
        (if is_empty g then shards else set shards i (fold_in g (get_or shards i s₀)))

  length-step :
      (g : List A) (i : ℕ) (shards : List S)
      → length (if is_empty g then shards else set shards i (fold_in g (get_or shards i s₀)))
        ≡ length shards
  length-step [] i shards = refl
  length-step (a ∷ g) i shards = length-set shards i _

  pub length-for_groups :
      (i : ℕ) (groups : List (List A)) (shards : List S)
      → length (for_groups i groups shards) ≡ length shards
  unfolding for_groups
  length-for_groups i [] shards = refl
  length-for_groups i (g ∷ groups) shards =
      length-for_groups (i + 1) groups _ ∙ length-step g i shards

  step_at :
      (g : List A) (i k : ℕ) (shards : List S)
      → i < length shards
      → get_or (if is_empty g then shards else set shards i (fold_in g (get_or shards i s₀))) k s₀
        ≡ (if i == k then fold_in g (get_or shards k s₀) else get_or shards k s₀)
  unfolding fold_in
  step_at [] i k shards h = ground arith
  step_at (a ∷ g) i k shards h =
      ground (arith, get_or-set shards i k (fold_in (a ∷ g) (get_or shards i s₀)) s₀ h)

  get_or-for_groups :
      (i n k : ℕ) (groups : List (List A)) (shards : List S)
      → length shards ≡ n
      → i + length groups ≤ n
      → get_or (for_groups i groups shards) k s₀ ≡ (
          if leb i k
          then fold_in (get_or groups (k - i) []) (get_or shards k s₀)
          else get_or shards k s₀)
  unfolding for_groups
  get_or-for_groups i n k [] shards l h = ground arith
  get_or-for_groups i n k (g ∷ groups) shards l h =
      let next : List S =
        if is_empty g then shards else set shards i (fold_in g (get_or shards i s₀)) in
      ground (
        arith,
        get_or-cons g groups (k - i) [],
        step_at g i k shards (omega arith),
        get_or-for_groups (i + 1) n k groups next (length-step g i shards ∙ l) (omega arith),
      )

  -- for a in xs { f(a, shards[key(a)]) }
  module _ (key : A → ℕ) where
    unfoldable pub each : List A → List S → List S
    each [] shards = shards
    each (a ∷ xs) shards = each xs (set shards (key a) (f a (get_or shards (key a) s₀)))

    pub length-each : (xs : List A) (shards : List S) → length (each xs shards) ≡ length shards
    unfolding each
    length-each [] shards = refl
    length-each (a ∷ xs) shards = length-each xs _ ∙ length-set shards _ _

    get_or-each :
        (n k : ℕ) (xs : List A) (shards : List S)
        → length shards ≡ n
        → All (λ a. key a < n) xs
        → get_or (each xs shards) k s₀ ≡ fold_in (filter (λ a. key a == k) xs) (get_or shards k s₀)
    unfolding each fold_in
    get_or-each n k [] shards l h = refl
    get_or-each n k (a ∷ xs) shards l h = ground (
      arith,
      get_or-set shards (key a) k (f a (get_or shards (key a) s₀)) s₀,
      get_or-each n k xs (set shards (key a) (f a (get_or shards (key a) s₀)))
          (length-set shards _ _ ∙ l) h.1,
    )

    -- The pass over the groups does what the plain loop over the elements does.
    pub for_groups-group :
        (n : ℕ) (xs : List A) (shards : List S)
        → length shards ≡ n
        → All (λ a. key a < n) xs
        → for_groups 0 (group key (replicate n []) xs) shards ≡ each xs shards
    for_groups-group n xs shards l h =
        ext_get_or s₀ _ _ (length-for_groups 0 _ shards ∙ sym (length-each xs shards)) λ k _.
          ground (
            arith,
            get_or-for_groups 0 n k (group key (replicate n []) xs) shards l (
                omega (
                  arith,
                  length-group key (replicate n []) xs,
                  length-replicate {A = List A} n [],
                )),
            get_or-group key n (replicate n []) xs k (length-replicate n []) h,
            get_or-replicate {A = List A} n k [],
            get_or-each n k xs shards l h,
          )
