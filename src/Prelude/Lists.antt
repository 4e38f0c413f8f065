-- ===== src/Prelude/Lists.antt =====
-- Lists measured and indexed by native numbers, under the library's names, and predicates on lists.
use Prim.Native.Nat.{ℕ, zero, suc, ◌+◌, ◌-◌, ◌≤◌, ◌<◌, min}
use mathlib.Core.Path.{◌≡◌, refl, ap, ap₂, ◌∙◌}
use mathlib.Core.Bool.{Bool, true, false, ◌&&◌, ◌||◌}
use mathlib.Core.List.{List, [], ◌∷◌, ◌++◌, map}
use native.Mathlib.Omega.{arith}
use lightning_db.Prelude.Tests.{◌==◌, ltb, leb, if◌then◌else◌}

module _ {ℓ} {A : Type ℓ} where
  abbrev pub length : List A → ℕ
  length [] = 0
  length (x ∷ xs) = suc (length xs)

  abbrev pub get_or : List A → ℕ → A → A
  get_or [] i d = d
  get_or (x ∷ xs) zero d = x
  get_or (x ∷ xs) (suc i) d = get_or xs i d

  -- A write out of bounds changes nothing.
  abbrev pub set : List A → ℕ → A → List A
  set [] i v = []
  set (x ∷ xs) zero v = v ∷ xs
  set (x ∷ xs) (suc i) v = x ∷ set xs i v

  abbrev pub take : ℕ → List A → List A
  take zero xs = []
  take (suc n) [] = []
  take (suc n) (x ∷ xs) = x ∷ take n xs

  abbrev pub drop : ℕ → List A → List A
  drop zero xs = xs
  drop (suc n) [] = []
  drop (suc n) (x ∷ xs) = drop n xs

  abbrev pub replicate : ℕ → A → List A
  replicate zero a = []
  replicate (suc n) a = a ∷ replicate n a

  -- The library's `filter`, with a Boolean test.
  abbrev pub filter : (A → Bool) → List A → List A
  filter p [] = []
  filter p (x ∷ xs) = if p x then x ∷ filter p xs else filter p xs

  abbrev pub is_empty : List A → Bool
  is_empty [] = true
  is_empty (x ∷ xs) = false

  pub length-append : (xs ys : List A) → length (xs ++ ys) ≡ length xs + length ys
  length-append [] ys = omega arith
  length-append (x ∷ xs) ys = omega (arith, length-append xs ys)

  pub length-set : (xs : List A) (i : ℕ) (v : A) → length (set xs i v) ≡ length xs
  length-set [] i v = refl
  length-set (x ∷ xs) zero v = refl
  length-set (x ∷ xs) (suc i) v = ap suc (length-set xs i v)

  pub length-replicate : (n : ℕ) (a : A) → length (replicate n a) ≡ n
  length-replicate zero a = refl
  length-replicate (suc n) a = ap suc (length-replicate n a)

  pub length-take : (n : ℕ) (xs : List A) → length (take n xs) ≡ min n (length xs)
  length-take zero xs = omega arith
  length-take (suc n) [] = omega arith
  length-take (suc n) (x ∷ xs) = omega (arith, length-take n xs)

  pub length-drop : (n : ℕ) (xs : List A) → length (drop n xs) ≡ length xs - n
  length-drop zero xs = omega arith
  length-drop (suc n) [] = omega arith
  length-drop (suc n) (x ∷ xs) = omega (arith, length-drop n xs)

  pub take_all : (n : ℕ) (xs : List A) → length xs ≤ n → take n xs ≡ xs
  take_all zero [] h = refl
  take_all zero (x ∷ xs) h = absurd (omega arith)
  take_all (suc n) [] h = refl
  take_all (suc n) (x ∷ xs) h = ap (◌∷◌ x) (take_all n xs (omega arith))

  pub drop_all : (n : ℕ) (xs : List A) → length xs ≤ n → drop n xs ≡ []
  drop_all zero [] h = refl
  drop_all zero (x ∷ xs) h = absurd (omega arith)
  drop_all (suc n) [] h = refl
  drop_all (suc n) (x ∷ xs) h = drop_all n xs (omega arith)

  pub take-nil : (n : ℕ) → take n [] ≡ []
  take-nil zero = refl
  take-nil (suc n) = refl

  pub drop-nil : (n : ℕ) → drop n [] ≡ []
  drop-nil zero = refl
  drop-nil (suc n) = refl

  pub take_eq : (n m : ℕ) (xs ys : List A) → n ≡ m → xs ++ take n ys ≡ xs ++ take m ys
  take_eq n m xs ys e = ap (λ (k : ℕ). xs ++ take k ys) e

  pub drop_eq : (n m : ℕ) (xs ys : List A) → n ≡ m → xs ++ drop n ys ≡ xs ++ drop m ys
  drop_eq n m xs ys e = ap (λ (k : ℕ). xs ++ drop k ys) e

  pub take-append :
      (n : ℕ) (xs ys : List A) → take n (xs ++ ys) ≡ take n xs ++ take (n - length xs) ys
  take-append zero xs ys = take_eq 0 (0 - length xs) [] ys (omega arith)
  take-append (suc n) [] ys = take_eq (suc n) (suc n - 0) [] ys (omega arith)
  take-append (suc n) (x ∷ xs) ys =
      ap (◌∷◌ x)
        (take-append n xs ys ∙ take_eq (n - length xs) (suc n - suc (length xs)) _ ys (omega arith))

  pub drop-append :
      (n : ℕ) (xs ys : List A) → drop n (xs ++ ys) ≡ drop n xs ++ drop (n - length xs) ys
  drop-append zero xs ys = drop_eq 0 (0 - length xs) xs ys (omega arith)
  drop-append (suc n) [] ys = drop_eq (suc n) (suc n - 0) [] ys (omega arith)
  drop-append (suc n) (x ∷ xs) ys =
      drop-append n xs ys ∙ drop_eq (n - length xs) (suc n - suc (length xs)) _ ys (omega arith)

  -- Reading back: the written place has the value, the others keep theirs.
  pub get_or-set :
      (xs : List A) (i j : ℕ) (v d : A)
      → i < length xs
      → get_or (set xs i v) j d ≡ (if i == j then v else get_or xs j d)
  get_or-set [] i j v d h = elim h [ ]
  get_or-set (x ∷ xs) zero zero v d h = ground arith
  get_or-set (x ∷ xs) zero (suc j) v d h = ground arith
  get_or-set (x ∷ xs) (suc i) zero v d h = ground arith
  get_or-set (x ∷ xs) (suc i) (suc j) v d h = ground (arith, get_or-set xs i j v d)

  pub get_or-beyond : (xs : List A) (i : ℕ) (d : A) → length xs ≤ i → get_or xs i d ≡ d
  get_or-beyond [] i d h = refl
  get_or-beyond (x ∷ xs) zero d h = absurd (omega arith)
  get_or-beyond (x ∷ xs) (suc i) d h = get_or-beyond xs i d (omega arith)

  pub get_or-replicate : (n i : ℕ) (a : A) → get_or (replicate n a) i a ≡ a
  get_or-replicate zero i a = refl
  get_or-replicate (suc n) zero a = refl
  get_or-replicate (suc n) (suc i) a = get_or-replicate n i a

  pub get_or-cons :
      (x : A) (xs : List A) (j : ℕ) (d : A)
      → get_or (x ∷ xs) j d ≡ (if j == 0 then x else get_or xs (j - 1) d)
  get_or-cons x xs zero d = refl
  get_or-cons x xs (suc j) d = ground arith

  -- Two lists of one length that read alike everywhere are one list.
  pub ext_get_or :
      (d : A) (xs ys : List A)
      → length xs ≡ length ys
      → ((i : ℕ) → i < length xs → get_or xs i d ≡ get_or ys i d)
      → xs ≡ ys
  ext_get_or d [] [] l h = refl
  ext_get_or d [] (y ∷ ys) l h = absurd (omega arith)
  ext_get_or d (x ∷ xs) [] l h = absurd (omega arith)
  ext_get_or d (x ∷ xs) (y ∷ ys) l h =
      ap₂ ◌∷◌ (h 0 (omega arith))
        (ext_get_or d xs ys (omega arith) (λ i p. h (suc i) (omega arith)))

module _ {ℓ κ} {A : Type ℓ} {B : Type κ} where
  pub length-map : (xs : List A) (f : A → B) → length (map f xs) ≡ length xs
  length-map [] f = refl
  length-map (x ∷ xs) f = ap suc (length-map xs f)

  pub get_or-map :
      (xs : List A) (f : A → B) (i : ℕ) (d : B) (e : A)
      → i < length xs
      → get_or (map f xs) i d ≡ f (get_or xs i e)
  get_or-map [] f i d e h = elim h [ ]
  get_or-map (x ∷ xs) f zero d e h = refl
  get_or-map (x ∷ xs) f (suc i) d e h = get_or-map xs f i d e (omega arith)

-- A predicate on every element.
abbrev pub All {ℓ κ} : {A : Type ℓ} → (A → Type κ) → List A → Type κ
All P [] = Unit
All P (x ∷ xs) = P x × All P xs

-- Membership of a number, as a test.
abbrev pub contains : ℕ → List ℕ → Bool
contains a [] = false
contains a (x ∷ xs) = (x == a) || contains a xs

-- start..end
abbrev pub count_up : ℕ → ℕ → List ℕ
count_up zero start = []
count_up (suc n) start = start ∷ count_up n (start + 1)

pub contains-count_up :
    (n start a : ℕ) → contains a (count_up n start) ≡ (leb start a && ltb a (start + n))
contains-count_up zero start a = ground arith
contains-count_up (suc n) start a = ground (arith, contains-count_up n (start + 1) a)
