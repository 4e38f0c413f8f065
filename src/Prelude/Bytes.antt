-- ===== src/Prelude/Bytes.antt =====
-- Numbers as little-endian bytes, and the bytes at a place of a list.
use Prim.Native.Nat.{◌-◌, ◌≤◌, ℕ, zero, suc, ◌+◌, ◌*◌, ◌/◌, ◌%◌, ◌^◌, ◌<◌}
use mathlib.Core.Path.{◌≡◌, refl, ap, sym, ◌∙◌}
use mathlib.Core.Logic.{inl, inr, ◌↔◌}
use mathlib.Core.Bool.{Bool, true, false, ◌&&◌}
use mathlib.Core.List.{List, [], ◌∷◌, ◌++◌}
use native.Mathlib.Omega.{arith}
use lightning_db.Prelude.Tests.{◌==◌, ltb, leb, if◌then◌else◌, Bool-cases}
use lightning_db.Prelude.Lists.{
  ext_get_or, length-append, length-take, get_or, length-drop, length, take, drop, drop-nil,
}

-- v.to_le_bytes(), for a number of n bytes
unfoldable pub le_bytes : ℕ → ℕ → List ℕ
le_bytes zero v = []
le_bytes (suc n) v = v % 256 ∷ le_bytes n (v / 256)

-- from_le_bytes(bytes)
unfoldable pub from_le_bytes : List ℕ → ℕ
from_le_bytes [] = 0
from_le_bytes (b ∷ bytes) = b + 256 * from_le_bytes bytes

pub length-le_bytes : (n v : ℕ) → length (le_bytes n v) ≡ n
unfolding le_bytes
length-le_bytes zero v = refl
length-le_bytes (suc n) v = ap suc (length-le_bytes n (v / 256))

pub from_le_bytes-le_bytes : (n v : ℕ) → v < 256 ^ n → from_le_bytes (le_bytes n v) ≡ v
unfolding le_bytes from_le_bytes
from_le_bytes-le_bytes zero v h = omega arith
from_le_bytes-le_bytes (suc n) v h =
    let h' : v / 256 < 256 ^ n = grind arith in omega (arith, from_le_bytes-le_bytes n (v / 256) h')

module _ {ℓ} {A : Type ℓ} where
  -- xs[start..start + n]
  abbrev pub slice : List A → ℕ → ℕ → List A
  slice xs start n = take n (drop start xs)

  pub take-exact : (n : ℕ) (xs ys : List A) → length xs ≡ n → take n (xs ++ ys) ≡ xs
  take-exact zero [] ys h = refl
  take-exact zero (x ∷ xs) ys h = absurd (omega arith)
  take-exact (suc n) [] ys h = absurd (omega arith)
  take-exact (suc n) (x ∷ xs) ys h = ap (◌∷◌ x) (take-exact n xs ys (omega arith))

  pub drop-exact : (n : ℕ) (xs ys : List A) → length xs ≡ n → drop n (xs ++ ys) ≡ ys
  drop-exact zero [] ys h = refl
  drop-exact zero (x ∷ xs) ys h = absurd (omega arith)
  drop-exact (suc n) [] ys h = absurd (omega arith)
  drop-exact (suc n) (x ∷ xs) ys h = drop-exact n xs ys (omega arith)

  pub drop-add : (n k : ℕ) (xs : List A) → drop (n + k) xs ≡ drop k (drop n xs)
  drop-add zero k xs = ap (λ (m : ℕ). drop m xs) (let e : 0 + k ≡ k = omega arith in e)
  drop-add (suc n) k [] = drop-nil (suc n + k) ∙ sym (drop-nil k)
  drop-add (suc n) k (x ∷ xs) =
      ap (λ (m : ℕ). drop m (x ∷ xs)) (let e : suc n + k ≡ suc (n + k) = omega arith in e)
      ∙ drop-add n k xs

  pub get_or-drop : (n : ℕ) (xs : List A) (d : A) → get_or xs n d ≡ get_or (drop n xs) 0 d
  get_or-drop zero xs d = refl
  get_or-drop (suc n) [] d = refl
  get_or-drop (suc n) (x ∷ xs) d = get_or-drop n xs d

  pub length_of_drop :
      (n : ℕ) (xs : List A) {ys : List A}
      → drop n xs ≡ ys
      → 0 < length ys
      → length xs ≡ n + length ys
  length_of_drop n xs e h = omega (arith, ap length e, length-drop n xs)

module _ {A : Type 0} where
  -- xs[start..start + ys.len()].copy_from_slice(ys), where that lies inside
  unfoldable pub copy_to : List A → ℕ → List A → List A
  copy_to xs start ys = take start xs ++ (ys ++ drop (start + length ys) xs)

  pub length-copy_to :
      (xs : List A) (start : ℕ) (ys : List A)
      → start + length ys ≤ length xs
      → length (copy_to xs start ys) ≡ length xs
  unfolding copy_to
  length-copy_to xs start ys h = omega (
    arith,
    length-append (take start xs) (ys ++ drop (start + length ys) xs),
    length-append ys (drop (start + length ys) xs),
    length-take start xs,
    length-drop (start + length ys) xs,
  )

  pub get_or-append :
      (xs ys : List A) (i : ℕ) (d : A)
      → get_or (xs ++ ys) i d
        ≡ (if ltb i (length xs) then get_or xs i d else get_or ys (i - length xs) d)
  get_or-append [] ys i d = ground arith
  get_or-append (x ∷ xs) ys zero d = ground arith
  get_or-append (x ∷ xs) ys (suc i) d = ground (arith, get_or-append xs ys i d)

  pub get_or-take : (n i : ℕ) (xs : List A) (d : A) → i < n → get_or (take n xs) i d ≡ get_or xs i d
  get_or-take zero i xs d h = elim h [ ]
  get_or-take (suc n) i [] d h = refl
  get_or-take (suc n) zero (x ∷ xs) d h = refl
  get_or-take (suc n) (suc i) (x ∷ xs) d h = get_or-take n i xs d (omega arith)

  pub get_or-drop_at :
      (n i : ℕ) (xs : List A) (d : A) → get_or (drop n xs) i d ≡ get_or xs (n + i) d
  get_or-drop_at n i xs d =
      get_or-drop i (drop n xs) d
      ∙ ap (λ (ys : List A). get_or ys 0 d) (sym (drop-add n i xs))
      ∙ sym (get_or-drop (n + i) xs d)

  -- The copied places have the new values, the others keep theirs.
  pub get_or-copy_to :
      (xs : List A) (start : ℕ) (ys : List A) (i : ℕ) (d : A)
      → start + length ys ≤ length xs
      → get_or (copy_to xs start ys) i d ≡ (
          if leb start i && ltb i (start + length ys)
          then get_or ys (i - start) d
          else get_or xs i d)
  unfolding copy_to
  get_or-copy_to xs start ys i d h =
      let whole = get_or-append (take start xs) (ys ++ drop (start + length ys) xs) i d in
      let l : length (take start xs) ≡ start = omega (arith, length-take start xs) in
      elim (Bool-cases (ltb i start)) [
        | inl before ↦ ground (arith, whole, get_or-take start i xs d)
        | inr after ↦
            let second = get_or-append ys (drop (start + length ys) xs) (i - start) d in
            let third = get_or-drop_at (start + length ys) (i - start - length ys) xs d in
            elim (Bool-cases (ltb (i - start) (length ys))) [
              | inl inside ↦ ground (arith, whole, l, second)
              | inr beyond ↦ ground (arith, whole, l, second, third)
            ]
      ]

-- A slice of a buffer whose places are known.
pub slice_of :
    (xs ys : List ℕ) (start n : ℕ)
    → start + n ≤ length xs
    → length ys ≡ n
    → ((i : ℕ) → i < n → get_or xs (start + i) 0 ≡ get_or ys i 0)
    → slice xs start n ≡ ys
slice_of xs ys start n h l same =
    let cut : length (slice xs start n) ≡ n =
      omega (arith, length-take n (drop start xs), length-drop start xs) in
    ext_get_or 0 _ _ (cut ∙ sym l) λ i p.
      (get_or-take n i (drop start xs) 0 (omega (arith, p, cut))
        ∙ get_or-drop_at start i xs 0
        ∙ same i (omega (arith, p, cut)))

pub length-slice :
    (xs : List ℕ) (start n : ℕ) → start + n ≤ length xs → length (slice xs start n) ≡ n
length-slice xs start n h = omega (arith, length-take n (drop start xs), length-drop start xs)

-- The equality of slices.
abbrev pub bytes_eq : List ℕ → List ℕ → Bool
bytes_eq [] [] = true
bytes_eq [] (y ∷ ys) = false
bytes_eq (x ∷ xs) [] = false
bytes_eq (x ∷ xs) (y ∷ ys) = (x == y) && bytes_eq xs ys

pub bytes_eq_iff : (xs ys : List ℕ) → (bytes_eq xs ys ≡ true) ↔ (xs ≡ ys)
bytes_eq_iff [] [] = ground arith
bytes_eq_iff [] (y ∷ ys) = ground arith
bytes_eq_iff (x ∷ xs) [] = ground arith
bytes_eq_iff (x ∷ xs) (y ∷ ys) = ground (arith, bytes_eq_iff xs ys)
