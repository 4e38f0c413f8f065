-- ===== src/Prelude/Bits/Steps.antt =====
-- The lowest digit of `bit_and`, `bit_or` and `bit_xor`.
use Prim.Native.Nat.{
  ℕ, zero, suc, ◌+◌, ◌*◌, ◌/◌, ◌%◌, ◌≤◌, min, max, bit_and, bit_or, digits, bit_and-bitwise,
  bit_or-bitwise,
}
use mathlib.Core.Path.{◌≡◌, refl, ap, sym, ◌∙◌}
use native.Mathlib.Omega.{arith}

module _ (z : ℕ → ℕ) (f : ℕ → ℕ → ℕ) (z-half : (b : ℕ) → z b ≡ z (b / 2) * 2 + f 0 (b % 2)) where
  digits-zero : (fuel b : ℕ) → digits z f fuel 0 b ≡ z b
  digits-zero zero b = refl
  digits-zero (suc fuel) b = refl

  -- Fuel beyond the number itself changes nothing.
  same_digits :
      (fuel enough x b : ℕ) → x ≤ fuel → x ≤ enough → digits z f fuel x b ≡ digits z f enough x b
  same_digits fuel enough zero b _ _ = digits-zero fuel b ∙ sym (digits-zero enough b)
  same_digits (suc fuel) (suc enough) (suc x) b l k =
      let halves : digits z f fuel (suc x / 2) (b / 2) ≡ digits z f enough (suc x / 2) (b / 2) =
        same_digits fuel enough (suc x / 2) (b / 2) (omega arith) (omega arith) in
      ap (λ (high : ℕ). high * 2 + f (suc x % 2) (b % 2)) halves
  same_digits zero enough (suc x) b l k = absurd (omega arith)
  same_digits (suc fuel) zero (suc x) b l k = absurd (omega arith)

  low_digit :
      (x b : ℕ) → digits z f x x b ≡ digits z f (x / 2) (x / 2) (b / 2) * 2 + f (x % 2) (b % 2)
  low_digit zero b = z-half b
  low_digit (suc x) b =
      ap (λ (high : ℕ). high * 2 + f (suc x % 2) (b % 2))
        (same_digits x (suc x / 2) (suc x / 2) (b / 2) (omega arith) (omega arith))

pub bit_and_step : (a b : ℕ) → bit_and a b ≡ bit_and (a / 2) (b / 2) * 2 + min (a % 2) (b % 2)
bit_and_step a b = omega (
  arith,
  bit_and-bitwise a b,
  bit_and-bitwise (a / 2) (b / 2),
  low_digit (λ b. zero) min (λ b. omega arith) a b,
)

pub bit_or_step : (a b : ℕ) → bit_or a b ≡ bit_or (a / 2) (b / 2) * 2 + max (a % 2) (b % 2)
bit_or_step a b = omega (
  arith,
  bit_or-bitwise a b,
  bit_or-bitwise (a / 2) (b / 2),
  low_digit (λ b. b) max (λ b. omega arith) a b,
)
