-- ===== src/Prelude/Bits/Digits.antt =====
-- Digit i of a number, and of the results of the operations on numbers.
use Prim.Native.Nat.{
  ℕ, zero, suc, ◌+◌, ◌-◌, ◌*◌, ◌/◌, ◌%◌, ◌^◌, ◌≤◌, ◌<◌, min, max, bit_and, bit_or,
}
use Prim.Native.Nat.pow
use mathlib.Core.Path.{◌≡◌, refl, sym, ap, ◌∙◌}
use native.Mathlib.Omega.{arith}
use native.Mathlib.Nat.{div-div-eq-div-mul, mul_comm, mod-eq_of_lt, mod-lt}
use lightning_db.Prelude.Tests.{ltb, ◌==◌, if◌then◌else◌}
use lightning_db.Prelude.Bits.Steps.{bit_and_step, bit_or_step}

abbrev pub bit : ℕ → ℕ → ℕ
bit a zero = a % 2
bit a (suc i) = bit (a / 2) i

pub bit-le_one : (a i : ℕ) → bit a i ≤ 1
bit-le_one a zero = omega arith
bit-le_one a (suc i) = bit-le_one (a / 2) i

pub bit-zero : (i : ℕ) → bit 0 i ≡ 0
bit-zero zero = refl
bit-zero (suc i) = bit-zero i

pub bit-bit_and : (a b i : ℕ) → bit (bit_and a b) i ≡ min (bit a i) (bit b i)
bit-bit_and a b zero = omega (arith, bit_and_step a b)
bit-bit_and a b (suc i) =
    ap (λ (x : ℕ). bit x i) (omega (arith, bit_and_step a b)) ∙ bit-bit_and (a / 2) (b / 2) i

pub bit-bit_or : (a b i : ℕ) → bit (bit_or a b) i ≡ max (bit a i) (bit b i)
bit-bit_or a b zero = omega (arith, bit_or_step a b)
bit-bit_or a b (suc i) =
    ap (λ (x : ℕ). bit x i) (omega (arith, bit_or_step a b)) ∙ bit-bit_or (a / 2) (b / 2) i

pub eq_of_bits_fuel : (n a b : ℕ) → a ≤ n → b ≤ n → ((i : ℕ) → bit a i ≡ bit b i) → a ≡ b
eq_of_bits_fuel zero a b p q h = omega arith
eq_of_bits_fuel (suc n) a b p q h =
    omega
      (arith, h 0, eq_of_bits_fuel n (a / 2) (b / 2) (omega arith) (omega arith) (λ i. h (suc i)))

pub eq_of_bits : (a b : ℕ) → ((i : ℕ) → bit a i ≡ bit b i) → a ≡ b
eq_of_bits a b h = eq_of_bits_fuel (a + b) a b (omega arith) (omega arith) h

pub pow-pos : (n : ℕ) → 0 < 2 ^ n
pow-pos zero = omega arith
pow-pos (suc n) = omega (arith, pow-pos n)

-- The low digit of a number, and the rest, below 2 * m.
pub mod-double : (a m : ℕ) → 0 < m → a % (m * 2) ≡ a / 2 % m * 2 + a % 2
mod-double a m h = grind arith

pub pow-suc : (n : ℕ) → 2 ^ suc n ≡ 2 ^ n * 2
pow-suc n = pow.suc 2 n

bit_eq : (x y i : ℕ) → x ≡ y → bit x i ≡ bit y i
bit_eq x y i e = ap (λ (a : ℕ). bit a i) e

mod-double_half : (a m : ℕ) → 0 < m → a % (m * 2) / 2 ≡ a / 2 % m
mod-double_half a m h = omega (arith, mod-double a m h)

mul-double_twice : (a m : ℕ) → a * (m * 2) ≡ a * m * 2
mul-double_twice a m = grind arith

mul-double_half : (a m : ℕ) → a * (m * 2) / 2 ≡ a * m
mul-double_half a m = grind arith

mul-double_even : (a m : ℕ) → a * (m * 2) % 2 ≡ 0
mul-double_even a m = omega (arith, mul-double_twice a m)

pub bit-mod-pow : (n a i : ℕ) → bit (a % 2 ^ n) i ≡ (if ltb i n then bit a i else 0)
bit-mod-pow zero a i = bit_eq (a % 2 ^ 0) 0 i (omega arith) ∙ bit-zero i ∙ ground arith
bit-mod-pow (suc n) a zero = ground (arith, mod-double a (2 ^ n) (pow-pos n), pow-suc n)
bit-mod-pow (suc n) a (suc i) =
    bit_eq (a % 2 ^ suc n / 2) (a / 2 % 2 ^ n) i
      (rw (pow-suc n) (mod-double_half a (2 ^ n) (pow-pos n)))
    ∙ bit-mod-pow n (a / 2) i
    ∙ ground arith

pub bit-mul-pow : (n a i : ℕ) → bit (a * 2 ^ n) i ≡ (if ltb i n then 0 else bit a (i - n))
bit-mul-pow zero a i = bit_eq (a * 2 ^ 0) a i (omega arith) ∙ ground arith
bit-mul-pow (suc n) a zero = rw (pow-suc n) (mul-double_even a (2 ^ n) ∙ ground arith)
bit-mul-pow (suc n) a (suc i) =
    bit_eq (a * 2 ^ suc n / 2) (a * 2 ^ n) i (rw (pow-suc n) (mul-double_half a (2 ^ n)))
    ∙ bit-mul-pow n a i
    ∙ ground arith

pub bit-div-pow : (n a i : ℕ) → bit (a / 2 ^ n) i ≡ bit a (n + i)
bit-div-pow zero a i =
    bit_eq (a / 2 ^ 0) a i (omega arith) ∙ ap (bit a) (let e : i ≡ 0 + i = omega arith in e)
bit-div-pow (suc n) a i =
    bit_eq (a / 2 ^ suc n) (a / 2 / 2 ^ n) i (
      rw (pow-suc n)
        (ap (λ (m : ℕ). a / m) (mul_comm (2 ^ n) 2) ∙ sym (div-div-eq-div-mul a 2 (2 ^ n))))
    ∙ bit-div-pow n (a / 2) i
    ∙ ap (bit a) (let e : suc (n + i) ≡ suc n + i = omega arith in e)

-- A number that has no digit from n on is below 2 ^ n.
pub lt-pow_of_bits : (n a : ℕ) → ((i : ℕ) → n ≤ i → bit a i ≡ 0) → a < 2 ^ n
lt-pow_of_bits n a h = omega (
  arith,
  pow-pos n,
  eq_of_bits a (a % 2 ^ n) (λ i. ground (arith, h i, bit-mod-pow n a i)),
  mod-lt a (pow-pos n),
)

pub bit-lt-pow : (n a i : ℕ) → a < 2 ^ n → n ≤ i → bit a i ≡ 0
bit-lt-pow n a i h l = ground (arith, bit-mod-pow n a i, bit_eq (a % 2 ^ n) a i (mod-eq_of_lt h))

pub bit-pow : (n i : ℕ) → bit (2 ^ n) i ≡ (if n == i then 1 else 0)
bit-pow zero zero = refl
bit-pow zero (suc i) = bit-zero i ∙ ground arith
bit-pow (suc n) zero = ground (arith, pow-suc n)
bit-pow (suc n) (suc i) =
    bit_eq (2 ^ suc n / 2) (2 ^ n) i (omega (arith, pow-suc n)) ∙ bit-pow n i ∙ ground arith
