-- ===== src/Prelude/Bits/Masks.antt =====
-- Masks, and numbers whose digits do not meet, as arithmetic.
use Prim.Native.Nat.{ℕ, zero, suc, ◌+◌, ◌-◌, ◌*◌, ◌/◌, ◌%◌, ◌^◌, ◌≤◌, ◌<◌, max, bit_and, bit_or}
use mathlib.Core.Path.{◌≡◌, refl, sym, ap, ◌∙◌}
use native.Mathlib.Omega.{arith}
use mathlib.Core.Logic.{inl, inr}
use mathlib.Core.Bool.{not}
use lightning_db.Prelude.Tests.{Bool-cases, ltb, ◌==◌, if◌then◌else◌}
use lightning_db.Prelude.Bits.Steps.{bit_and_step, bit_or_step}
use lightning_db.Prelude.Bits.Digits.{
  bit, bit-le_one, bit-bit_and, bit-bit_or, bit-mod-pow, bit-mul-pow, bit-div-pow, bit-zero,
  eq_of_bits, bit-lt-pow, bit-pow, pow-suc, pow-pos,
}

-- 2 ^ w - 1 has the low w digits.
pub bit-ones : (w i : ℕ) → bit (2 ^ w - 1) i ≡ (if ltb i w then 1 else 0)
bit-ones zero i = bit-zero i ∙ ground arith
bit-ones (suc w) zero = ground (arith, pow-suc w, pow-pos w)
bit-ones (suc w) (suc i) =
    ap (λ (x : ℕ). bit x i)
      (let e : (2 ^ suc w - 1) / 2 ≡ 2 ^ w - 1 = omega (arith, pow-suc w, pow-pos w) in e)
    ∙ bit-ones w i
    ∙ ground arith

module _ (a w s : ℕ) where
  -- Keeping w digits from digit s on.
  pub bit_and-mask : bit_and a ((2 ^ w - 1) * 2 ^ s) ≡ a / 2 ^ s % 2 ^ w * 2 ^ s
  bit_and-mask = eq_of_bits _ _ λ i. ground (
    arith,
    bit-bit_and a ((2 ^ w - 1) * 2 ^ s) i,
    bit-mul-pow s (2 ^ w - 1) i,
    bit-ones w (i - s),
    bit-mul-pow s (a / 2 ^ s % 2 ^ w) i,
    bit-mod-pow w (a / 2 ^ s) (i - s),
    bit-div-pow s a (i - s),
    bit-le_one a i,
    ap (bit a) (shift_back i),
  )
    where
      shift_back : (i : ℕ) → s + (i - s) ≡ max i s
      shift_back i = omega arith

-- The digits of two numbers that do not meet add up.
bit_or-disjoint_fuel : (n a b : ℕ) → a ≤ n → b ≤ n → bit_and a b ≡ 0 → bit_or a b ≡ a + b
bit_or-disjoint_fuel zero zero zero p q h = refl
bit_or-disjoint_fuel zero zero (suc b) p q h = absurd (omega arith)
bit_or-disjoint_fuel zero (suc a) b p q h = absurd (omega arith)
bit_or-disjoint_fuel (suc n) a b p q h = omega (
  arith,
  bit_and_step a b,
  bit_or_step a b,
  bit_or-disjoint_fuel n (a / 2) (b / 2) (omega arith) (omega arith)
      (omega (arith, bit_and_step a b)),
)

pub bit_or-disjoint : (a b : ℕ) → bit_and a b ≡ 0 → bit_or a b ≡ a + b
bit_or-disjoint a b h = bit_or-disjoint_fuel (a + b) a b (omega arith) (omega arith) h

pub bit_and-bit_or : (a m n : ℕ) → bit_and a (bit_or m n) ≡ bit_or (bit_and a m) (bit_and a n)
bit_and-bit_or a m n = eq_of_bits _ _ λ i. ground (
  arith,
  bit-bit_and a (bit_or m n) i,
  bit-bit_or m n i,
  bit-bit_or (bit_and a m) (bit_and a n) i,
  bit-bit_and a m i,
  bit-bit_and a n i,
)

module _ (s hi lo : ℕ) (lo_fits : lo < 2 ^ s) where
  pub bit_or-shifted : bit_or (hi * 2 ^ s) lo ≡ hi * 2 ^ s + lo
  bit_or-shifted = bit_or-disjoint (hi * 2 ^ s) lo (
      eq_of_bits _ _ λ i. ground (
        arith,
        bit-bit_and (hi * 2 ^ s) lo i,
        bit-mul-pow s hi i,
        bit-lt-pow s lo i lo_fits,
        bit-zero i,
      ))

-- A field of u digits at digit s, between a lower part and a part from digit s + u on.
module _ (s u hi mid lo : ℕ) (mid_fits : mid < 2 ^ u) (lo_fits : lo < 2 ^ s) where
  pub bit_or-field :
      bit_or (bit_or (hi * 2 ^ (s + u)) lo) (mid * 2 ^ s)
      ≡ bit_or (hi * 2 ^ (s + u)) lo + mid * 2 ^ s
  bit_or-field = bit_or-disjoint _ (mid * 2 ^ s) (
      eq_of_bits _ _ λ i. ground (
        arith,
        bit-bit_and (bit_or (hi * 2 ^ (s + u)) lo) (mid * 2 ^ s) i,
        bit-bit_or (hi * 2 ^ (s + u)) lo i,
        bit-mul-pow (s + u) hi i,
        bit-mul-pow s mid i,
        bit-lt-pow s lo i lo_fits,
        bit-lt-pow u mid (i - s) mid_fits,
        bit-zero i,
      ))

module _ (a k : ℕ) where
  -- Setting digit k.
  pub bit_or-pow : bit_or a (2 ^ k) ≡ (if bit a k == 0 then a + 2 ^ k else a)
  bit_or-pow = elim (Bool-cases (bit a k == 0)) [
    | inl e ↦ rw e (
        bit_or-disjoint a (2 ^ k) (
          eq_of_bits _ _ λ i.
            ground (
              arith,
              bit-bit_and a (2 ^ k) i,
              bit-pow k i,
              bit-zero i,
              ap (bit a) {x = k} {y = i},
            )))
    | inr e ↦ rw e (
        eq_of_bits _ _ λ i.
          ground (
            arith,
            bit-bit_or a (2 ^ k) i,
            bit-pow k i,
            bit-le_one a i,
            ap (bit a) {x = k} {y = i},
          ))
  ]

pub bit-eq-div : (a k : ℕ) → bit a k ≡ a / 2 ^ k % 2
bit-eq-div a k = ap (bit a) (let e : k ≡ k + 0 = omega arith in e) ∙ sym (bit-div-pow k a 0)

-- a & (1 << k) != 0
pub test_bit : (a k : ℕ) → not (bit_and a (2 ^ k) == 0) ≡ (bit a k == 1)
test_bit a k =
    let mask : (2 ^ 1 - 1) * 2 ^ k ≡ 2 ^ k = omega arith in
    ground (arith, ap (bit_and a) mask, bit_and-mask a 1 k, bit-eq-div a k, pow-pos k)
