-- ===== src/TokenCache/Bloom.antt =====
-- crates/lightning-server/src/auth/cache.rs: the Bloom filter has no false negatives.
use Prim.Native.Nat.{bit_and, bit_or}
use lightning_db.Prelude.{
  ℕ, ◌-◌, ◌/◌, ◌%◌, ◌^◌, ◌<◌, ◌≡◌, refl, ap, ◌∙◌, Bool, true, List, [], ◌∷◌, arith, ◌==◌, length,
  get_or, get_or-set, length-set, length-map, length-replicate, if◌then◌else◌,
}
use lightning_db.Prelude.Bits.{bit, bit-bit_or, bit-pow, bit_and-mask, bit-le_one, test_bit}
use lightning_db.TokenCache.{
  BloomFilter, new_bloom, bit_of, set_bit, has_bit, set_bits, has_bits, clear_bloom,
}

pub record IsSized (bloom : BloomFilter) : Type 0 where
  pub mask_bits : bloom.mask ≡ 2 ^ 20 - 1
  pub words : length bloom.bits ≡ 2 ^ 14

pub new_bloom-IsSized : IsSized new_bloom
unfolding new_bloom
new_bloom-IsSized = record { mask_bits = refl; words = length-replicate {A = ℕ} (2 ^ 14) 0 }

abbrev word_at : BloomFilter → ℕ → ℕ
word_at bloom h = get_or bloom.bits (bit_of bloom.mask h / 64) 0

module _ (bloom : BloomFilter) (v : IsSized bloom) where
  pub set_bit-IsSized : (h : ℕ) → IsSized (set_bit bloom h)
  unfolding set_bit
  set_bit-IsSized h = record {
    mask_bits = v.mask_bits;
    words = length-set bloom.bits _ _ ∙ v.words;
  }

  pub clear_bloom-IsSized : IsSized (clear_bloom bloom)
  unfolding clear_bloom
  clear_bloom-IsSized = record {
    mask_bits = v.mask_bits;
    words = length-map bloom.bits _ ∙ v.words;
  }

  bit_of-lt : (h : ℕ) → bit_of bloom.mask h / 64 < length bloom.bits
  bit_of-lt h = omega (arith, ap (bit_and h) v.mask_bits, bit_and-mask h 20 0, v.words)

  abbrev same_index : ℕ → ℕ → Bool
  same_index h k = bit_of bloom.mask h == bit_of bloom.mask k

  has_bit_lem :
      (b : BloomFilter) (h : ℕ) → has_bit b h ≡ (bit (word_at b h) (bit_of b.mask h % 64) == 1)
  unfolding has_bit
  has_bit_lem b h = test_bit (word_at b h) (bit_of b.mask h % 64)

  -- A bit is set by its own hash, and stays as it was for the others.
  pub has_bit-set_bit :
      (h k : ℕ) → has_bit (set_bit bloom h) k ≡ (if same_index h k then true else has_bit bloom k)
  unfolding set_bit
  has_bit-set_bit h k =
      let i : ℕ = bit_of bloom.mask h in
      let j : ℕ = bit_of bloom.mask k in
      let w : ℕ = get_or bloom.bits (i / 64) 0 in
      ground (
        arith,
        has_bit_lem (set_bit bloom h) k,
        has_bit_lem bloom k,
        get_or-set bloom.bits (i / 64) (j / 64) (bit_or w (2 ^ (i % 64))) 0 (bit_of-lt h),
        bit-bit_or w (2 ^ (i % 64)) (j % 64),
        bit-pow (i % 64) (j % 64),
        bit-le_one w (j % 64),
        ap (λ (x : ℕ). get_or bloom.bits x 0) {x = i / 64} {y = j / 64},
      )

pub set_bits-IsSized :
    (bloom : BloomFilter) (v : IsSized bloom) (hashes : List ℕ) → IsSized (set_bits bloom hashes)
unfolding set_bits
set_bits-IsSized bloom v [] = v
set_bits-IsSized bloom v (h ∷ hashes) =
    set_bits-IsSized (set_bit bloom h) (set_bit-IsSized bloom v h) hashes

has_bit-set_bits :
    (bloom : BloomFilter) (v : IsSized bloom) (hashes : List ℕ) (k : ℕ)
    → has_bit bloom k ≡ true
    → has_bit (set_bits bloom hashes) k ≡ true
unfolding set_bits
has_bit-set_bits bloom v [] k had = had
has_bit-set_bits bloom v (h ∷ hashes) k had =
    has_bit-set_bits (set_bit bloom h) (set_bit-IsSized bloom v h) hashes k
      (ground (arith, has_bit-set_bit bloom v h k))

-- What the filter contains, it contains after further insertions.
pub has_bits-set_bits :
    (bloom : BloomFilter) (v : IsSized bloom) (hashes ks : List ℕ)
    → has_bits bloom ks ≡ true
    → has_bits (set_bits bloom hashes) ks ≡ true
unfolding has_bits
has_bits-set_bits bloom v hashes [] had = refl
has_bits-set_bits bloom v hashes (k ∷ ks) had =
    ground (arith, has_bit-set_bits bloom v hashes k, has_bits-set_bits bloom v hashes ks)

-- It contains what was inserted.
pub has_bits-set_bits_self :
    (bloom : BloomFilter) (v : IsSized bloom) (hashes : List ℕ)
    → has_bits (set_bits bloom hashes) hashes ≡ true
unfolding set_bits has_bits
has_bits-set_bits_self bloom v [] = refl
has_bits-set_bits_self bloom v (h ∷ hashes) =
    let v' : IsSized (set_bit bloom h) = set_bit-IsSized bloom v h in
    ground (
      arith,
      has_bit-set_bits (set_bit bloom h) v' hashes h,
      has_bit-set_bit bloom v h h,
      has_bits-set_bits_self (set_bit bloom h) v' hashes,
    )
