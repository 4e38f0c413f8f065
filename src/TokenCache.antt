-- ===== src/TokenCache.antt =====
-- crates/lightning-server/src/auth/cache.rs: the cache that answers whether a token may be valid. The
-- SHA-256 of a token, cut into four words, is the parameter `hash_item`; tokens are numbered. The flag
-- of a revoked token is set when it is stored and never cleared, so the map is a set of tokens.
mod Bloom
mod Answers
mod Tests
use Prim.Native.Nat.{bit_and, bit_or}
use lightning_db.Prelude.{
  ℕ, ◌+◌, ◌-◌, ◌*◌, ◌/◌, ◌%◌, ◌^◌, Bool, true, false, not, ◌&&◌, List, [], ◌∷◌, map, replicate,
  get_or, set, ◌==◌, if◌then◌else◌, contains,
}

abbrev pub bloom_num_bits : ℕ
bloom_num_bits = 2 ^ 20

pub data CacheResult : Type 0 where
  definitely_not_issued revoked maybe_valid : CacheResult

pub record BloomFilter : Type 0 where
  pub bits : List ℕ
  pub mask : ℕ

pub record TokenCache : Type 0 where
  pub bloom : BloomFilter
  pub revoked_tokens : List ℕ
  pub generation : ℕ

-- BLOOM_NUM_BITS.div_ceil(64) words of 64 bits.
unfoldable pub new_bloom : BloomFilter
new_bloom = record { bits = replicate ((bloom_num_bits + 63) / 64) 0; mask = bloom_num_bits - 1 }

abbrev pub bit_of : ℕ → ℕ → ℕ
bit_of mask h = bit_and h mask

unfoldable pub set_bit : BloomFilter → ℕ → BloomFilter
set_bit bloom h =
    let idx = bit_of bloom.mask h in
    record bloom {
      bits = set bloom.bits (idx / 64) (bit_or (get_or bloom.bits (idx / 64) 0) (2 ^ (idx % 64)));
    }

unfoldable pub has_bit : BloomFilter → ℕ → Bool
has_bit bloom h =
    let idx = bit_of bloom.mask h in
    not (bit_and (get_or bloom.bits (idx / 64) 0) (2 ^ (idx % 64)) == 0)

-- for h in hashes
unfoldable pub set_bits : BloomFilter → List ℕ → BloomFilter
set_bits bloom [] = bloom
set_bits bloom (h ∷ hashes) = set_bits (set_bit bloom h) hashes

unfoldable pub has_bits : BloomFilter → List ℕ → Bool
has_bits bloom [] = true
has_bits bloom (h ∷ hashes) = if has_bit bloom h then has_bits bloom hashes else false

unfoldable pub clear_bloom : BloomFilter → BloomFilter
clear_bloom bloom = record bloom { bits = map (λ w. 0) bloom.bits }

unfoldable pub new : TokenCache
new = record { bloom = new_bloom; revoked_tokens = []; generation = 0 }

abbrev pub add_token : ℕ → List ℕ → List ℕ
add_token token tokens = if contains token tokens then tokens else token ∷ tokens

-- for h in hashes { revoked.insert(h) }
unfoldable pub add_tokens : List ℕ → List ℕ → List ℕ
add_tokens tokens [] = tokens
add_tokens tokens (t ∷ ts) = add_tokens (add_token t tokens) ts

module _ (hash_item : ℕ → List ℕ) where
  unfoldable pub bloom_insert : BloomFilter → ℕ → BloomFilter
  bloom_insert bloom item = set_bits bloom (hash_item item)

  unfoldable pub bloom_contains : BloomFilter → ℕ → Bool
  bloom_contains bloom item = has_bits bloom (hash_item item)

  unfoldable pub insert : TokenCache → ℕ → TokenCache
  insert cache token = record cache { bloom = bloom_insert cache.bloom token }

  unfoldable pub check : TokenCache → ℕ → CacheResult
  check cache token =
      if not (bloom_contains cache.bloom token)
      then definitely_not_issued
      else if contains token cache.revoked_tokens
      then revoked
      else maybe_valid

  unfoldable pub insert_all : BloomFilter → List ℕ → BloomFilter
  insert_all bloom [] = bloom
  insert_all bloom (token ∷ tokens) = insert_all (bloom_insert bloom token) tokens

  unfoldable pub rebuild : TokenCache → List ℕ → List ℕ → TokenCache
  rebuild cache all_hashes revoked_hashes = record {
    bloom = insert_all (clear_bloom cache.bloom) all_hashes;
    revoked_tokens = add_tokens [] revoked_hashes;
    generation = (cache.generation + 1) % 2 ^ 64;
  }

unfoldable pub mark_revoked : TokenCache → ℕ → TokenCache
mark_revoked cache token = record cache { revoked_tokens = add_token token cache.revoked_tokens }
