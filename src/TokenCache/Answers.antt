-- ===== src/TokenCache/Answers.antt =====
-- crates/lightning-server/src/auth/cache.rs: the answers of `check` after any calls, against the set of
-- the tokens issued and the set of the tokens revoked.
use lightning_db.Prelude.{
  ℕ, ◌≡◌, refl, ap, subst, ==_iff, true, ◌||◌, List, [], ◌∷◌, arith, ◌==◌, if◌then◌else◌, contains,
  Bool-cases, inl, inr,
}
use lightning_db.TokenCache.{
  TokenCache, BloomFilter, revoked, maybe_valid, new, clear_bloom, set_bits, has_bits, bloom_insert,
  bloom_contains, insert, check, insert_all, rebuild, mark_revoked, add_token, add_tokens,
}
use lightning_db.TokenCache.Bloom.{
  IsSized, new_bloom-IsSized, clear_bloom-IsSized, set_bits-IsSized, has_bits-set_bits,
  has_bits-set_bits_self,
}

pub data Call : Type 0 where
  inserts : ℕ → Call
  revokes : ℕ → Call
  rebuilds : List ℕ → List ℕ → Call

-- The tokens issued, the last first, and the tokens revoked.
abbrev pub issued : List ℕ → List Call → List ℕ
issued tokens [] = tokens
issued tokens (inserts t ∷ calls) = issued (t ∷ tokens) calls
issued tokens (revokes t ∷ calls) = issued tokens calls
issued tokens (rebuilds all some_revoked ∷ calls) = issued all calls

abbrev pub revocations : List ℕ → List Call → List ℕ
revocations tokens [] = tokens
revocations tokens (inserts t ∷ calls) = revocations tokens calls
revocations tokens (revokes t ∷ calls) = revocations (t ∷ tokens) calls
revocations tokens (rebuilds all some_revoked ∷ calls) = revocations some_revoked calls

module _ (hash_item : ℕ → List ℕ) where
  unfoldable pub step : TokenCache → Call → TokenCache
  step cache (inserts t) = insert hash_item cache t
  step cache (revokes t) = mark_revoked cache t
  step cache (rebuilds all some_revoked) = rebuild hash_item cache all some_revoked

  unfoldable pub run : TokenCache → List Call → TokenCache
  run cache [] = cache
  run cache (call ∷ calls) = run (step cache call) calls

  -- The filter contains the tokens, and the map has the revoked ones.
  pub record Knows (cache : TokenCache) (tokens gone : List ℕ) : Type 0 where
    pub sized : IsSized cache.bloom
    pub contained :
        (t : ℕ) → contains t tokens ≡ true → bloom_contains hash_item cache.bloom t ≡ true
    pub revoked_ones : (t : ℕ) → contains t cache.revoked_tokens ≡ contains t gone

  pub new-Knows : Knows new [] []
  unfolding new
  new-Knows = record {
    sized = new_bloom-IsSized;
    contained = λ t h. absurd (cc);
    revoked_ones = λ t. refl;
  }

  contains-add_token :
      (t u : ℕ) (tokens : List ℕ) → contains t (add_token u tokens) ≡ (u == t || contains t tokens)
  contains-add_token t u tokens = ground (arith, ap (λ (x : ℕ). contains x tokens) {x = u} {y = t})

  contains-add_tokens :
      (t : ℕ) (tokens us : List ℕ)
      → contains t (add_tokens tokens us) ≡ (contains t us || contains t tokens)
  unfolding add_tokens
  contains-add_tokens t tokens [] = refl
  contains-add_tokens t tokens (u ∷ us) =
      ground (arith, contains-add_tokens t (add_token u tokens) us, contains-add_token t u tokens)

  abbrev Contained : BloomFilter → List ℕ → Type 0
  Contained bloom tokens =
      (t : ℕ) → contains t tokens ≡ true → bloom_contains hash_item bloom t ≡ true

  bloom_insert-Contained :
      (bloom : BloomFilter) (v : IsSized bloom) (tokens : List ℕ) (u : ℕ)
      → Contained bloom tokens
      → Contained (bloom_insert hash_item bloom u) (u ∷ tokens)
  unfolding bloom_insert bloom_contains
  bloom_insert-Contained bloom v tokens u h t e = elim (Bool-cases (u == t)) [
    | inl same ↦
        subst (λ x. has_bits (set_bits bloom (hash_item u)) (hash_item x) ≡ true)
          ((==_iff u t).0 same) (has_bits-set_bits_self bloom v (hash_item u))
    | inr other ↦ has_bits-set_bits bloom v (hash_item u) (hash_item t) (h t (ground arith))
  ]

  insert_all-Contained :
      (bloom : BloomFilter) (v : IsSized bloom) (tokens us : List ℕ)
      → Contained bloom tokens
      → IsSized (insert_all hash_item bloom us)
        × ((t : ℕ)
            → (contains t us || contains t tokens) ≡ true
            → bloom_contains hash_item (insert_all hash_item bloom us) t ≡ true)
  unfolding insert_all bloom_insert
  insert_all-Contained bloom v tokens [] h = (v, h)
  insert_all-Contained bloom v tokens (u ∷ us) h =
      let (v', h') =
        insert_all-Contained (bloom_insert hash_item bloom u)
          (set_bits-IsSized bloom v (hash_item u)) (u ∷ tokens) us
          (bloom_insert-Contained bloom v tokens u h) in
      (v', λ t e. h' t (ground arith))

  step-Knows :
      (cache : TokenCache) (tokens gone : List ℕ) (call : Call)
      → Knows cache tokens gone
      → Knows (step cache call) (issued tokens (call ∷ [])) (revocations gone (call ∷ []))
  unfolding step insert mark_revoked rebuild bloom_insert
  step-Knows cache tokens gone (inserts u) k = record {
    sized = set_bits-IsSized cache.bloom k.sized (hash_item u);
    contained = bloom_insert-Contained cache.bloom k.sized tokens u k.contained;
    revoked_ones = k.revoked_ones;
  }
  step-Knows cache tokens gone (revokes u) k = record {
    sized = k.sized;
    contained = k.contained;
    revoked_ones =
        λ t. ground (arith, k.revoked_ones t, contains-add_token t u cache.revoked_tokens);
  }
  step-Knows cache tokens gone (rebuilds all some_revoked) k =
      let (v, h) =
        insert_all-Contained (clear_bloom cache.bloom) (clear_bloom-IsSized cache.bloom k.sized) []
          all (λ t e. absurd (cc)) in
      record {
        sized = v;
        contained = λ t e. h t (ground arith);
        revoked_ones = λ t. ground (arith, contains-add_tokens t [] some_revoked);
      }

  run-Knows :
      (cache : TokenCache) (tokens gone : List ℕ) (calls : List Call)
      → Knows cache tokens gone
      → Knows (run cache calls) (issued tokens calls) (revocations gone calls)
  unfolding run
  run-Knows cache tokens gone [] k = k
  run-Knows cache tokens gone (inserts u ∷ calls) k =
      run-Knows (step cache (inserts u)) (u ∷ tokens) gone calls
        (step-Knows cache tokens gone (inserts u) k)
  run-Knows cache tokens gone (revokes u ∷ calls) k =
      run-Knows (step cache (revokes u)) tokens (u ∷ gone) calls
        (step-Knows cache tokens gone (revokes u) k)
  run-Knows cache tokens gone (rebuilds all some_revoked ∷ calls) k =
      run-Knows (step cache (rebuilds all some_revoked)) all some_revoked calls
        (step-Knows cache tokens gone (rebuilds all some_revoked) k)

  -- After any calls, whatever the hash function is, a token that was issued is never answered with
  -- `DefinitelyNotIssued`: the answer is `Revoked` when the token was revoked, else `MaybeValid`. A
  -- rebuild starts both sets afresh.
  pub check-run :
      (calls : List Call) (token : ℕ)
      → contains token (issued [] calls) ≡ true
      → check hash_item (run new calls) token
        ≡ (if contains token (revocations [] calls) then revoked else maybe_valid)
  unfolding check
  check-run calls token e =
      let k : Knows (run new calls) (issued [] calls) (revocations [] calls) =
        run-Knows new [] [] calls new-Knows in
      ground (arith, k.contained token e, k.revoked_ones token)
