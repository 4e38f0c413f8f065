-- ===== src/CircuitBreaker/Probing.antt =====
-- packages/lightning-rust/src/circuit_breaker.rs: the half-open state.
use lightning_db.Prelude.{
  ℕ, ◌≤◌, ◌≡◌, refl, ap, sym, subst, false, List, [], ◌∷◌, map, ltb, arith, ◌∙◌,
}
use lightning_db.CircuitBreaker.{half_open, CircuitBreakerConfig, Inner, allow_in, allow_request}
use lightning_db.CircuitBreaker.Invariant.{asks, step, run}

module _ (config : CircuitBreakerConfig) where
  full :
      (inner : Inner) (now : ℕ)
      → inner.state ≡ half_open
      → config.half_open_max_requests ≤ inner.half_open_requests
      → allow_request config now inner ≡ (inner, false)
  unfolding allow_request
  full inner now e h =
      ap (λ s. allow_in config s now inner) e
      ∙ rw
          (let no_room : ltb inner.half_open_requests config.half_open_max_requests ≡ false =
              ground arith in
            no_room)
          refl

  -- Once the half-open state has let its requests through, no request is let through at any later
  -- time unless one of them reports a success or a failure.
  pub probes_used_up :
      (inner : Inner) (times : List ℕ) (now : ℕ)
      → inner.state ≡ half_open
      → config.half_open_max_requests ≤ inner.half_open_requests
      → allow_request config now (run config inner (map asks times)) ≡ (inner, false)
  unfolding run step
  probes_used_up inner [] now e h = full inner now e h
  probes_used_up inner (t ∷ times) now e h =
      subst (λ i. allow_request config now (run config i (map asks times)) ≡ (inner, false))
        (sym (ap (λ r. r.0) (full inner t e h))) (probes_used_up inner times now e h)
