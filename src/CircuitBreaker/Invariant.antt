-- ===== src/CircuitBreaker/Invariant.antt =====
-- packages/lightning-rust/src/circuit_breaker.rs: what holds in each state, after any calls.
use lightning_db.Prelude.{
  ℕ, ◌+◌, ◌-◌, ◌%◌, ◌^◌, ◌≤◌, ◌<◌, ◌≡◌, ◌≢◌, refl, max, Option, none, some, List, [], ◌∷◌, ltb, leb,
  arith, Bool-cases, inl, inr,
}
use lightning_db.CircuitBreaker.{
  CircuitState, closed, open_circuit, half_open, CircuitBreakerConfig, Inner, probe_when_due,
  allow_in, success_in, failure_in, allow_request, on_success, on_failure,
}

pub data Call : Type 0 where
  asks : ℕ → Call
  succeeds : Call
  fails : ℕ → Call

module _ (config : CircuitBreakerConfig) where
  unfoldable pub step : Inner → Call → Inner
  step inner (asks now) = (allow_request config now inner).0
  step inner succeeds = on_success config inner
  step inner (fails now) = on_failure config now inner

  unfoldable pub run : Inner → List Call → Inner
  run inner [] = inner
  run inner (call ∷ calls) = run (step inner call) calls

  abbrev Consistent : CircuitState → Inner → Type 0
  Consistent closed inner = inner.failure_count < config.failure_threshold
  Consistent open_circuit inner = inner.last_failure_time ≢ none
  Consistent half_open inner =
      (inner.half_open_requests ≤ max 1 config.half_open_max_requests)
      × (inner.success_count < config.success_threshold)

  -- Closed: fewer failures than the threshold. Open: there is the time of a failure. Half open: no
  -- more requests than the limit, and fewer successes than the threshold.
  abbrev pub IsConsistent : Inner → Type 0
  IsConsistent inner = Consistent inner.state inner

  probe-IsConsistent :
      (now : ℕ) (inner : Inner) (o : Option ℕ)
      → 0 < config.success_threshold
      → o ≢ none
      → Consistent open_circuit inner
      → inner.state ≡ open_circuit
      → IsConsistent (probe_when_due config now inner o).0
  probe-IsConsistent now inner none p h c e = absurd (h refl)
  probe-IsConsistent now inner (some t) p h c e =
      elim (Bool-cases (leb config.recovery_timeout (now - t))) [
        | inl due ↦ rw due (omega arith)
        | inr early ↦ rw (early, e) c
      ]

  module _ (some_failures : 0 < config.failure_threshold)
      (some_successes : 0 < config.success_threshold) where
    allow-IsConsistent :
        (now : ℕ) (inner : Inner) (s : CircuitState)
        → inner.state ≡ s
        → Consistent s inner
        → IsConsistent (allow_in config s now inner).0
    allow-IsConsistent now inner closed e h = rw e h
    allow-IsConsistent now inner open_circuit e h =
        probe-IsConsistent now inner inner.last_failure_time some_successes h h e
    allow-IsConsistent now inner half_open e h =
        elim (Bool-cases (ltb inner.half_open_requests config.half_open_max_requests)) [
          | inl room ↦ rw (room, e) (ground arith)
          | inr full ↦ rw (full, e) h
        ]

    success-IsConsistent :
        (inner : Inner) (s : CircuitState)
        → inner.state ≡ s
        → Consistent s inner
        → IsConsistent (success_in config s inner)
    success-IsConsistent inner closed e h = rw e some_failures
    success-IsConsistent inner open_circuit e h = rw e h
    success-IsConsistent inner half_open e h =
        elim (Bool-cases (leb config.success_threshold ((inner.success_count + 1) % 2 ^ 64))) [
          | inl enough ↦ rw enough some_failures
          | inr few ↦ rw (few, e) (h.0, ground arith)
        ]

    failure-IsConsistent :
        (now : ℕ) (inner : Inner) (s : CircuitState)
        → Consistent s inner
        → inner.state ≡ s
        → IsConsistent (failure_in config s now inner)
    failure-IsConsistent now inner closed h e =
        elim (Bool-cases (leb config.failure_threshold ((inner.failure_count + 1) % 2 ^ 64))) [
          | inl enough ↦ rw enough (λ x. cc)
          | inr few ↦ rw (few, e) (ground arith)
        ]
    failure-IsConsistent now inner open_circuit h e = rw e (λ x. cc)
    failure-IsConsistent now inner half_open h e = λ x. cc

    step-IsConsistent :
        (inner : Inner) (call : Call) → IsConsistent inner → IsConsistent (step inner call)
    unfolding step allow_request on_success on_failure
    step-IsConsistent inner (asks now) h = allow-IsConsistent now inner inner.state refl h
    step-IsConsistent inner succeeds h = success-IsConsistent inner inner.state refl h
    step-IsConsistent inner (fails now) h = failure-IsConsistent now inner inner.state h refl

    -- With positive thresholds, every state that calls reach from a consistent one is consistent: below
    -- the failure threshold when closed; with a failure's time when open; below the success threshold and
    -- within the limit of requests (or the one that always passes) when half open.
    pub run-IsConsistent :
        (inner : Inner) (calls : List Call) → IsConsistent inner → IsConsistent (run inner calls)
    unfolding run
    run-IsConsistent inner [] h = h
    run-IsConsistent inner (call ∷ calls) h =
        run-IsConsistent (step inner call) calls (step-IsConsistent inner call h)
