-- ===== src/CircuitBreaker/Outcomes.antt =====
-- packages/lightning-rust/src/circuit_breaker.rs: when failures open the circuit.
use lightning_db.Prelude.{
  ℕ, ◌+◌, ◌^◌, ◌≤◌, ◌<◌, ◌≡◌, refl, List, [], ◌∷◌, map, ltb, length, if◌then◌else◌, arith, ◌∙◌,
}
use native.Mathlib.Decide.{dec_lt}
use lightning_db.CircuitBreaker.{closed, open_circuit, CircuitBreakerConfig, Inner, on_failure}
use lightning_db.CircuitBreaker.Invariant.{fails, step, run}

module _ (config : CircuitBreakerConfig) where
  open_stays :
      (inner : Inner) (times : List ℕ)
      → inner.state ≡ open_circuit
      → (run config inner (map fails times)).state ≡ open_circuit
  unfolding run step on_failure
  open_stays inner [] e = e
  open_stays inner (now ∷ times) e = open_stays (on_failure config now inner) times (rw e refl)

  module _ (inner : Inner) (now : ℕ) (e : inner.state ≡ closed)
      (b : config.failure_threshold < 2 ^ 64)
      (h : inner.failure_count < config.failure_threshold) where
    last_failure :
        config.failure_threshold ≤ inner.failure_count + 1
        → (on_failure config now inner).state ≡ open_circuit
    unfolding on_failure
    last_failure enough = rw e (ground arith)

    other_failure :
        inner.failure_count + 1 < config.failure_threshold
        → ((on_failure config now inner).state ≡ closed)
          × ((on_failure config now inner).failure_count ≡ inner.failure_count + 1)
    unfolding on_failure
    other_failure few = rw e (ground arith)

  -- A closed circuit opens at exactly the failure that brings the count since the last success to the
  -- threshold, and stays open under further failures.
  pub failures_open :
      (inner : Inner) (times : List ℕ)
      → inner.state ≡ closed
      → inner.failure_count < config.failure_threshold
      → config.failure_threshold < 2 ^ 64
      → (run config inner (map fails times)).state ≡ (
          if ltb (inner.failure_count + length times) config.failure_threshold
          then closed
          else open_circuit)
  unfolding run step
  failures_open inner [] e h b = ground arith
  failures_open inner (now ∷ times) e h b =
      elim (dec_lt (inner.failure_count + 1) config.failure_threshold) [
        | no enough ↦
            open_stays (on_failure config now inner) times
              (last_failure inner now e b h (omega arith))
            ∙ ground arith
        | yes few ↦
            let (e', more) = other_failure inner now e b h few in
            failures_open (on_failure config now inner) times e' (omega arith) b ∙ ground arith
      ]
