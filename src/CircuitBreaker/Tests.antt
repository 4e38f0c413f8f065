-- ===== src/CircuitBreaker/Tests.antt =====
-- Runs of the circuit breaker, and the theorems about it at concrete configurations.
use lightning_db.Prelude.{
  ℕ, ◌+◌, ◌≡◌, refl, some, List, [], ◌∷◌, map, ltb, length, if◌then◌else◌, arith,
}
use lightning_db.CircuitBreaker.{
  closed, open_circuit, half_open, Inner, default_config, new, allow_request, on_success,
  on_failure,
}
use lightning_db.CircuitBreaker.Invariant.{
  Call, asks, succeeds, fails, step, run, IsConsistent, run-IsConsistent,
}
use lightning_db.CircuitBreaker.Outcomes.{failures_open}

abbrev five_failures : List ℕ
five_failures = 1 ∷ 2 ∷ 3 ∷ 4 ∷ 5 ∷ []

-- The circuit opens, is probed after the timeout, and closes after two successes.
abbrev recovery : List Call
recovery =
    fails 1
    ∷ fails 2
    ∷ fails 3
    ∷ fails 4
    ∷ fails 5
    ∷ asks 9
    ∷ asks 30_005
    ∷ asks 30_006
    ∷ succeeds
    ∷ succeeds
    ∷ []

recovery_closes : run default_config new recovery ≡ record new { last_failure_time = some 5 }
unfolding run step allow_request on_success on_failure
recovery_closes = refl

run-IsConsistent_example : IsConsistent default_config (run default_config new recovery)
run-IsConsistent_example =
    run-IsConsistent default_config (omega arith) (omega arith) new recovery (omega arith)

failures_open_example :
    (run default_config new (map fails five_failures)).state
    ≡ (if ltb (0 + length five_failures) 5 then closed else open_circuit)
failures_open_example =
    failures_open default_config new five_failures refl (omega arith) (omega arith)

abbrev probing : Inner
probing = record {
  state = half_open;
  failure_count = 5;
  success_count = 1;
  half_open_requests = 3;
  last_failure_time = some 5;
}
