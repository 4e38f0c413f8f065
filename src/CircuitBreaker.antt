-- ===== src/CircuitBreaker.antt =====
-- packages/lightning-rust/src/circuit_breaker.rs: the client's circuit breaker. The mutex is held for a
-- whole operation. An instant is a number of milliseconds, and `now` is the clock's answer; counters
-- are 64 bits wide and wrap.
mod Invariant
mod Outcomes
mod Probing
mod Tests
use lightning_db.Prelude.{
  ℕ, ◌+◌, ◌-◌, ◌%◌, ◌^◌, Bool, true, false, Option, none, some, ltb, leb, if◌then◌else◌,
}

pub data CircuitState : Type 0 where
  closed open_circuit half_open : CircuitState

pub record CircuitBreakerConfig : Type 0 where
  pub failure_threshold : ℕ
  pub recovery_timeout : ℕ
  pub half_open_max_requests : ℕ
  pub success_threshold : ℕ

abbrev pub default_config : CircuitBreakerConfig
default_config = record {
  failure_threshold = 5;
  recovery_timeout = 30_000;
  half_open_max_requests = 3;
  success_threshold = 2;
}

pub record Inner : Type 0 where
  pub state : CircuitState
  pub failure_count : ℕ
  pub success_count : ℕ
  pub half_open_requests : ℕ
  pub last_failure_time : Option ℕ

abbrev pub new : Inner
new = record {
  state = closed;
  failure_count = 0;
  success_count = 0;
  half_open_requests = 0;
  last_failure_time = none;
}

abbrev pub increment : ℕ → ℕ
increment n = (n + 1) % 2 ^ 64

module _ (config : CircuitBreakerConfig) where
  -- In the open state: the first probe is let through once the timeout has passed.
  abbrev probe_when_due : ℕ → Inner → Option ℕ → Inner × Bool
  probe_when_due now inner none = (inner, false)
  probe_when_due now inner (some t) =
      if leb config.recovery_timeout (now - t)
      then (record inner { state = half_open; half_open_requests = 1; success_count = 0 }, true)
      else (inner, false)

  abbrev allow_in : CircuitState → ℕ → Inner → Inner × Bool
  allow_in closed now inner = (inner, true)
  allow_in open_circuit now inner = probe_when_due now inner inner.last_failure_time
  allow_in half_open now inner =
      if ltb inner.half_open_requests config.half_open_max_requests
      then (record inner { half_open_requests = increment inner.half_open_requests }, true)
      else (inner, false)

  unfoldable pub allow_request : ℕ → Inner → Inner × Bool
  allow_request now inner = allow_in inner.state now inner

  abbrev success_in : CircuitState → Inner → Inner
  success_in closed inner = record inner { failure_count = 0 }
  success_in half_open inner =
      let success_count = increment inner.success_count in
      if leb config.success_threshold success_count
      then record inner {
        state = closed;
        failure_count = 0;
        success_count = 0;
        half_open_requests = 0;
      }
      else record inner { success_count = success_count }
  success_in open_circuit inner = inner

  unfoldable pub on_success : Inner → Inner
  on_success inner = success_in inner.state inner

  abbrev failure_in : CircuitState → ℕ → Inner → Inner
  failure_in closed now inner =
      let failure_count = increment inner.failure_count in
      if leb config.failure_threshold failure_count
      then record inner {
        state = open_circuit;
        failure_count = failure_count;
        last_failure_time = some now;
      }
      else record inner { failure_count = failure_count; last_failure_time = some now }
  failure_in half_open now inner = record inner {
    state = open_circuit;
    last_failure_time = some now;
  }
  failure_in open_circuit now inner = record inner { last_failure_time = some now }

  unfoldable pub on_failure : ℕ → Inner → Inner
  on_failure now inner = failure_in inner.state now inner
