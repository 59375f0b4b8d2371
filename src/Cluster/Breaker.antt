-- ===== src/Cluster/Breaker.antt =====
-- internal/cluster/health/circuit_breaker.go. The clock is an argument, in nanoseconds since Go's
-- zero time; the timeout is not negative, and a negative threshold acts as the threshold 0.
pub mod Transitions
mod Examples
use prom_sketch_distributed.Common.{ℕ, ◌+◌, ◌-◌, Bool, true, false, ltb, leb, if◌then◌else◌}

pub data State : Type 0 where
  state_closed state_open state_half_open : State

pub record CircuitBreaker : Type 0 where
  pub state : State
  pub failures : ℕ
  pub successes : ℕ
  pub threshold : ℕ
  pub timeout : ℕ
  pub last_fail_time : ℕ

unfoldable pub new_circuit_breaker : ℕ → ℕ → CircuitBreaker
new_circuit_breaker failure_threshold timeout = record {
  state = state_closed;
  failures = 0;
  successes = 0;
  threshold = failure_threshold;
  timeout = timeout;
  last_fail_time = 0;
}

-- Allow: the breaker afterwards, and whether the request may go through.
unfoldable pub allow : ℕ → CircuitBreaker → CircuitBreaker × Bool
allow now cb = elim cb.state [
  | state_closed ↦ (cb, true)
  | state_open ↦
      if ltb cb.timeout (now - cb.last_fail_time)
      then (record cb { state = state_half_open; successes = 0 }, true)
      else (cb, false)
  | state_half_open ↦ (cb, true)
]

unfoldable pub record_success : CircuitBreaker → CircuitBreaker
record_success cb =
    let counted = record cb { failures = 0; successes = cb.successes + 1 } in
    elim cb.state [
      | state_half_open ↦
          if leb 2 (cb.successes + 1)
          then record counted { state = state_closed; successes = 0 }
          else counted
      | _ ↦ counted
    ]

unfoldable pub record_failure : ℕ → CircuitBreaker → CircuitBreaker
record_failure now cb =
    let counted = record cb { failures = cb.failures + 1; successes = 0; last_fail_time = now } in
    if leb cb.threshold (cb.failures + 1) then record counted { state = state_open } else counted

unfoldable pub get_state : CircuitBreaker → State
get_state cb = cb.state

unfoldable pub reset : CircuitBreaker → CircuitBreaker
reset cb = record cb { state = state_closed; failures = 0; successes = 0 }
