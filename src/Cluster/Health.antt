-- ===== src/Cluster/Health.antt =====
-- internal/cluster/health/checker.go. The map of nodes holds pointers, so a call changes the entry
-- in place. The outcome of a check is an argument (`none` for no error); the timer that calls
-- checkAll, and the locks, are not modelled: each call is one step.
pub mod Verdicts
mod Examples
use prom_sketch_distributed.Common.{
  lookup, put, adjust, ℕ, ◌*◌, String, Bool, true, false, Option, none, some, List, [], ◌∷◌, map,
  ◌==◌, if◌then◌else◌,
}
use prom_sketch_distributed.Cluster.Partition.{Node}
use prom_sketch_distributed.Cluster.Breaker.{
  state_open, CircuitBreaker, new_circuit_breaker, allow, get_state,
}
use prom_sketch_distributed.Cluster.Breaker

pub record NodeHealth : Type 0 where
  pub node_id : String
  pub address : String
  pub healthy : Bool
  pub circuit_breaker : CircuitBreaker
  pub last_check_time : ℕ
  pub last_error : Option String

pub record HealthChecker : Type 0 where
  pub nodes : List (String × NodeHealth)
  pub check_interval : ℕ
  pub check_timeout : ℕ

pub record HealthCheckerConfig : Type 0 where
  pub interval : ℕ
  pub timeout : ℕ
  pub failure_threshold : ℕ
  pub circuit_timeout : ℕ

abbrev pub second : ℕ
second = 1_000_000_000

abbrev pub or_default : ℕ → ℕ → ℕ
or_default n default = if n == 0 then default else n

-- The configuration that the constructor leaves behind; it writes its defaults into the argument.
unfoldable pub with_defaults : HealthCheckerConfig → HealthCheckerConfig
with_defaults cfg = record {
  interval = or_default cfg.interval (10 * second);
  timeout = or_default cfg.timeout (5 * second);
  failure_threshold = or_default cfg.failure_threshold 3;
  circuit_timeout = or_default cfg.circuit_timeout (30 * second);
}

unfoldable pub new_health_checker : HealthCheckerConfig → HealthChecker
unfolding with_defaults
new_health_checker cfg = record {
  nodes = [];
  check_interval = (with_defaults cfg).interval;
  check_timeout = (with_defaults cfg).timeout;
}

unfoldable pub fresh_health : Node → ℕ → ℕ → NodeHealth
unfolding new_circuit_breaker
fresh_health n failure_threshold circuit_timeout = record {
  node_id = n.id;
  address = n.address;
  healthy = true;
  circuit_breaker = new_circuit_breaker failure_threshold circuit_timeout;
  last_check_time = 0;
  last_error = none;
}

unfoldable pub register_nodes : HealthChecker → List Node → ℕ → ℕ → HealthChecker
register_nodes hc [] failure_threshold circuit_timeout = hc
register_nodes hc (n ∷ ns) failure_threshold circuit_timeout =
    register_nodes
      (record hc { nodes = put n.id (fresh_health n failure_threshold circuit_timeout) hc.nodes })
      ns failure_threshold circuit_timeout

unfoldable pub check_node : ℕ → Option String → NodeHealth → NodeHealth
check_node now (some e) nh = record nh {
  last_check_time = now;
  last_error = some e;
  circuit_breaker = Breaker.record_failure now nh.circuit_breaker;
  healthy = false;
}
check_node now none nh = record nh {
  last_check_time = now;
  last_error = none;
  circuit_breaker = Breaker.record_success nh.circuit_breaker;
  healthy = true;
}

-- One goroutine for each node, and each touches its own entry only.
unfoldable pub check_all : ℕ → (String → Option String) → HealthChecker → HealthChecker
unfolding check_node
check_all now check hc = record hc {
  nodes = map (λ (i, nh). (i, check_node now (check nh.address) nh)) hc.nodes;
}

abbrev pub with_breaker : NodeHealth → CircuitBreaker → NodeHealth
with_breaker nh cb = record nh { circuit_breaker = cb }

-- A breaker is asked only if the node is marked healthy; asking may change it.
unfoldable pub is_healthy : ℕ → HealthChecker → String → HealthChecker × Bool
is_healthy now hc id = elim (lookup id hc.nodes) [
  | none ↦ (hc, false)
  | some nh ↦
      if nh.healthy
      then (
        record hc {
          nodes = adjust id (λ h. with_breaker h (allow now h.circuit_breaker).0) hc.nodes;
        },
        (allow now nh.circuit_breaker).1,
      )
      else (hc, false)
]

unfoldable pub fail_node : ℕ → NodeHealth → NodeHealth
fail_node now nh =
    let failed = Breaker.record_failure now nh.circuit_breaker in
    elim (get_state failed) [
      | state_open ↦ record nh { circuit_breaker = failed; healthy = false }
      | _ ↦ record nh { circuit_breaker = failed }
    ]

unfoldable pub succeed_node : NodeHealth → NodeHealth
succeed_node nh = record nh {
  circuit_breaker = Breaker.record_success nh.circuit_breaker;
  healthy = true;
}

-- RecordFailure and RecordSuccess of the checker.
unfoldable pub record_failure : ℕ → HealthChecker → String → HealthChecker
record_failure now hc id = record hc { nodes = adjust id (fail_node now) hc.nodes }

unfoldable pub record_success : HealthChecker → String → HealthChecker
record_success hc id = record hc { nodes = adjust id succeed_node hc.nodes }

unfoldable pub get_health_status : HealthChecker → List (String × Bool)
get_health_status hc = map (λ (i, nh). (i, nh.healthy)) hc.nodes
