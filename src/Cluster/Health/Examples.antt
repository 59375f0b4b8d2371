-- ===== src/Cluster/Health/Examples.antt =====
-- Runs of the health checker with two nodes.
use prom_sketch_distributed.Cluster.Partition.{Node}
use prom_sketch_distributed.Common.{
  lookup, put, String, ◌≡◌, refl, false, Option, none, some, [], ◌∷◌, arith, str_eq, if◌then◌else◌,
  pos,
}
use prom_sketch_distributed.Cluster.Health.{HealthChecker, fresh_health, register_nodes, is_healthy}
use prom_sketch_distributed.Cluster.Health.Verdicts.{report_failures, report_failures-is_healthy}

abbrev node_a : Node
node_a = record { id = "a"; address = "host-a"; partition_start = pos 0; partition_end = pos 2 }

abbrev node_b : Node
node_b = record { id = "b"; address = "host-b"; partition_start = pos 2; partition_end = pos 4 }

abbrev no_entries : HealthChecker
no_entries = record { nodes = []; check_interval = 10; check_timeout = 5 }

abbrev two_nodes : HealthChecker
two_nodes = record no_entries {
  nodes = ("a", fresh_health node_a 3 30) ∷ ("b", fresh_health node_b 3 30) ∷ [];
}

register_run : register_nodes no_entries (node_a ∷ node_b ∷ []) 3 30 ≡ two_nodes
unfolding register_nodes fresh_health put
register_run = refl

report_failures-is_healthy_example :
    (is_healthy 1000 (report_failures two_nodes "a" (1 ∷ 2 ∷ 3 ∷ [])) "a").1 ≡ false
unfolding fresh_health lookup
report_failures-is_healthy_example =
    report_failures-is_healthy two_nodes "a" (fresh_health node_a 3 30) (1 ∷ 2 ∷ 3 ∷ []) 1000 refl
      (omega arith) (omega arith)

abbrev only_a_down : String → Option String
only_a_down address = if str_eq address "host-a" then some "refused" else none
