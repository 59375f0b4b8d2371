-- ===== src/Startup/Examples.antt =====
-- A run of the start of an insert router for two nodes, in front of the nodes' servers.
use prom_sketch_distributed.Common.{
  String, ◌≡◌, refl, ◌↔◌, true, Option, none, some, [], ◌∷◌, Elem, pos, ok, is_ok,
}
use prom_sketch_distributed.Cluster.Partition.{Node, get_primary_node, get_partition_id}
use prom_sketch_distributed.Storage.{Storage}
use prom_sketch_distributed.Insert.Router.{Router, new_router, has_client}
use prom_sketch_distributed.Insert.Router.Examples.{
  node_a, node_b, mapper, sample_hash, first_label, up_labels,
}
use prom_sketch_distributed.Storage.Examples.{counting, mapper_accepted}
use prom_sketch_distributed.Server.Cluster.{Serves, rpc}
use prom_sketch_distributed.Server.Examples.{no_text, servers, nodes-Serves}
use prom_sketch_distributed.Startup.{
  ClusterConfig, to_nodes, to_hash_nodes, put_client, new_pool, assemble, start_router,
}
use prom_sketch_distributed.Startup.Serving.{start_router-insert}
use prom_sketch_distributed.Storage
use prom_sketch_distributed.Insert.Router
use mathlib.Core.List.Perm

abbrev two_nodes : ClusterConfig
two_nodes = record {
  total_partitions = pos 4;
  replication_factor = pos 2;
  discovery_type = "static";
  static_nodes =
      record {
        node_id = "a";
        node_address = "host-a";
        first_partition = pos 0;
        last_partition = pos 2;
      }
      ∷ record {
        node_id = "b";
        node_address = "host-b";
        first_partition = pos 2;
        last_partition = pos 4;
      }
      ∷ [];
  health_interval = 10;
  health_timeout = 5;
  health_failure_threshold = 3;
  breaker_failure_threshold = 5;
  breaker_timeout = 30;
}

-- Every address can be reached.
abbrev reached : String → Option String
reached address = none

same_nodes : to_hash_nodes two_nodes ≡ node_a ∷ node_b ∷ []
unfolding to_hash_nodes to_nodes
same_nodes = refl

pooled : new_pool reached (to_hash_nodes two_nodes) [] ≡ ok ("b" ∷ "a" ∷ [])
unfolding to_hash_nodes to_nodes new_pool put_client has_client
pooled = refl

started : start_router reached two_nodes ≡ ok (assemble two_nodes mapper ("b" ∷ "a" ∷ []))
unfolding start_router
started = rw (same_nodes, start_router) (rw mapper_accepted (rw pooled refl))

fresh_Serves :
    (n : Node)
    → Elem n (to_hash_nodes two_nodes)
    → Serves first_label mapper n up_labels (servers n.id)
fresh_Serves n m = nodes-Serves n (rw same_nodes at m)

start_router-insert_example :
    (is_ok
        (Router.insert sample_hash first_label
          (λ _. 7)
          (λ _. 8)
          (λ ids. ids)
          (rpc sample_hash first_label counting (λ ls. ls) no_text "lost" servers)
          (assemble two_nodes mapper ("b" ∷ "a" ∷ []))
          up_labels
          (pos 1)
          5).1
      ≡ true)
    ↔ ((n : Node) × (get_primary_node mapper
            (get_partition_id sample_hash mapper (first_label up_labels "__name__"))
          ≡ some n)
        × ((Storage.insert sample_hash first_label counting
              (servers n.id).storage
              up_labels
              (pos 1)
              5).1
            ≡ ok tt))
unfolding assemble new_router
start_router-insert_example =
    start_router-insert sample_hash first_label counting (λ ls. ls) no_text "lost" servers (λ _. 7)
      (λ _. 8) (λ ids. ids) reached two_nodes (assemble two_nodes mapper ("b" ∷ "a" ∷ [])) up_labels
      (pos 1) 5 (λ ids. Perm.refl ids) started (λ ls. refl) fresh_Serves
