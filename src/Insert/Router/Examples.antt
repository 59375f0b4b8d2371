-- ===== src/Insert/Router/Examples.antt =====
-- Runs of Insert on two nodes that hold two partitions each, with two copies of every partition.
use prom_sketch_distributed.Cluster.Breaker.{allow}
use prom_sketch_distributed.Cluster.Partition.{
  Node, PartitionMapper, put_partition, put_id, replica_key, insert_score, sort_scores, candidates,
  get_partition_id, replica_score, get_nodes_for_partition,
}
use prom_sketch_distributed.Cluster.Health.{fresh_health, is_healthy}
use prom_sketch_distributed.Common.{
  lookup, adjust, ◌-ℤ◌, ℕ, String, ◌≡◌, refl, ◌↔◌, true, none, List, [], ◌∷◌, arith, str_eq,
  if◌then◌else◌, Elem, ℤ, pos, is_ok,
}
use prom_sketch_distributed.Insert.Router.{
  Label, Router, Reply, rpc_error, stored, to_pb_labels, choose_targets, finish_inserts,
  insert_nodes, start_insert, insert,
}
use prom_sketch_distributed.Insert.Router.Quorum.{
  Counted, targets_of, insert_quorum, insert-Counted,
}
use Prim.Native.String.{count as text_count}
use mathlib.Core.List.Perm

abbrev pub node_a : Node
node_a = record { id = "a"; address = "host-a"; partition_start = pos 0; partition_end = pos 2 }

abbrev pub node_b : Node
node_b = record { id = "b"; address = "host-b"; partition_start = pos 2; partition_end = pos 4 }

abbrev pub mapper : PartitionMapper
mapper = record {
  total_partitions = pos 4;
  nodes = node_a ∷ node_b ∷ [];
  nodes_by_id = put_id (put_id (λ _. none) node_a) node_b;
  partition_to_node =
      put_partition
        (put_partition (put_partition (put_partition (λ _. none) (pos 0) node_a) (pos 1) node_a)
          (pos 2) node_b)
        (pos 3) node_b;
}

abbrev pub sample_router : Router
sample_router = record {
  partitioner = mapper;
  clients = "a" ∷ "b" ∷ [];
  health_checker = record {
    nodes = ("a", fresh_health node_a 3 30) ∷ ("b", fresh_health node_b 3 30) ∷ [];
    check_interval = 10;
    check_timeout = 5;
  };
  replica_count = pos 2;
  metrics = record { samples_routed = 0; samples_failed = 0; rpcs_sent = 0; rpcs_failed = 0 };
}

abbrev pub sample_hash : String → ℕ
sample_hash s = text_count s

-- Stands for `Labels.Get`.
abbrev pub first_label : List Label → String → String
first_label [] k = ""
first_label (l ∷ ls) k = if str_eq l.name k then l.value else first_label ls k

abbrev pub up_labels : List Label
up_labels = record { name = "__name__"; value = "up" } ∷ []

-- Only `a` can be reached.
abbrev only_a : String → List Label → ℤ → ℕ → Reply
only_a id lbls t v = if str_eq id "a" then stored else rpc_error "refused"

abbrev in_order : List String → List String
in_order ids = ids

targets_run : targets_of sample_hash first_label (λ _. 7) sample_router up_labels ≡ "b" ∷ "a" ∷ []
unfolding targets_of start_insert insert_nodes get_nodes_for_partition get_partition_id sort_scores
    insert_score candidates replica_score replica_key is_healthy fresh_health allow lookup adjust
    ◌-ℤ◌
targets_run = refl

insert_quorum_example :
    (is_ok
        (insert sample_hash first_label
          (λ _. 7)
          (λ _. 8)
          in_order
          only_a
          sample_router
          up_labels
          (pos 5)
          1).1
      ≡ true)
    ↔ ((id : String) × Elem id (targets_of sample_hash first_label (λ _. 7) sample_router up_labels)
        × (only_a id (to_pb_labels up_labels) (pos 5) 1 ≡ stored))
insert_quorum_example =
    insert_quorum sample_hash first_label (λ _. 7) (λ _. 8) in_order (λ ids. Perm.refl ids) only_a
      sample_router up_labels (pos 5) 1 (omega arith)

insert-Counted_example :
    Counted
      (λ id. only_a id (to_pb_labels up_labels) (pos 5) 1)
      (targets_of sample_hash first_label (λ _. 7) sample_router up_labels)
      (is_ok
        (insert sample_hash first_label
          (λ _. 7)
          (λ _. 8)
          in_order
          only_a
          sample_router
          up_labels
          (pos 5)
          1).1)
      sample_router.metrics
      (insert sample_hash first_label
        (λ _. 7)
        (λ _. 8)
        in_order
        only_a
        sample_router
        up_labels
        (pos 5)
        1).0.metrics
insert-Counted_example =
    insert-Counted sample_hash first_label (λ _. 7) (λ _. 8) in_order (λ ids. Perm.refl ids) only_a
      sample_router up_labels (pos 5) 1 (omega arith)

insert_run :
    (insert sample_hash first_label
      (λ _. 7)
      (λ _. 8)
      in_order
      only_a
      sample_router
      up_labels
      (pos 5)
      1).0.metrics
    ≡ record { samples_routed = 1; samples_failed = 0; rpcs_sent = 2; rpcs_failed = 1 }
unfolding insert insert_nodes finish_inserts choose_targets get_nodes_for_partition get_partition_id
    sort_scores insert_score candidates replica_score replica_key is_healthy fresh_health allow
    lookup adjust ◌-ℤ◌
insert_run = refl
