-- ===== src/Cluster/Partition/Examples.antt =====
-- Runs of the partition mapper on a cluster of three nodes and six partitions.
use prom_sketch_distributed.Common.{
  ◌+ℤ◌, ◌-ℤ◌, ℕ, ◌-◌, ◌*◌, min, String, ◌≡◌, refl, true, none, some, List, [], ◌∷◌, ◌++◌, arith,
  length, pos, ◌<ℤ◌, ok, err,
}
use prom_sketch_distributed.Cluster.Partition.{
  Node, owns_partition, assigned_twice, unassigned, PartitionMapper, put_partition, put_id,
  assign_range, assign_nodes, check_assigned, new_partition_mapper, get_primary_node, replica_key,
  insert_score, sort_scores, candidates, get_partition_id, replica_score, get_nodes_for_partition,
  get_node_for_metric,
}
use prom_sketch_distributed.Cluster.Partition.Placement.{
  IsTiling, new_partition_mapper-IsTiling, get_node_for_metric_total,
}
use prom_sketch_distributed.Cluster.Partition.Replicas.{Outranks, get_nodes_for_partition-replicas}
use Prim.Native.String.{count}
use mathlib.Core.List.{Perm}

abbrev node_of : String → ℕ → ℕ → Node
node_of i low high = record {
  id = i;
  address = i;
  partition_start = pos low;
  partition_end = pos high;
}

abbrev three_nodes : List Node
three_nodes = node_of "a" 0 2 ∷ node_of "b" 2 4 ∷ node_of "c" 4 6 ∷ []

abbrev built : PartitionMapper
built = record {
  total_partitions = pos 6;
  nodes = three_nodes;
  nodes_by_id =
      put_id (put_id (put_id (λ _. none) (node_of "a" 0 2)) (node_of "b" 2 4)) (node_of "c" 4 6);
  partition_to_node =
      put_partition
        (put_partition
          (put_partition
            (put_partition
              (put_partition (put_partition (λ _. none) (pos 0) (node_of "a" 0 2)) (pos 1)
                (node_of "a" 0 2))
              (pos 2) (node_of "b" 2 4))
            (pos 3) (node_of "b" 2 4))
          (pos 4) (node_of "c" 4 6))
        (pos 5) (node_of "c" 4 6);
}

built_accepted : new_partition_mapper (pos 6) three_nodes ≡ ok built
unfolding new_partition_mapper assign_nodes assign_range check_assigned ◌+ℤ◌ ◌-ℤ◌
built_accepted = refl

-- A length-based hash stands for xxhash.
abbrev sample_hash : String → ℕ
sample_hash s = count s * 7

new_partition_mapper-IsTiling_example : IsTiling (pos 6) three_nodes
new_partition_mapper-IsTiling_example =
    (new_partition_mapper-IsTiling (pos 6) three_nodes).0 (built, built_accepted)

get_node_for_metric_total_example :
    (n : Node) × (get_node_for_metric sample_hash built "up" ≡ some n)
    × (owns_partition n (get_partition_id sample_hash built "up") ≡ true)
    × (get_partition_id sample_hash built "up" <ℤ pos 6)
get_node_for_metric_total_example =
    get_node_for_metric_total sample_hash (pos 6) three_nodes built "up" built_accepted

get_nodes_for_partition-replicas_example :
    (chosen rest : List Node) × (get_nodes_for_partition sample_hash built (pos 3) (pos 2)
      ≡ node_of "b" 2 4 ∷ chosen)
    × Perm (chosen ++ rest) (candidates (node_of "b" 2 4) three_nodes)
    × (length chosen ≡ min (2 - 1) (length (candidates (node_of "b" 2 4) three_nodes)))
    × Outranks (replica_score sample_hash (pos 3)) chosen rest
get_nodes_for_partition-replicas_example =
    get_nodes_for_partition-replicas sample_hash built (pos 3) (pos 2) (node_of "b" 2 4)
      (unfold get_primary_node in refl) (omega arith) (omega arith)

replicas_run :
    get_nodes_for_partition sample_hash built (pos 3) (pos 2)
    ≡ node_of "b" 2 4 ∷ node_of "a" 0 2 ∷ []
unfolding get_nodes_for_partition sort_scores insert_score candidates replica_score replica_key ◌-ℤ◌
replicas_run = refl

-- Two ranges that overlap, and a partition that no range holds, are refused.
overlap_refused :
    new_partition_mapper (pos 4) (node_of "a" 0 3 ∷ node_of "b" 2 4 ∷ [])
    ≡ err (assigned_twice (pos 2) (node_of "a" 0 3) (node_of "b" 2 4))
unfolding new_partition_mapper assign_nodes assign_range check_assigned ◌+ℤ◌ ◌-ℤ◌
overlap_refused = refl

gap_refused :
    new_partition_mapper (pos 4) (node_of "a" 0 1 ∷ node_of "b" 2 4 ∷ []) ≡ err (unassigned (pos 1))
unfolding new_partition_mapper assign_nodes assign_range check_assigned ◌+ℤ◌ ◌-ℤ◌
gap_refused = refl
