-- ===== src/Cluster/Partition/Replicas.antt =====
-- partitioner.go, GetNodesForPartition: the primary and the replicas that it chooses.
use prom_sketch_distributed.Common.{
  ◌-ℤ◌, ℕ, ◌-◌, ◌≤◌, min, String, ◌≡◌, ◌⊎◌, some, List, [], ◌∷◌, ◌++◌, arith, length, take, drop,
  take-append-drop, length-take, All, ℤ, pos, pos_part, ◌≤ℤ◌, -ℤ_parts,
}
use prom_sketch_distributed.Cluster.Partition.{
  Node, PartitionMapper, get_primary_node, candidates, replica_score, ranking,
  get_nodes_for_partition,
}
use prom_sketch_distributed.Cluster.Partition.Ranking.{
  Descending, sort_scores-Descending, sort_scores-perm, length-sort_scores,
}
use mathlib.Core.List.{Perm}

-- Nothing that was left out scores more than anything that was chosen.
abbrev pub Outranks : (Node → ℕ) → List Node → List Node → Type 0
Outranks score chosen rest = All (λ c. All (λ d. score d ≤ score c) rest) chosen

module _ (score : Node → ℕ) where
  All-append_right : (P : Node → Type 0) (xs ys : List Node) → All P (xs ++ ys) → All P ys
  All-append_right P [] ys a = a
  All-append_right P (x ∷ xs) ys a = All-append_right P xs ys a.1

  Descending-Outranks : (xs ys : List Node) → Descending score (xs ++ ys) → Outranks score xs ys
  Descending-Outranks [] ys d = tt
  Descending-Outranks (x ∷ xs) ys d =
      (All-append_right (λ y. score y ≤ score x) xs ys d.0, Descending-Outranks xs ys d.1)

more_replicas : (r : ℤ) → pos 2 ≤ℤ r → pos_part (r -ℤ pos 1) ≡ pos_part r - 1
unfolding ◌-ℤ◌
more_replicas r h = ground arith

module _ (xxhash : String → ℕ) (pm : PartitionMapper) (p replica_count : ℤ) (primary : Node)
    (owned : get_primary_node pm p ≡ some primary) where
  -- With a replica count of one or less, or a single node, the primary alone holds the partition.
  pub get_nodes_for_partition_single :
      (replica_count ≤ℤ pos 1) ⊎ (length pm.nodes ≤ 1)
      → get_nodes_for_partition xxhash pm p replica_count ≡ primary ∷ []
  unfolding get_nodes_for_partition get_primary_node
  get_nodes_for_partition_single h = rw (owned, get_nodes_for_partition) (ground arith)

  -- For a partition with a primary node, two or more copies wanted and two or more nodes, the primary
  -- comes first, and after it as many of the other nodes as are wanted and there are, such that no
  -- other node left out has a higher rendezvous score than one chosen.
  pub get_nodes_for_partition-replicas :
      pos 2 ≤ℤ replica_count
      → 2 ≤ length pm.nodes
      → (chosen rest : List Node) × (get_nodes_for_partition xxhash pm p replica_count
          ≡ primary ∷ chosen)
        × Perm (chosen ++ rest) (candidates primary pm.nodes)
        × (length chosen ≡ min (pos_part replica_count - 1) (length (candidates primary pm.nodes)))
        × Outranks (replica_score xxhash p) chosen rest
  unfolding get_nodes_for_partition get_primary_node
  get_nodes_for_partition-replicas wanted several =
      let score = replica_score xxhash p in
      let ranked = ranking xxhash pm p primary in
      let k = pos_part (replica_count -ℤ pos 1) in
      (
        take k ranked,
        drop k ranked,
        rw (owned, get_nodes_for_partition) (ground (arith, -ℤ_parts replica_count (pos 1))),
        rw take-append-drop (sort_scores-perm score [] (candidates primary pm.nodes)),
        omega (
          arith,
          length-take k ranked,
          length-sort_scores score [] (candidates primary pm.nodes),
          more_replicas replica_count wanted,
        ),
        Descending-Outranks score (take k ranked) (drop k ranked) (
            rw take-append-drop (sort_scores-Descending score [] (candidates primary pm.nodes) tt)),
      )
