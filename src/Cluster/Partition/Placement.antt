-- ===== src/Cluster/Partition/Placement.antt =====
-- partitioner.go: when NewPartitionMapper accepts a set of nodes, and where it places each partition.
use prom_sketch_distributed.Common.{
  ℕ, ◌%◌, ◌≤◌, String, ◌≡◌, refl, ◌∙◌, ◌≢◌, ◌↔◌, inl, inr, true, false, ◌&&◌, some, List, [], ◌∷◌,
  arith, Elem, ℤ, pos, negsuc, ◌≤ℤ◌, ◌<ℤ◌, ltb_ℤ, leb_ℤ, +ℤ_parts, -ℤ_parts, ok, Result-cases,
}
use prom_sketch_distributed.Cluster.Partition.{
  Node, owns_partition, PartitionMapper, rounds, assign_nodes, check_assigned, empty_mapper,
  new_partition_mapper, get_primary_node, to_uint64, get_partition_id, get_node_for_metric,
}
use prom_sketch_distributed.Cluster.Partition.Build.{
  in_range, check_assigned_ok, check_assigned_passes,
}
use prom_sketch_distributed.Cluster.Partition.Owners.{
  find_owner, owners, assign_nodes-Fits, assign_nodes_lookup, Fits-assign_nodes, find_owner-owners,
  find_owner_iff, assign_nodes-total_partitions,
}

-- The ranges tile the partitions: a positive total, at least one node, every partition of the total
-- in exactly one range, and nothing owned twice or past the total.
pub record IsTiling (total : ℤ) (nodes : List Node) : Type 0 where
  pub positive : pos 0 <ℤ total
  pub some_node : nodes ≢ []
  pub once : (q : ℤ) → owners q nodes ≤ 1
  pub bounded : (q : ℤ) → 1 ≤ owners q nodes → q <ℤ total
  pub covered : (q : ℤ) → pos 0 ≤ℤ q → q <ℤ total → owners q nodes ≡ 1

total_range :
    (total q : ℤ) → in_range (pos 0) (rounds (pos 0) total) q ≡ (leb_ℤ (pos 0) q && ltb_ℤ q total)
total_range total q =
    ground (arith, -ℤ_parts total (pos 0), +ℤ_parts (pos 0) (pos (rounds (pos 0) total)))

new_partition_mapper_inv :
    (total : ℤ) (nodes : List Node) (pm : PartitionMapper)
    → new_partition_mapper total nodes ≡ ok pm
    → (nodes ≢ [])
      × (pos 0 <ℤ total)
      × (assign_nodes (empty_mapper total nodes) nodes ≡ ok pm)
      × ((q : ℤ) → pos 0 ≤ℤ q → q <ℤ total → (n : Node) × (pm.partition_to_node q ≡ some n))
unfolding new_partition_mapper
new_partition_mapper_inv total [] pm e = absurd (ground arith)
new_partition_mapper_inv total (n ∷ ns) pm e =
    elim (Result-cases (assign_nodes (empty_mapper total (n ∷ ns)) (n ∷ ns))) [
      | inl (made, h) ↦
          let checked : check_assigned (rounds (pos 0) total) (pos 0) made ≡ ok pm =
            ground (arith, h) in
          let (same, covered) = check_assigned_ok _ _ made pm checked in
          (
            λ c. cc,
            ground (arith, h),
            rw same h,
            λ q low high. rw same (covered q (ground (arith, total_range total q))),
          )
      | inr (x, h) ↦ absurd (ground (arith, h))
    ]

-- NewPartitionMapper succeeds exactly when the nodes' ranges tile the partitions.
pub new_partition_mapper-IsTiling :
    (total : ℤ) (nodes : List Node)
    → ((pm : PartitionMapper) × (new_partition_mapper total nodes ≡ ok pm)) ↔ IsTiling total nodes
unfolding new_partition_mapper
new_partition_mapper-IsTiling total nodes = (tiles, accepts nodes)
  where
    tiles :
        ((pm : PartitionMapper) × (new_partition_mapper total nodes ≡ ok pm)) → IsTiling total nodes
    tiles (pm, e) =
        let (nonempty, positive, made, covered) = new_partition_mapper_inv total nodes pm e in
        let f = assign_nodes-Fits (empty_mapper total nodes) pm nodes made in
        record {
          positive = positive;
          some_node = nonempty;
          once = λ q. omega (arith, f.once q);
          bounded = f.bounded;
          covered = λ q low high. ground (
            arith,
            covered q low high,
            f.once q,
            find_owner-owners q nodes,
            assign_nodes_lookup (empty_mapper total nodes) pm nodes made q,
          );
        }

    accepts :
        (ns : List Node)
        → IsTiling total ns
        → (pm : PartitionMapper) × (new_partition_mapper total ns ≡ ok pm)
    accepts [] t = absurd (t.some_node refl)
    accepts (n ∷ ns) t =
        let (pm, made) =
          Fits-assign_nodes (empty_mapper total (n ∷ ns)) (n ∷ ns)
            (record { once = λ q. omega (arith, t.once q); bounded = t.bounded }) in
        let refused : leb_ℤ total (pos 0) ≡ false = ground (arith, t.positive) in
        (
          pm,
          rw (refused, made)
              (check_assigned_passes _ _ pm λ q h. elim (find_owner-owners q (n ∷ ns)) [
                | inl (_, alone) ↦ absurd (ground (arith, total_range total q, t.covered q))
                | inr (x, found, _) ↦ (
                  x,
                  assign_nodes_lookup (empty_mapper total (n ∷ ns)) pm (n ∷ ns) made q ∙ found,
                )
              ]),
        )

-- In an accepted mapper the primary node of a partition is `n` exactly when `n` is one of the nodes
-- and its range holds the partition; so a partition has at most one such node.
pub get_primary_node_iff :
    (total : ℤ) (nodes : List Node) (pm : PartitionMapper)
    → new_partition_mapper total nodes ≡ ok pm
    → (q : ℤ) (n : Node)
    → (get_primary_node pm q ≡ some n) ↔ (Elem n nodes × (owns_partition n q ≡ true))
unfolding get_primary_node
get_primary_node_iff total nodes pm e q n =
    let (_, _, made, _) = new_partition_mapper_inv total nodes pm e in
    let f = assign_nodes-Fits (empty_mapper total nodes) pm nodes made in
    rw (assign_nodes_lookup (empty_mapper total nodes) pm nodes made q)
      (find_owner_iff q n nodes (omega (arith, f.once q)))

pub mapper_fields :
    (total : ℤ) (nodes : List Node) (pm : PartitionMapper)
    → new_partition_mapper total nodes ≡ ok pm
    → (pm.total_partitions ≡ total) × (pm.nodes ≡ nodes)
mapper_fields total nodes pm e =
    let (_, _, made, _) = new_partition_mapper_inv total nodes pm e in
    assign_nodes-total_partitions (empty_mapper total nodes) pm nodes made

-- The table of an accepted mapper, as a function of the nodes.
pub get_primary_node-find_owner :
    (total : ℤ) (nodes : List Node) (pm : PartitionMapper)
    → new_partition_mapper total nodes ≡ ok pm
    → (q : ℤ) → get_primary_node pm q ≡ find_owner q nodes
unfolding get_primary_node
get_primary_node-find_owner total nodes pm e q =
    let (_, _, made, _) = new_partition_mapper_inv total nodes pm e in
    assign_nodes_lookup (empty_mapper total nodes) pm nodes made q

in_total : (total : ℤ) (h : ℕ) (t : ℤ) → pos 0 <ℤ total → t ≡ total → pos (h % to_uint64 t) <ℤ total
in_total (pos k) h t positive e = rw e (omega arith)
in_total (negsuc k) h t positive e = absurd (omega arith)

-- Every metric name hashes to a partition of the total, and an accepted mapper has a node for it,
-- whose range holds that partition.
pub get_node_for_metric_total :
    (xxhash : String → ℕ) (total : ℤ) (nodes : List Node) (pm : PartitionMapper)
    (metric_name : String)
    → new_partition_mapper total nodes ≡ ok pm
    → (n : Node) × (get_node_for_metric xxhash pm metric_name ≡ some n)
      × (owns_partition n (get_partition_id xxhash pm metric_name) ≡ true)
      × (get_partition_id xxhash pm metric_name <ℤ total)
unfolding get_node_for_metric get_primary_node
get_node_for_metric_total xxhash total nodes pm name e =
    let (_, positive, made, covered) = new_partition_mapper_inv total nodes pm e in
    let same = assign_nodes-total_partitions (empty_mapper total nodes) pm nodes made in
    let below : get_partition_id xxhash pm name <ℤ total =
      in_total total (xxhash name) pm.total_partitions positive same.0 in
    let (n, found) = covered (get_partition_id xxhash pm name) (omega arith) below in
    let owner =
      (get_primary_node_iff total nodes pm e (get_partition_id xxhash pm name) n).0 found in
    (n, found, owner.1, below)
