-- ===== src/Startup/Fresh.antt =====
-- The insert router right after its start.
use prom_sketch_distributed.Common.{
  ◌-ℤ◌, ℕ, String, ◌≡◌, refl, subst, inl, inr, true, ◌||◌, Option, some, List, [], ◌∷◌, arith,
  eq_iff, leb, Bool-cases, Option-cases, length, take, Elem, ℤ, pos, pos_part, leb_ℤ, Result, ok,
  err, Result-cases,
}
use prom_sketch_distributed.Cluster.Partition.{
  Node, PartitionMapper, new_partition_mapper, get_primary_node, get_partition_id, ranking,
  get_nodes_for_partition, get_node_for_metric,
}
use prom_sketch_distributed.Insert.Router.{
  Label, Router, new_router, has_client, choose_targets, insert_nodes, start_insert,
}
use prom_sketch_distributed.Startup.{
  ClusterConfig, to_hash_nodes, StartError, put_client, new_pool, assemble, start_router,
}
use prom_sketch_distributed.Cluster.Partition.Placement.{
  get_primary_node_iff, get_node_for_metric_total,
}
use prom_sketch_distributed.Cluster.Health.{HealthChecker, is_healthy}
use prom_sketch_distributed.Cluster.Health.Verdicts.{register_nodes-is_healthy}
use prom_sketch_distributed.Insert.Router.Quorum.{targets_of}

ok_same : {A : Type 0} {a b : A} → ◌≡◌ {A = Result StartError A} (ok a) (ok b) → a ≡ b
ok_same e = cc

err_ok : {A : Type 0} {x : StartError} {a : A} → ¬ (◌≡◌ {A = Result StartError A} (err x) (ok a))
err_ok e = cc

has_client-put :
    (id j : String) (clients : List String)
    → has_client clients j ≡ true
    → has_client (put_client id clients) j ≡ true
unfolding put_client has_client
has_client-put id j clients h = ground (arith, h)

has_client-same :
    (id : String) (clients : List String) → has_client (put_client id clients) id ≡ true
unfolding put_client has_client
has_client-same id clients = ground (arith, eq_iff id id)

new_pool-kept :
    (connect : String → Option String) (ns : List Node) (clients all : List String) (j : String)
    → new_pool connect ns clients ≡ ok all
    → has_client clients j ≡ true
    → has_client all j ≡ true
unfolding new_pool
new_pool-kept connect [] clients all j e h = rw (ok_same e) at h
new_pool-kept connect (n ∷ ns) clients all j e h = elim (Option-cases (connect n.address)) [
  | inr (x, failed) ↦ absurd (err_ok (rw (failed, new_pool) at e))
  | inl fine ↦
      new_pool-kept connect ns (put_client n.id clients) all j (rw (fine, new_pool) at e)
        (has_client-put n.id j clients h)
]

-- Every node has a client.
pub new_pool-Elem :
    (connect : String → Option String) (ns : List Node) (clients all : List String) (n : Node)
    → new_pool connect ns clients ≡ ok all
    → Elem n ns
    → has_client all n.id ≡ true
unfolding new_pool
new_pool-Elem connect [] clients all n e m = absurd m
new_pool-Elem connect (x ∷ ns) clients all n e m = elim (Option-cases (connect x.address)) [
  | inr (y, failed) ↦ absurd (err_ok (rw (failed, new_pool) at e))
  | inl fine ↦ elim m [
    | inl same ↦
        new_pool-kept connect ns (put_client x.id clients) all n.id (rw (fine, new_pool) at e)
          (rw same (has_client-same x.id clients))
    | inr there ↦
        new_pool-Elem connect ns (put_client x.id clients) all n (rw (fine, new_pool) at e) there
  ]
]

-- What a start that came through has made.
pub record Started (connect : String → Option String) (c : ClusterConfig) (r : Router)
    : Type 0 where
  pub pm : PartitionMapper
  pub all : List String
  pub mapped : new_partition_mapper c.total_partitions (to_hash_nodes c) ≡ ok pm
  pub pooled : new_pool connect (to_hash_nodes c) [] ≡ ok all
  pub made : assemble c pm all ≡ r

pub start_router-Started :
    (connect : String → Option String) (c : ClusterConfig) (r : Router)
    → start_router connect c ≡ ok r
    → Started connect c r
unfolding start_router
start_router-Started connect c r e =
    elim (Result-cases (new_partition_mapper c.total_partitions (to_hash_nodes c))) [
      | inr (x, failed) ↦ absurd (err_ok (rw (failed, start_router) at e))
      | inl (pm, mapped) ↦ elim (Result-cases (new_pool connect (to_hash_nodes c) [])) [
        | inr (x, failed) ↦ absurd (err_ok (rw failed at (rw (mapped, start_router) at e)))
        | inl (all, pooled) ↦ record {
          pm = pm;
          all = all;
          mapped = mapped;
          pooled = pooled;
          made = ok_same (rw pooled at (rw (mapped, start_router) at e));
        }
      ]
    ]

first_target :
    (asked : String → ℕ) (clients : List String) (hc : HealthChecker) (n : Node) (ns : List Node)
    → (is_healthy (asked n.id) hc n.id).1 ≡ true
    → has_client clients n.id ≡ true
    → Elem n.id (choose_targets asked clients hc (n ∷ ns)).1
unfolding choose_targets
first_target asked clients hc n ns healthy there =
    rw (healthy, choose_targets) (rw there (inl refl))

primary_first :
    (xxhash : String → ℕ) (pm : PartitionMapper) (p replica_count : ℤ) (primary : Node)
    → get_primary_node pm p ≡ some primary
    → (rest : List Node) × (get_nodes_for_partition xxhash pm p replica_count ≡ primary ∷ rest)
unfolding get_nodes_for_partition get_primary_node
primary_first xxhash pm p replica_count primary owned =
    elim (Bool-cases (leb_ℤ replica_count (pos 1) || leb (length pm.nodes) 1)) [
      | inl one ↦ ([], rw (owned, get_nodes_for_partition) (rw one refl))
      | inr several ↦ (
        take (pos_part (replica_count -ℤ pos 1)) (ranking xxhash pm p primary),
        rw (owned, get_nodes_for_partition) (rw several refl),
      )
    ]

fresh_target :
    (xxhash : String → ℕ) (get_label : List Label → String → String) (asked : String → ℕ)
    (connect : String → Option String) (c : ClusterConfig) (pm : PartitionMapper)
    (all : List String) (lbls : List Label) (primary : Node)
    → new_partition_mapper c.total_partitions (to_hash_nodes c) ≡ ok pm
    → new_pool connect (to_hash_nodes c) [] ≡ ok all
    → get_primary_node pm (get_partition_id xxhash pm (get_label lbls "__name__")) ≡ some primary
    → Elem primary.id (targets_of xxhash get_label asked (assemble c pm all) lbls)
unfolding targets_of start_insert insert_nodes assemble new_router get_nodes_for_partition
fresh_target xxhash get_label asked connect c pm all lbls primary mapped pooled owned =
    let p = get_partition_id xxhash pm (get_label lbls "__name__") in
    let member =
      ((get_primary_node_iff c.total_partitions (to_hash_nodes c) pm mapped p primary).0 owned).0 in
    let (rest, nodes) = primary_first xxhash pm p c.replication_factor primary owned in
    rw nodes (
      first_target asked all _ primary rest
        (register_nodes-is_healthy _ (to_hash_nodes c) c.breaker_failure_threshold c.breaker_timeout
          (asked primary.id) primary member)
        (new_pool-Elem connect (to_hash_nodes c) [] all primary pooled member))

-- A router right after a start that came through sends every sample to the primary node of its
-- partition, and there is such a node: every node of the configuration is taken for healthy and has
-- a client.
pub start_router-primary :
    (xxhash : String → ℕ) (get_label : List Label → String → String) (asked : String → ℕ)
    (connect : String → Option String) (c : ClusterConfig) (r : Router) (lbls : List Label)
    → start_router connect c ≡ ok r
    → (primary : Node) × (get_primary_node r.partitioner
          (get_partition_id xxhash r.partitioner (get_label lbls "__name__"))
        ≡ some primary)
      × Elem primary.id (targets_of xxhash get_label asked r lbls)
unfolding get_node_for_metric assemble new_router
start_router-primary xxhash get_label asked connect c r lbls e =
    let w = start_router-Started connect c r e in
    let (primary, owned, _, _) =
      get_node_for_metric_total xxhash c.total_partitions (to_hash_nodes c) w.pm
        (get_label lbls "__name__") w.mapped in
    subst
      (λ x.
        (n : Node) × (get_primary_node x.partitioner
            (get_partition_id xxhash x.partitioner (get_label lbls "__name__"))
          ≡ some n)
        × Elem n.id (targets_of xxhash get_label asked x lbls))
      w.made
      (
        primary,
        owned,
        fresh_target xxhash get_label asked connect c w.pm w.all lbls primary w.mapped w.pooled
            owned,
      )
