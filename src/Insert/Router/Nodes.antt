-- ===== src/Insert/Router/Nodes.antt =====
-- partitioner.go and router.go: the nodes that Insert sends a sample to, as nodes of the mapper.
use prom_sketch_distributed.Common.{
  ℕ, zero, suc, String, ◌≡◌, refl, sym, subst, ◌⊎◌, inl, inr, ◌&&◌, ◌||◌, some, List, [], ◌∷◌,
  str_eq, ltb, leb, Bool-cases, length, take, Elem, ℤ, pos, leb_ℤ, ok,
}
use prom_sketch_distributed.Cluster.Partition.{
  Node, PartitionMapper, new_partition_mapper, get_primary_node, insert_score, sort_scores,
  candidates, get_partition_id, replica_score, ranking, get_nodes_for_partition,
  get_node_for_metric,
}
use prom_sketch_distributed.Cluster.Partition.Placement.{
  get_primary_node_iff, mapper_fields, get_node_for_metric_total,
}
use prom_sketch_distributed.Cluster.Health.{HealthChecker, is_healthy}
use prom_sketch_distributed.Insert.Router.{
  Label, Router, has_client, choose_targets, insert_nodes, start_insert,
}
use prom_sketch_distributed.Insert.Router.Quorum.{targets_of}

-- The nodes that the router may send a sample to are nodes of its mapper.
Elem-take : {A : Type 0} (a : A) (n : ℕ) (xs : List A) → Elem a (take n xs) → Elem a xs
Elem-take a zero xs m = absurd m
Elem-take a (suc n) [] m = m
Elem-take a (suc n) (x ∷ xs) (inl e) = inl e
Elem-take a (suc n) (x ∷ xs) (inr m) = inr (Elem-take a n xs m)

Elem-insert_score :
    (score : Node → ℕ) (a x : Node) (ys : List Node)
    → Elem a (insert_score score x ys)
    → (a ≡ x) ⊎ Elem a ys
unfolding insert_score
Elem-insert_score score a x [] m = m
Elem-insert_score score a x (y ∷ ys) m = elim (Bool-cases (ltb (score y) (score x))) [
  | inl e ↦ rw (e, insert_score) at m
  | inr e ↦ elim (rw (e, insert_score) at m) [
    | inl here ↦ inr (inl here)
    | inr there ↦ elim (Elem-insert_score score a x ys there) [
      | inl h ↦ inl h
      | inr h ↦ inr (inr h)
    ]
  ]
]

Elem-sort_scores :
    (score : Node → ℕ) (a : Node) (sorted xs : List Node)
    → Elem a (sort_scores score sorted xs)
    → Elem a sorted ⊎ Elem a xs
unfolding sort_scores
Elem-sort_scores score a sorted [] m = inl m
Elem-sort_scores score a sorted (x ∷ xs) m =
    elim (Elem-sort_scores score a (insert_score score x sorted) xs m) [
      | inl h ↦ elim (Elem-insert_score score a x sorted h) [
        | inl e ↦ inr (inl e)
        | inr h' ↦ inl h'
      ]
      | inr h ↦ inr (inr h)
    ]

Elem-candidates : (a primary : Node) (ns : List Node) → Elem a (candidates primary ns) → Elem a ns
unfolding candidates
Elem-candidates a primary [] m = m
Elem-candidates a primary (n ∷ ns) m = elim (Bool-cases (str_eq n.id primary.id)) [
  | inl e ↦ inr (Elem-candidates a primary ns (rw (e, candidates) at m))
  | inr e ↦ elim (rw (e, candidates) at m) [
    | inl here ↦ inl here
    | inr there ↦ inr (Elem-candidates a primary ns there)
  ]
]

Elem-choose_targets :
    (asked : String → ℕ) (clients : List String) (hc : HealthChecker) (ns : List Node) (id : String)
    → Elem id (choose_targets asked clients hc ns).1
    → (n : Node) × Elem n ns × (id ≡ n.id)
unfolding choose_targets
Elem-choose_targets asked clients hc [] id m = absurd m
Elem-choose_targets asked clients hc (n ∷ ns) id m =
    let asked_one = is_healthy (asked n.id) hc n.id in
    elim (Bool-cases (asked_one.1 && has_client clients n.id)) [
      | inl e ↦ elim (rw (e, choose_targets) at m) [
        | inl here ↦ (n, inl refl, here)
        | inr there ↦
            let (k, at, same) = Elem-choose_targets asked clients asked_one.0 ns id there in
            (k, inr at, same)
      ]
      | inr e ↦
          let (k, at, same) =
            Elem-choose_targets asked clients asked_one.0 ns id (rw (e, choose_targets) at m) in
          (k, inr at, same)
    ]

nodes-Elem :
    (xxhash : String → ℕ) (pm : PartitionMapper) (p replica_count : ℤ) (n primary : Node)
    → pm.partition_to_node p ≡ some primary
    → Elem primary pm.nodes
    → Elem n (get_nodes_for_partition xxhash pm p replica_count)
    → Elem n pm.nodes
unfolding get_nodes_for_partition ranking
nodes-Elem xxhash pm p replica_count n primary owned member m =
    elim (Bool-cases (leb_ℤ replica_count (pos 1) || leb (length pm.nodes) 1)) [
      | inl one ↦ elim (rw one at (rw (owned, get_nodes_for_partition) at m)) [
        | inl e ↦ subst (λ k. Elem k pm.nodes) (sym e) member
        | inr nothing ↦ absurd nothing
      ]
      | inr several ↦ elim (rw several at (rw (owned, get_nodes_for_partition) at m)) [
        | inl e ↦ subst (λ k. Elem k pm.nodes) (sym e) member
        | inr chosen ↦
            elim (Elem-sort_scores (replica_score xxhash p) n [] (candidates primary pm.nodes)
              (Elem-take n _ _ chosen)) [
                | inl nothing ↦ absurd nothing
                | inr h ↦ Elem-candidates n primary pm.nodes h
              ]
      ]
    ]

-- The nodes that Insert sends a sample to are nodes of the mapper.
pub Elem-targets_of :
    (xxhash : String → ℕ) (get_label : List Label → String → String) (asked : String → ℕ)
    (r : Router) (lbls : List Label) (id : String) (total : ℤ) (nodes : List Node)
    → new_partition_mapper total nodes ≡ ok r.partitioner
    → Elem id (targets_of xxhash get_label asked r lbls)
    → (n : Node) × Elem n nodes × (id ≡ n.id)
unfolding targets_of start_insert insert_nodes get_node_for_metric get_primary_node
Elem-targets_of xxhash get_label asked r lbls id total nodes made m =
    let (n, at, same) = Elem-choose_targets asked r.clients r.health_checker _ id m in
    let (primary, owned, owner, _) =
      get_node_for_metric_total xxhash total nodes r.partitioner (get_label lbls "__name__") made in
    let p = get_partition_id xxhash r.partitioner (get_label lbls "__name__") in
    let all = (mapper_fields total nodes r.partitioner made).1 in
    let member = ((get_primary_node_iff total nodes r.partitioner made p primary).0 owned).0 in
    (
      n,
      subst (λ ns. Elem n ns) all
          (nodes-Elem xxhash r.partitioner p r.replica_count n primary owned
            (subst (λ ns. Elem primary ns) (sym all) member) at),
      same,
    )
