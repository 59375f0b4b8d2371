-- ===== src/Cluster/Health/Verdicts.antt =====
-- checker.go: whom the checker calls healthy, after which reports.
use prom_sketch_distributed.Cluster.Partition.{Node}
use prom_sketch_distributed.Common.{
  lookup, put, ℕ, ◌+◌, ◌≤◌, ◌<◌, String, ◌≡◌, refl, ◌∙◌, ◌≢◌, ◌↔◌, ◌⊎◌, inl, inr, Bool, true, false,
  Option, none, some, map_option, List, [], ◌∷◌, map, arith, str_eq, eq_iff, if◌then◌else◌,
  Bool-cases, length, Elem, lookup-put, lookup-adjust,
}
use prom_sketch_distributed.Cluster.Breaker.{allow, get_state}
use prom_sketch_distributed.Cluster.Health.{
  NodeHealth, HealthChecker, fresh_health, register_nodes, check_node, check_all, with_breaker,
  is_healthy, fail_node, succeed_node, record_failure, record_success,
}
use prom_sketch_distributed.Cluster.Breaker

-- Whether a node that the map holds counts as healthy at this time.
abbrev pub verdict : ℕ → Option NodeHealth → Bool
verdict now none = false
verdict now (some nh) = if nh.healthy then (allow now nh.circuit_breaker).1 else false

-- A node is healthy exactly when it is registered, marked healthy, and its breaker admits a request.
pub is_healthy-verdict :
    (now : ℕ) (hc : HealthChecker) (id : String)
    → (is_healthy now hc id).1 ≡ verdict now (lookup id hc.nodes)
unfolding is_healthy
is_healthy-verdict now hc id = ground arith

is_healthy-lookup :
    (now : ℕ) (hc : HealthChecker) (id other : String)
    → other ≢ id
    → lookup other (is_healthy now hc id).0.nodes ≡ lookup other hc.nodes
unfolding is_healthy
is_healthy-lookup now hc id other h = ground (
  arith,
  eq_iff other id,
  lookup-adjust id other (λ h. with_breaker h (allow now h.circuit_breaker).0) hc.nodes,
)

-- Asking about a node changes no other node's entry, and neither do the reports on it.
pub calls_keep_others :
    (now : ℕ) (hc : HealthChecker) (id other : String)
    → other ≢ id
    → (lookup other (is_healthy now hc id).0.nodes ≡ lookup other hc.nodes)
      × (lookup other (record_failure now hc id).nodes ≡ lookup other hc.nodes)
      × (lookup other (record_success hc id).nodes ≡ lookup other hc.nodes)
unfolding record_failure record_success
calls_keep_others now hc id other h = (
  is_healthy-lookup now hc id other h,
  ground (arith, eq_iff other id, lookup-adjust id other (fail_node now) hc.nodes),
  ground (arith, eq_iff other id, lookup-adjust id other succeed_node hc.nodes),
)

-- The reports of failed calls to one node, in order.
pub report_failures : HealthChecker → String → List ℕ → HealthChecker
report_failures hc id [] = hc
report_failures hc id (now ∷ times) = report_failures (record_failure now hc id) id times

fail_all : NodeHealth → List ℕ → NodeHealth
fail_all nh [] = nh
fail_all nh (t ∷ times) = fail_all (fail_node t nh) times

lookup-report_failures :
    (hc : HealthChecker) (id : String) (times : List ℕ) (nh : NodeHealth)
    → lookup id hc.nodes ≡ some nh
    → lookup id (report_failures hc id times).nodes ≡ some (fail_all nh times)
unfolding report_failures fail_all record_failure
lookup-report_failures hc id [] nh e = e
lookup-report_failures hc id (t ∷ times) nh e =
    lookup-report_failures (record_failure t hc id) id times (fail_node t nh)
      (ground (arith, eq_iff id id, lookup-adjust id id (fail_node t) hc.nodes))

fail_all-unhealthy :
    (nh : NodeHealth) (times : List ℕ) → nh.healthy ≡ false → (fail_all nh times).healthy ≡ false
unfolding fail_all fail_node get_state
fail_all-unhealthy nh [] h = h
fail_all-unhealthy nh (t ∷ times) h = fail_all-unhealthy (fail_node t nh) times (ground arith)

fail_all_trips :
    (nh : NodeHealth) (times : List ℕ)
    → nh.circuit_breaker.failures < nh.circuit_breaker.threshold
    → nh.circuit_breaker.threshold ≤ nh.circuit_breaker.failures + length times
    → (fail_all nh times).healthy ≡ false
unfolding fail_all fail_node Breaker.record_failure get_state
fail_all_trips nh [] low h = absurd (omega arith)
fail_all_trips nh (t ∷ times) low h =
    ground (arith, fail_all_trips (fail_node t nh) times, fail_all-unhealthy (fail_node t nh) times)

-- Once the failures reported for a node reach its breaker's threshold, the node is unhealthy at
-- every later time: the passing of the breaker's timeout alone does not bring it back.
pub report_failures-is_healthy :
    (hc : HealthChecker) (id : String) (nh : NodeHealth) (times : List ℕ) (now : ℕ)
    → lookup id hc.nodes ≡ some nh
    → nh.circuit_breaker.failures < nh.circuit_breaker.threshold
    → nh.circuit_breaker.threshold ≤ nh.circuit_breaker.failures + length times
    → (is_healthy now (report_failures hc id times) id).1 ≡ false
report_failures-is_healthy hc id nh times now e low h =
    is_healthy-verdict now (report_failures hc id times) id
    ∙ rw (lookup-report_failures hc id times nh e, fail_all_trips nh times low h) refl

-- The entry is the one before, or that of a newly registered node.
FreshOr : ℕ → ℕ → Option NodeHealth → Option NodeHealth → Type 0
FreshOr threshold timeout old new =
    (new ≡ old) ⊎ ((n : Node) × (new ≡ some (fresh_health n threshold timeout)))

lookup-register_nodes :
    (hc : HealthChecker) (ns : List Node) (threshold timeout : ℕ) (id : String)
    → FreshOr threshold timeout
        (lookup id hc.nodes)
        (lookup id (register_nodes hc ns threshold timeout).nodes)
unfolding register_nodes FreshOr
lookup-register_nodes hc [] threshold timeout id = inl refl
lookup-register_nodes hc (n ∷ ns) threshold timeout id =
    let entry = fresh_health n threshold timeout in
    elim (lookup-register_nodes (record hc { nodes = put n.id entry hc.nodes }) ns threshold timeout
      id) [
        | inr found ↦ inr found
        | inl same ↦ elim (Bool-cases (str_eq id n.id)) [
          | inl here ↦ inr (n, same ∙ rw (lookup-put, here) refl)
          | inr there ↦ inl (same ∙ rw (lookup-put, there) refl)
        ]
      ]

register_nodes_fresh :
    (hc : HealthChecker) (ns : List Node) (threshold timeout : ℕ) (n : Node)
    → Elem n ns
    → (m : Node) × (lookup n.id (register_nodes hc ns threshold timeout).nodes
        ≡ some (fresh_health m threshold timeout))
unfolding register_nodes FreshOr
register_nodes_fresh hc [] threshold timeout n m = absurd m
register_nodes_fresh hc (x ∷ ns) threshold timeout n (inr m) =
    register_nodes_fresh
      (record hc { nodes = put x.id (fresh_health x threshold timeout) hc.nodes }) ns threshold
      timeout n m
register_nodes_fresh hc (x ∷ ns) threshold timeout n (inl e) =
    let entry = fresh_health x threshold timeout in
    elim (lookup-register_nodes (record hc { nodes = put x.id entry hc.nodes }) ns threshold timeout
      n.id) [
        | inr found ↦ found
        | inl same ↦ (x, same ∙ rw (lookup-put, e, (eq_iff x.id x.id).1 refl) refl)
      ]

-- Every node is healthy right after it is registered, at any time.
pub register_nodes-is_healthy :
    (hc : HealthChecker) (ns : List Node) (threshold timeout now : ℕ) (n : Node)
    → Elem n ns
    → (is_healthy now (register_nodes hc ns threshold timeout) n.id).1 ≡ true
unfolding fresh_health allow
register_nodes-is_healthy hc ns threshold timeout now n m =
    let (x, found) = register_nodes_fresh hc ns threshold timeout n m in
    is_healthy-verdict now (register_nodes hc ns threshold timeout) n.id ∙ rw found refl

lookup-check_all :
    (now : ℕ) (check : String → Option String) (nodes : List (String × NodeHealth)) (id : String)
    → lookup id (map (λ (i, nh). (i, check_node now (check nh.address) nh)) nodes)
      ≡ map_option (λ nh. check_node now (check nh.address) nh) (lookup id nodes)
unfolding lookup
lookup-check_all now check [] id = refl
lookup-check_all now check ((i, nh) ∷ rest) id = ground (arith, lookup-check_all now check rest id)

check_node_outcome :
    (now : ℕ) (outcome : Option String) (nh : NodeHealth)
    → (((check_node now outcome nh).healthy ≡ true) ↔ (outcome ≡ none))
      × (outcome ≡ none
          → (check_node now outcome nh).circuit_breaker ≡ Breaker.record_success nh.circuit_breaker)
      × (outcome ≢ none
          → (check_node now outcome nh).circuit_breaker
            ≡ Breaker.record_failure now nh.circuit_breaker)
unfolding check_node
check_node_outcome now none nh = ((λ _. refl, λ _. refl), λ _. refl, λ h. absurd (h refl))
check_node_outcome now (some x) nh = ((λ h. cc, λ h. cc), λ h. cc, λ _. refl)

-- A check of all nodes marks a node healthy exactly when its check found no error, and reports the
-- outcome to the node's breaker.
pub check_all-healthy :
    (now : ℕ) (check : String → Option String) (hc : HealthChecker) (id : String) (nh : NodeHealth)
    → lookup id hc.nodes ≡ some nh
    → (nh' : NodeHealth) × (lookup id (check_all now check hc).nodes ≡ some nh')
      × ((nh'.healthy ≡ true) ↔ (check nh.address ≡ none))
      × (check nh.address ≡ none → nh'.circuit_breaker ≡ Breaker.record_success nh.circuit_breaker)
      × (check nh.address ≢ none
          → nh'.circuit_breaker ≡ Breaker.record_failure now nh.circuit_breaker)
unfolding check_all
check_all-healthy now check hc id nh e =
    let (marked, passed, failed) = check_node_outcome now (check nh.address) nh in
    (
      check_node now (check nh.address) nh,
      lookup-check_all now check hc.nodes id ∙ rw e refl,
      marked,
      passed,
      failed,
    )
