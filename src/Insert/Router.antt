-- ===== src/Insert/Router.antt =====
-- internal/pskinsert/router/router.go. The gRPC calls are a parameter, the reply of each node; the
-- goroutines finish in an order that the parameter `schedule` chooses. `asked` and `finished` are
-- the clock when a node's health is asked for, and when its reply is recorded. Prometheus's
-- `Labels.Get` and the sample values are parameters.
pub mod Quorum
pub mod Nodes
pub mod Examples
use prom_sketch_distributed.Common.{
  ℕ, ◌+◌, String, Bool, false, ◌&&◌, ◌||◌, List, [], ◌∷◌, ◌++◌, str_eq, ltb, if◌then◌else◌, ℤ,
  Result, ok, err, add_uint64,
}
use prom_sketch_distributed.Cluster.Partition.{
  Node, PartitionMapper, get_partition_id, get_nodes_for_partition,
}
use prom_sketch_distributed.Cluster.Health.{HealthChecker, is_healthy}
use prom_sketch_distributed.Cluster.Health

pub record Label : Type 0 where
  pub name : String
  pub value : String

pub record RouterMetrics : Type 0 where
  pub samples_routed : ℕ
  pub samples_failed : ℕ
  pub rpcs_sent : ℕ
  pub rpcs_failed : ℕ

pub record Router : Type 0 where
  pub partitioner : PartitionMapper
  pub clients : List String
  pub health_checker : HealthChecker
  pub replica_count : ℤ
  pub metrics : RouterMetrics

-- What a call of `Insert` on a node comes back with: an RPC error, `resp.Success` false, or true.
pub data Reply : Type 0 where
  rpc_error : String → Reply
  not_stored : String → Reply
  stored : Reply

pub data InsertError : Type 0 where
  no_nodes_available : ℤ → InsertError
  all_nodes_failed : ℤ → String × String → InsertError
  no_healthy_nodes : ℤ → InsertError

unfoldable pub new_router : PartitionMapper → List String → HealthChecker → ℤ → Router
new_router partitioner clients health_checker replica_count = record {
  partitioner = partitioner;
  clients = clients;
  health_checker = health_checker;
  replica_count = replica_count;
  metrics = record { samples_routed = 0; samples_failed = 0; rpcs_sent = 0; rpcs_failed = 0 };
}

unfoldable pub get_metrics : Router → RouterMetrics
get_metrics r = r.metrics

-- promLabelsToPBLabels, where a protobuf label has the same two fields.
unfoldable pub to_pb_labels : List Label → List Label
to_pb_labels [] = []
to_pb_labels (l ∷ ls) = record { name = l.name; value = l.value } ∷ to_pb_labels ls

-- pool.GetClient
unfoldable pub has_client : List String → String → Bool
has_client [] id = false
has_client (c ∷ cs) id = str_eq c id || has_client cs id

-- The loop that starts the goroutines: a node is passed over unless it is healthy and has a client.
unfoldable pub choose_targets :
    (String → ℕ) → List String → HealthChecker → List Node → HealthChecker × List String
unfolding has_client
choose_targets asked clients hc [] = (hc, [])
choose_targets asked clients hc (n ∷ ns) =
    let (hc', healthy) = is_healthy (asked n.id) hc n.id in
    let (hc'', rest) = choose_targets asked clients hc' ns in
    (hc'', if healthy && has_client clients n.id then n.id ∷ rest else rest)

-- What the goroutines share: the checker, the counters, the errors so far, and the successes.
pub record Progress : Type 0 where
  pub checker : HealthChecker
  pub counters : RouterMetrics
  pub errs : List (String × String)
  pub success_count : ℕ

unfoldable pub finish_insert : (String → ℕ) → (String → Reply) → Progress → String → Progress
finish_insert finished reply s id =
    let sent = record (s.counters) { rpcs_sent = add_uint64 (s.counters).rpcs_sent 1 } in
    elim (reply id) [
      | rpc_error e ↦ record {
        checker = Health.record_failure (finished id) s.checker id;
        counters = record sent { rpcs_failed = add_uint64 (s.counters).rpcs_failed 1 };
        errs = s.errs ++ (id, e) ∷ [];
        success_count = s.success_count;
      }
      | not_stored e ↦ record s { counters = sent; errs = s.errs ++ (id, e) ∷ [] }
      | stored ↦ record s {
        checker = Health.record_success s.checker id;
        counters = sent;
        success_count = s.success_count + 1;
      }
    ]

unfoldable pub finish_inserts : (String → ℕ) → (String → Reply) → Progress → List String → Progress
unfolding finish_insert
finish_inserts finished reply s [] = s
finish_inserts finished reply s (id ∷ ids) =
    finish_inserts finished reply (finish_insert finished reply s id) ids

unfoldable pub first_error : ℤ → List (String × String) → InsertError
first_error p [] = no_healthy_nodes p
first_error p (e ∷ es) = all_nodes_failed p e

-- The last part of Insert: one success is enough.
unfoldable pub conclude : Router → ℤ → Progress → Router × Result InsertError (Unit {0})
unfolding first_error
conclude r p s =
    let m = s.counters in
    if ltb 0 s.success_count
    then (
      record r {
        health_checker = s.checker;
        metrics = record m { samples_routed = add_uint64 m.samples_routed 1 };
      },
      ok tt,
    )
    else (
      record r {
        health_checker = s.checker;
        metrics = record m { samples_failed = add_uint64 m.samples_failed 1 };
      },
      err (first_error p s.errs),
    )

-- The nodes that a sample with these labels goes to.
unfoldable pub insert_nodes :
    (String → ℕ) → (List Label → String → String) → Router → List Label → List Node
insert_nodes xxhash get_label r lbls =
    get_nodes_for_partition xxhash r.partitioner
      (get_partition_id xxhash r.partitioner (get_label lbls "__name__")) r.replica_count

unfoldable pub start_insert : (String → ℕ) → Router → List Node → HealthChecker × List String
unfolding choose_targets
start_insert asked r nodes = choose_targets asked r.clients r.health_checker nodes

-- Insert, once the partition, its nodes and their replies to the request are known.
unfoldable pub insert_at :
    (String → ℕ)
    → (String → ℕ)
    → (List String → List String)
    → (String → Reply)
    → Router
    → ℤ
    → List Node
    → Router × Result InsertError (Unit {0})
unfolding start_insert conclude
insert_at asked finished schedule reply r p [] = (
  record r {
    metrics = record (r.metrics) { samples_failed = add_uint64 (r.metrics).samples_failed 1 };
  },
  err (no_nodes_available p),
)
insert_at asked finished schedule reply r p (n ∷ ns) =
    let (hc, targets) = start_insert asked r (n ∷ ns) in
    conclude r p (
      finish_inserts finished reply
        (record { checker = hc; counters = r.metrics; errs = []; success_count = 0 })
        (schedule targets))

-- `rpc id labels timestamp value` is the reply of a node to the request.
unfoldable pub insert :
    {F : Type 0}
    → (String → ℕ)
    → (List Label → String → String)
    → (String → ℕ)
    → (String → ℕ)
    → (List String → List String)
    → (String → List Label → ℤ → F → Reply)
    → Router
    → List Label
    → ℤ
    → F
    → Router × Result InsertError (Unit {0})
unfolding insert_at to_pb_labels
insert xxhash get_label asked finished schedule rpc r lbls timestamp value =
    insert_at asked finished schedule (λ id. rpc id (to_pb_labels lbls) timestamp value) r
      (get_partition_id xxhash r.partitioner (get_label lbls "__name__"))
      (insert_nodes xxhash get_label r lbls)
