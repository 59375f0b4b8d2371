-- ===== src/Startup.antt =====
-- internal/cluster/config.go, internal/cluster/discovery/static.go, internal/pskinsert/client/pool.go
-- and the part of cmd/pskinsert/main.go that makes the insert router of them. The opening of a gRPC
-- connection is a parameter, `connect`: the error of an address, or `none`. The pool is the list of
-- the nodes' IDs that have a client; a connection's close is input and output only. Durations are
-- nanoseconds. The router stands as it is before the health checker has run a check. The reading of the
-- YAML file, and the Kubernetes part, are not modelled.
pub mod Fresh
pub mod Serving
pub mod Checking
pub mod Settings
mod Examples
use prom_sketch_distributed.Common.{
  ℕ, ◌*◌, String, Option, none, some, List, [], ◌∷◌, str_eq, if◌then◌else◌, ℤ, pos, eq_ℤ, Result,
  ok, err,
}
use prom_sketch_distributed.Cluster.Partition.{
  Node, MapperError, PartitionMapper, new_partition_mapper,
}
use prom_sketch_distributed.Cluster.Health.{
  HealthCheckerConfig, second, or_default, new_health_checker, register_nodes,
}
use prom_sketch_distributed.Insert.Router.{Router, new_router, has_client}
use Prim.Native.String.{◌++◌ as ◌+s◌}

pub record StaticNode : Type 0 where
  pub node_id : String
  pub node_address : String
  pub first_partition : ℤ
  pub last_partition : ℤ

pub record ClusterConfig : Type 0 where
  pub total_partitions : ℤ
  pub replication_factor : ℤ
  pub discovery_type : String
  pub static_nodes : List StaticNode
  pub health_interval : ℕ
  pub health_timeout : ℕ
  pub health_failure_threshold : ℕ
  pub breaker_failure_threshold : ℕ
  pub breaker_timeout : ℕ

abbrev pub or_default_int : ℤ → ℤ → ℤ
or_default_int n default = if eq_ℤ n (pos 0) then default else n

abbrev pub or_default_text : String → String → String
or_default_text s default = if str_eq s "" then default else s

unfoldable pub apply_defaults : ClusterConfig → ClusterConfig
apply_defaults c = record {
  total_partitions = or_default_int c.total_partitions (pos 16);
  replication_factor = or_default_int c.replication_factor (pos 2);
  discovery_type = c.discovery_type;
  static_nodes = c.static_nodes;
  health_interval = or_default c.health_interval (10 * second);
  health_timeout = or_default c.health_timeout (5 * second);
  health_failure_threshold = or_default c.health_failure_threshold 3;
  breaker_failure_threshold = or_default c.breaker_failure_threshold 5;
  breaker_timeout = or_default c.breaker_timeout (30 * second);
}

unfoldable pub to_nodes : List StaticNode → List Node
to_nodes [] = []
to_nodes (sn ∷ rest) =
    record {
      id = sn.node_id;
      address = sn.node_address;
      partition_start = sn.first_partition;
      partition_end = sn.last_partition;
    }
    ∷ to_nodes rest

unfoldable pub to_hash_nodes : ClusterConfig → List Node
unfolding to_nodes
to_hash_nodes c = to_nodes c.static_nodes

-- StaticDiscovery: Discover returns a copy.
unfoldable pub discover : List Node → List Node
discover [] = []
discover (n ∷ ns) = n ∷ discover ns

pub data StartError : Type 0 where
  mapper_failed : MapperError → StartError
  connect_failed : String → String → String → StartError

-- p.clients[id] = …
unfoldable pub put_client : String → List String → List String
put_client id clients = if has_client clients id then clients else id ∷ clients

unfoldable pub new_pool :
    (String → Option String) → List Node → List String → Result StartError (List String)
unfolding put_client
new_pool connect [] clients = ok clients
new_pool connect (n ∷ ns) clients = elim (connect n.address) [
  | some e ↦ err (connect_failed n.id n.address e)
  | none ↦ new_pool connect ns (put_client n.id clients)
]

unfoldable pub health_config : ClusterConfig → HealthCheckerConfig
health_config c = record {
  interval = c.health_interval;
  timeout = c.health_timeout;
  failure_threshold = c.health_failure_threshold;
  circuit_timeout = c.breaker_timeout;
}

-- The check of an address: the first node with this address answers for it. `answer` is the error
-- of the node's Health, or `none`.
unfoldable pub grpc_check :
    (String → Option String) → List Node → List String → String → Option String
unfolding has_client
grpc_check answer [] clients address = some ("unknown address: " +s address)
grpc_check answer (n ∷ ns) clients address =
    if str_eq n.address address
    then if has_client clients n.id then answer n.id else some "no client for node"
    else grpc_check answer ns clients address

-- The router with its checker, once the mapper and the pool are there.
unfoldable pub assemble : ClusterConfig → PartitionMapper → List String → Router
unfolding health_config
assemble c partitioner clients =
    new_router partitioner clients
      (register_nodes (new_health_checker (health_config c)) (to_hash_nodes c)
        c.breaker_failure_threshold c.breaker_timeout)
      c.replication_factor

-- The start of pskinsert up to its router.
unfoldable pub start_router : (String → Option String) → ClusterConfig → Result StartError Router
start_router connect c = elim (new_partition_mapper c.total_partitions (to_hash_nodes c)) [
  | err e ↦ err (mapper_failed e)
  | ok partitioner ↦ elim (new_pool connect (to_hash_nodes c) []) [
    | err e ↦ err e
    | ok clients ↦ ok (assemble c partitioner clients)
  ]
]
