-- ===== src/Startup/Settings.antt =====
-- internal/pskinsert/config/config.go: the settings of pskinsert, from the values that the YAML file
-- gives to their defaults and their check. Reading the file is not modelled, nor what it says of
-- credentials and of sketches, which nothing here changes. Durations are nanoseconds.
use prom_sketch_distributed.Common.{
  ℕ, ◌*◌, String, ◌≡◌, refl, ◌≢◌, inl, inr, false, ◌&&◌, Option, List, [], arith, str_eq, eq_iff,
  ◌==◌, if◌then◌else◌, Bool-cases, length, ℤ, pos, ◌≤ℤ◌, leb_ℤ, Result, ok, err,
}
use prom_sketch_distributed.Cluster.Health.{second, or_default}
use prom_sketch_distributed.Cluster.Partition.{no_nodes, new_partition_mapper}
use prom_sketch_distributed.Startup.{
  StaticNode, ClusterConfig, or_default_int, or_default_text, apply_defaults, to_nodes,
  to_hash_nodes, mapper_failed, start_router,
}

pub record BackendConfig : Type 0 where
  pub backend_type : String
  pub url : String
  pub backend_timeout : ℕ
  pub max_retries : ℤ
  pub batch_size : ℤ
  pub flush_interval : ℕ

pub record ServerConfig : Type 0 where
  pub listen_address : String
  pub read_timeout : ℕ
  pub write_timeout : ℕ

pub record InsertConfig : Type 0 where
  pub server : ServerConfig
  pub cluster : ClusterConfig
  pub backend : BackendConfig

pub data SettingsError : Type 0 where
  static_without_nodes : SettingsError
  url_required : SettingsError
  type_required : SettingsError

unfoldable pub apply_all : InsertConfig → InsertConfig
unfolding apply_defaults
apply_all c = record {
  server = record {
    listen_address = or_default_text c.server.listen_address ":8480";
    read_timeout = or_default c.server.read_timeout (30 * second);
    write_timeout = or_default c.server.write_timeout (30 * second);
  };
  cluster = apply_defaults c.cluster;
  backend = record c.backend {
    backend_timeout = or_default c.backend.backend_timeout (30 * second);
    max_retries = or_default_int c.backend.max_retries (pos 3);
    batch_size = or_default_int c.backend.batch_size (pos 1000);
    flush_interval = or_default c.backend.flush_interval (5 * second);
  };
}

unfoldable pub validate_insert : InsertConfig → Result SettingsError (Unit {0})
validate_insert c =
    if length c.cluster.static_nodes == 0 && str_eq c.cluster.discovery_type "static"
    then err static_without_nodes
    else if str_eq c.backend.url ""
    then err url_required
    else if str_eq c.backend.backend_type ""
    then err type_required
    else ok tt

-- LoadConfig, once the file is read.
unfoldable pub load_insert : InsertConfig → Result SettingsError InsertConfig
unfolding apply_all validate_insert
load_insert c = elim (validate_insert (apply_all c)) [ err e ↦ err e | ok _ ↦ ok (apply_all c) ]

other_text : (s t : String) → s ≢ t → str_eq s t ≡ false
other_text s t other = elim (Bool-cases (str_eq s t)) [
  | inl same ↦ absurd (other ((eq_iff s t).0 same))
  | inr e ↦ e
]

positive_total : (n : ℤ) → pos 0 ≤ℤ n → leb_ℤ (or_default_int n (pos 16)) (pos 0) ≡ false
positive_total n h = ground (arith, h)

no_mapper :
    (total : ℤ) (ns : List StaticNode)
    → ns ≡ []
    → leb_ℤ total (pos 0) ≡ false
    → new_partition_mapper total (to_nodes ns) ≡ err no_nodes
unfolding to_nodes new_partition_mapper
no_mapper total ns none_given positive = rw none_given (rw positive refl)

unmapped :
    (connect : String → Option String) (d : ClusterConfig)
    → d.static_nodes ≡ []
    → leb_ℤ d.total_partitions (pos 0) ≡ false
    → start_router connect d ≡ err (mapper_failed no_nodes)
unfolding start_router to_hash_nodes
unmapped connect d none_given positive =
    rw (no_mapper d.total_partitions d.static_nodes none_given positive, start_router) refl

accepted :
    (d : InsertConfig)
    → d.cluster.discovery_type ≢ "static"
    → d.backend.url ≢ ""
    → d.backend.backend_type ≢ ""
    → validate_insert d ≡ ok tt
unfolding validate_insert
accepted d other url type = ground (
  arith,
  other_text d.cluster.discovery_type "static" other,
  other_text d.backend.url "" url,
  other_text d.backend.backend_type "" type,
)

-- With no static nodes and a total that is not negative, settings of every other kind of discovery
-- are loaded, given a backend, and then no start comes through, whatever can be reached: the nodes
-- are never discovered.
pub not_discovered :
    (connect : String → Option String) (c : InsertConfig)
    → c.cluster.static_nodes ≡ []
    → c.cluster.discovery_type ≢ "static"
    → pos 0 ≤ℤ c.cluster.total_partitions
    → c.backend.url ≢ ""
    → c.backend.backend_type ≢ ""
    → (load_insert c ≡ ok (apply_all c))
      × (start_router connect (apply_all c).cluster ≡ err (mapper_failed no_nodes))
unfolding load_insert validate_insert apply_all apply_defaults
not_discovered connect c none_given other total url type = (
  rw (accepted (apply_all c) other url type, load_insert) refl,
  unmapped connect (apply_all c).cluster none_given
      (positive_total c.cluster.total_partitions total),
)
