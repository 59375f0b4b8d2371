-- ===== src/Server/Settings.antt =====
-- internal/psksketch/config/config.go: the settings of a storage node, from the values that the YAML
-- file gives to their defaults and their check, and what cmd/psksketch/main.go makes of them. Reading
-- the file is not modelled, nor the compilation of its targets and its memory limit, which are in
-- the storage's settings already. Durations are nanoseconds.
use prom_sketch_distributed.Common.{
  ◌-ℤ◌, ℕ, ◌+◌, ◌*◌, String, ◌≡◌, refl, ◌≢◌, ◌↔◌, ◌⊎◌, inl, inr, false, some, arith, str_eq, eq_iff,
  if◌then◌else◌, Bool-cases, length, ℤ, pos, negsuc, pos_part, neg_part, ◌≤ℤ◌, ◌<ℤ◌, ltb_ℤ, leb_ℤ,
  -ℤ_parts, Result, ok, err, Result-cases,
}
use prom_sketch_distributed.Cluster.Health.{second, or_default}
use prom_sketch_distributed.Storage.{
  Sketches, SketchConfig, new_partitioner, owned_end, new_storage, make_storage,
}
use prom_sketch_distributed.Storage.Spec.{node_config}
use prom_sketch_distributed.Storage.Accounting.{length-replicate}
use prom_sketch_distributed.Startup.{or_default_int, or_default_text}
use prom_sketch_distributed.Server.{NodeConfig, SketchServer, new_sketch_server}

pub record ServerConfig : Type 0 where
  pub listen_address : String
  pub max_recv_msg_size : ℤ
  pub max_send_msg_size : ℤ

pub record HttpConfig : Type 0 where
  pub http_listen_address : String
  pub read_timeout : ℕ
  pub write_timeout : ℕ

pub record Config : Type 0 where
  pub node : NodeConfig
  pub server : ServerConfig
  pub http : HttpConfig
  pub storage : SketchConfig
  pub eh_k : ℤ
  pub kll_k : ℤ

pub data ConfigError : Type 0 where
  id_required : ConfigError
  start_negative : ConfigError
  end_not_after_start : ConfigError
  end_exceeds : ℤ → ℤ → ConfigError

unfoldable pub apply_defaults : Config → Config
apply_defaults c = record c {
  server = record {
    listen_address = or_default_text c.server.listen_address ":8481";
    max_recv_msg_size = or_default_int c.server.max_recv_msg_size (pos (10 * 1024 * 1024));
    max_send_msg_size = or_default_int c.server.max_send_msg_size (pos (10 * 1024 * 1024));
  };
  http = record {
    http_listen_address = or_default_text c.http.http_listen_address ":8482";
    read_timeout = or_default c.http.read_timeout (30 * second);
    write_timeout = or_default c.http.write_timeout (30 * second);
  };
  storage = record c.storage {
    num_partitions = or_default_int c.storage.num_partitions (pos 16);
    default_window_size = or_default_int c.storage.default_window_size (pos 1800);
  };
  eh_k = or_default_int c.eh_k (pos 50);
  kll_k = or_default_int c.kll_k (pos 256);
}

unfoldable pub validate : Config → Result ConfigError (Unit {0})
validate c =
    if str_eq c.node.id ""
    then err id_required
    else if ltb_ℤ c.node.range_start (pos 0)
    then err start_negative
    else if leb_ℤ c.node.range_end c.node.range_start
    then err end_not_after_start
    else if ltb_ℤ c.storage.num_partitions c.node.range_end
    then err (end_exceeds c.node.range_end c.storage.num_partitions)
    else ok tt

-- LoadConfig, once the file is read.
unfoldable pub load_config : Config → Result ConfigError Config
unfolding apply_defaults validate
load_config c = elim (validate (apply_defaults c)) [ err e ↦ err e | ok _ ↦ ok (apply_defaults c) ]

-- A node has an ID and a range of at least one partition, all of them partitions of the total.
pub record IsUsable (c : Config) : Type 0 where
  pub named : c.node.id ≢ ""
  pub starts : pos 0 ≤ℤ c.node.range_start
  pub some_partition : c.node.range_start <ℤ c.node.range_end
  pub within : c.node.range_end ≤ℤ c.storage.num_partitions

-- The check accepts exactly the usable settings.
pub validate_iff : (c : Config) → (validate c ≡ ok tt) ↔ IsUsable c
unfolding validate
validate_iff c = (
  λ h. record {
    named = λ e. ground (arith, h, (eq_iff c.node.id "").1 e);
    starts = ground (arith, h);
    some_partition = ground (arith, h);
    within = ground (arith, h);
  },
  λ u. elim (Bool-cases (str_eq c.node.id "")) [
    | inl e ↦ absurd (u.named ((eq_iff c.node.id "").0 e))
    | inr other ↦ rw (other, validate) (ground (arith, u.starts, u.some_partition, u.within))
  ],
)

not_loaded : {x : ConfigError} {d : Config} → ¬ (◌≡◌ {A = Result ConfigError Config} (err x) (ok d))
not_loaded e = cc

loaded : {c d : Config} → ◌≡◌ {A = Result ConfigError Config} (ok c) (ok d) → d ≡ c
loaded e = cc

-- Settings that are loaded are those of the file with the defaults, and usable.
pub load_config-IsUsable :
    (c d : Config) → load_config c ≡ ok d → (d ≡ apply_defaults c) × IsUsable d
unfolding load_config
load_config-IsUsable c d e = elim (Result-cases (validate (apply_defaults c))) [
  | inr (x, refused) ↦ absurd (not_loaded (rw (refused, load_config) at e))
  | inl (x, accepted) ↦
      let same = loaded (rw (accepted, load_config) at e) in
      (same, rw same ((validate_iff (apply_defaults c)).0 accepted))
]

-- The node's server, on a storage with the node's range.
unfoldable pub new_node : {S V : Type 0} → Sketches S V → Config → SketchServer S
new_node lib c =
    new_sketch_server (new_storage lib (node_config c.storage c.node.range_start c.node.range_end))
      c.node

-- NewStorage returns, and the storage holds the partitions of the node's range, of a total that the settings give.
pub record HasRange {S V : Type 0} (lib : Sketches S V) (c : Config) (s : SketchServer S)
    : Type 0 where
  pub made :
      make_storage lib (node_config c.storage c.node.range_start c.node.range_end) ≡ some s.storage
  pub hashed : s.storage.num_hashed ≡ c.storage.num_partitions
  pub starts : s.storage.partition_start ≡ c.node.range_start
  pub ends : s.storage.partition_end ≡ c.node.range_end
  pub holds : pos_part c.node.range_start + length s.storage.partitions ≡ pos_part c.node.range_end

total_kept : (a b n : ℤ) → pos 0 ≤ℤ a → a <ℤ b → b ≤ℤ n → new_partitioner n ≡ n
unfolding new_partitioner
total_kept a b n h more inside = ground (arith, h, more, inside)

end_kept :
    (cfg : SketchConfig) (a b : ℤ) → pos 0 ≤ℤ a → a <ℤ b → owned_end (node_config cfg a b) ≡ b
end_kept cfg a b h more = ground (arith, h, more)

one_sided : (z : ℤ) → (pos_part z ≡ 0) ⊎ (neg_part z ≡ 0)
one_sided (pos n) = inr refl
one_sided (negsuc n) = inl refl

range_length : (a b : ℤ) → pos 0 ≤ℤ a → a <ℤ b → pos_part a + pos_part (b -ℤ a) ≡ pos_part b
range_length a b h more =
    let parts = -ℤ_parts b a in
    let l = one_sided a in let m = one_sided b in let n = one_sided (b -ℤ a) in omega arith

-- A node with usable settings holds its range, never all partitions for want of one.
pub new_node-HasRange :
    {S V : Type 0} (lib : Sketches S V) (c : Config) → IsUsable c → HasRange lib c (new_node lib c)
unfolding new_node new_sketch_server new_storage new_partitioner make_storage ◌-ℤ◌
new_node-HasRange lib c u =
    let a = c.node.range_start in
    let b = c.node.range_end in
    let kept = end_kept c.storage a b u.starts u.some_partition in
    let rising : ltb_ℤ b a ≡ false = ground (arith, u.some_partition) in
    record {
      made = rw (kept, make_storage) (rw rising refl);
      hashed = total_kept a b c.storage.num_partitions u.starts u.some_partition u.within;
      starts = refl;
      ends = kept;
      holds = rw kept (
          rw (length-replicate (pos_part (b -ℤ a)) lib.new_prom_sketches)
            (range_length a b u.starts u.some_partition));
    }
