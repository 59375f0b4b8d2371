-- ===== src/Insert/Batch.antt =====
-- internal/pskinsert/router/router.go, BatchInsert: series are grouped by node, and each group is
-- sent in one call. As in Router.antt the replies, the clock, and the order in which the calls
-- finish (Go's map order included) are parameters; `V` is the type of a sample's value.
pub mod Verdict
pub mod Grouping
mod Examples
use prom_sketch_distributed.Cluster.Partition.{Node, get_nodes_for_metric}
use prom_sketch_distributed.Cluster.Health.{HealthChecker, is_healthy}
use prom_sketch_distributed.Common.{
  ℕ, String, List, [], ◌∷◌, ◌++◌, str_eq, ◌==◌, if◌then◌else◌, length, ℤ, Result, ok, err,
  add_uint64,
}
use prom_sketch_distributed.Insert.Router.{Label, RouterMetrics, Router, has_client}
use prom_sketch_distributed.Cluster.Health

pub record Sample (V : Type 0) : Type 0 where
  pub timestamp : ℤ
  pub sample_value : V

pub record TimeSeries (V : Type 0) : Type 0 where
  pub labels : List Label
  pub samples : List (Sample V)

-- An RPC error, or the numbers of samples inserted and failed.
pub data BatchReply : Type 0 where
  batch_error : String → BatchReply
  batch_done : ℕ → ℕ → BatchReply

abbrev pub Groups : Type 0 → Type 0
Groups V = List (String × List (TimeSeries V))

-- The value of the first label called `__name__`, or the empty text.
unfoldable pub metric_name_of : List Label → String
metric_name_of [] = ""
metric_name_of (l ∷ ls) = if str_eq l.name "__name__" then l.value else metric_name_of ls

module _ {V : Type 0} where
  unfoldable pub append_series : String → TimeSeries V → Groups V → Groups V
  append_series id ts [] = (id, ts ∷ []) ∷ []
  append_series id ts ((j, series) ∷ groups) =
      if str_eq id j
      then (j, series ++ ts ∷ []) ∷ groups
      else (j, series) ∷ append_series id ts groups

  unfoldable pub group_nodes :
      (String → ℕ) → TimeSeries V → List Node → HealthChecker → Groups V → HealthChecker × Groups V
  unfolding append_series
  group_nodes asked ts [] hc groups = (hc, groups)
  group_nodes asked ts (n ∷ ns) hc groups =
      let (hc', healthy) = is_healthy (asked n.id) hc n.id in
      group_nodes asked ts ns hc' (if healthy then append_series n.id ts groups else groups)

  unfoldable pub group_series :
      (String → ℕ)
      → (TimeSeries V → String → ℕ)
      → Router
      → List (TimeSeries V)
      → HealthChecker
      → Groups V
      → HealthChecker × Groups V
  unfolding group_nodes metric_name_of
  group_series xxhash asked r [] hc groups = (hc, groups)
  group_series xxhash asked r (ts ∷ series) hc groups =
      let nodes =
        get_nodes_for_metric xxhash r.partitioner (metric_name_of ts.labels) r.replica_count in
      let (hc', groups') = group_nodes (asked ts) ts nodes hc groups in
      group_series xxhash asked r series hc' groups'

pub record BatchProgress : Type 0 where
  pub checker : HealthChecker
  pub counters : RouterMetrics
  pub errs : List (String × String)

unfoldable pub finish_batch : (String → ℕ) → String → BatchReply → BatchProgress → BatchProgress
finish_batch finished id (batch_error e) s = record {
  checker = Health.record_failure (finished id) s.checker id;
  counters = record (s.counters) {
    rpcs_sent = add_uint64 (s.counters).rpcs_sent 1;
    rpcs_failed = add_uint64 (s.counters).rpcs_failed 1;
  };
  errs = s.errs ++ (id, e) ∷ [];
}
finish_batch finished id (batch_done inserted failed) s = record s {
  checker = Health.record_success s.checker id;
  counters = record (s.counters) {
    rpcs_sent = add_uint64 (s.counters).rpcs_sent 1;
    samples_routed = add_uint64 (s.counters).samples_routed inserted;
  };
}

module _ {V : Type 0} where
  -- A group whose node has no client is passed over.
  unfoldable pub finish_batches :
      (String → ℕ)
      → List String
      → (String → List (TimeSeries V) → BatchReply)
      → Groups V
      → BatchProgress
      → BatchProgress
  unfolding has_client
  finish_batches finished clients reply [] s = s
  finish_batches finished clients reply ((id, series) ∷ groups) s =
      finish_batches finished clients reply groups
        (if has_client clients id then finish_batch finished id (reply id series) s else s)

  -- The verdict: an error only if every group has an error.
  unfoldable pub batch_verdict :
      Groups V → List (String × String) → Result (String × String) (Unit {0})
  batch_verdict groups [] = ok tt
  batch_verdict groups (e ∷ es) = if length groups == length (e ∷ es) then err e else ok tt

  unfoldable pub batch_insert :
      (String → ℕ)
      → (TimeSeries V → String → ℕ)
      → (String → ℕ)
      → (Groups V → Groups V)
      → (String → List (TimeSeries V) → BatchReply)
      → Router
      → List (TimeSeries V)
      → Router × Result (String × String) (Unit {0})
  unfolding batch_verdict
  batch_insert xxhash asked finished schedule reply r series =
      let (hc, groups) = group_series xxhash asked r series r.health_checker [] in
      let s =
        finish_batches finished r.clients reply (schedule groups)
          (record { checker = hc; counters = r.metrics; errs = [] }) in
      (record r { health_checker = s.checker; metrics = s.counters }, batch_verdict groups s.errs)
