-- ===== src/Storage.antt =====
-- internal/storage/storage.go and internal/storage/partition/partition.go. The PromSketch library is a
-- parameter, `Sketches`: one value of type `S` is what one partition holds, and an error is its text.
-- Samples have values of type `V`. xxhash and Prometheus's `Labels.Get` are parameters. The locks and
-- the Prometheus metrics are not modelled: a call of Insert is one step.
pub mod Reading
pub mod Spec
pub mod Effects
mod Cells
pub mod Sharding
pub mod Runs
pub mod Monolith
pub mod Refinement
pub mod Accounting
pub mod Rows
pub mod Ownership
pub mod Bounds
pub mod Racing
mod Alone
pub mod Examples
use prom_sketch_distributed.Cluster.Partition.{to_uint64}
use prom_sketch_distributed.Common.{
  ◌-ℤ◌, ℕ, zero, suc, ◌+◌, ◌*◌, ◌%◌, String, Bool, ◌&&◌, ◌||◌, not, Option, none, some, List, [],
  ◌∷◌, ltb, if◌then◌else◌, get_elem?, ℤ, pos, negsuc, pos_part, ltb_ℤ, leb_ℤ, eq_ℤ, Result, ok, err,
  add_uint64,
}
use prom_sketch_distributed.Insert.Router.{Label}
use prom_sketch_distributed.Targets.{SketchTarget, CompiledTarget, matches}

-- What storage.go calls of the library, in one run of the program. The library draws random numbers,
-- reads the clock and ranges over maps. A value of `S` is all that a partition has been through, and
-- a function here says what this run's draws make of the call after that; so a theorem for all such
-- records holds for every run. Two runs have two records, as in Storage.Runs.
pub record Sketches (S V : Type 0) : Type 0 where
  pub new_prom_sketches : S
  pub print_coverage : S → List Label → String → ℤ × ℤ
  pub new_sketch_cache_instance : S → List Label → String → ℤ → S × Option String
  pub sketch_insert : S → List Label → ℤ → V → S × Option String
  pub look_up : S → List Label → String → ℤ → ℤ → Bool
  -- The matched series with their labels and samples, and the errors among the annotations.
  pub eval_with_labels :
      S → String → List Label → V → ℤ → ℤ → ℤ → List (List Label × List (ℤ × V)) × List String

pub record StorageMetrics : Type 0 where
  pub total_series : ℕ
  pub sketched_series : ℕ
  pub samples_inserted : ℕ
  pub sketch_insert_errors : ℕ
  pub memory_rejections : ℕ

pub record SketchConfig : Type 0 where
  pub num_partitions : ℤ
  pub targets : List CompiledTarget
  pub default_window_size : ℤ
  pub memory_limit : ℕ
  pub config_start : ℤ
  pub config_end : ℤ

pub record Storage (S : Type 0) : Type 0 where
  pub config : SketchConfig
  pub partitions : List S
  pub num_hashed : ℤ
  pub metrics : StorageMetrics
  pub memory_limit : ℕ
  pub memory_used : ℕ
  pub partition_start : ℤ
  pub partition_end : ℤ

pub data StorageError : Type 0 where
  not_owned : ℤ → ℤ → ℤ → StorageError
  memory_limit_exceeded : ℕ → ℕ → StorageError
  insert_failed : String → StorageError
  eval_failed : String → String → StorageError
  -- Go's panic on an index out of range.
  index_out_of_range : StorageError

-- partition.NewPartitioner
unfoldable pub new_partitioner : ℤ → ℤ
new_partitioner num_partitions = if leb_ℤ num_partitions (pos 0) then pos 1 else num_partitions

-- The node's range: with both bounds 0 it owns all partitions.
abbrev pub owned_end : SketchConfig → ℤ
owned_end cfg =
    if eq_ℤ cfg.config_start (pos 0) && eq_ℤ cfg.config_end (pos 0)
    then cfg.num_partitions
    else cfg.config_end

abbrev pub replicate : {S : Type 0} → ℕ → S → List S
replicate zero x = []
replicate (suc n) x = x ∷ replicate n x

-- s.partitions[i] = x
abbrev pub set_at : {S : Type 0} → ℕ → S → List S → List S
set_at i x [] = []
set_at zero x (y ∷ ys) = x ∷ ys
set_at (suc i) x (y ∷ ys) = y ∷ set_at i x ys

-- The ~64KB that a new series is counted with.
abbrev pub estimated_bytes_per_series : ℕ
estimated_bytes_per_series = 65536

-- Whether a new series has no room under the limit.
abbrev pub no_room : ℕ → ℕ → Bool
no_room limit used = ltb 0 limit && ltb limit (add_uint64 used estimated_bytes_per_series)

-- The functions that createSketchInstance lists, in order.
abbrev pub sketch_functions : List String
sketch_functions =
    "avg_over_time" ∷ "sum_over_time" ∷ "sum2_over_time" ∷ "count_over_time" ∷ "stddev_over_time"
    ∷ "stdvar_over_time" ∷ "quantile_over_time" ∷ "min_over_time" ∷ "max_over_time"
    ∷ "entropy_over_time" ∷ "distinct_over_time" ∷ "l1_over_time" ∷ "l2_over_time" ∷ []

abbrev pub seconds_to_milli : ℤ → ℤ
seconds_to_milli (pos n) = pos (n * 1000)
seconds_to_milli (negsuc n) = negsuc (n * 1000 + 999)

abbrev pub window_of : SketchConfig → SketchTarget → ℤ
window_of cfg target = elim target.window_size [
  | none ↦ cfg.default_window_size
  | some w ↦ if ltb_ℤ (pos 0) w then w else cfg.default_window_size
]

module _ {S V : Type 0} (lib : Sketches S V) where
  -- What NewStorage returns, with the targets compiled and the limit parsed, where it does not panic.
  unfoldable pub new_storage : SketchConfig → Storage S
  unfolding new_partitioner
  new_storage cfg = record {
    config = cfg;
    partitions = replicate (pos_part (owned_end cfg -ℤ cfg.config_start)) (lib.new_prom_sketches);
    num_hashed = new_partitioner cfg.num_partitions;
    metrics = record {
      total_series = 0;
      sketched_series = 0;
      samples_inserted = 0;
      sketch_insert_errors = 0;
      memory_rejections = 0;
    };
    memory_limit = cfg.memory_limit;
    memory_used = 0;
    partition_start = cfg.config_start;
    partition_end = owned_end cfg;
  }

  -- NewStorage: `none` is Go's panic on a negative number of partitions.
  unfoldable pub make_storage : SketchConfig → Option (Storage S)
  unfolding new_storage
  make_storage cfg = if ltb_ℤ (owned_end cfg) cfg.config_start then none else some (new_storage cfg)

  unfoldable pub has_sketch_instance : S → List Label → Bool
  has_sketch_instance ps lbls =
      let (min_time, max_time) = (lib.print_coverage) ps lbls "avg_over_time" in
      not (eq_ℤ min_time (negsuc 0)) && not (eq_ℤ max_time (negsuc 0))

  -- The loop of createSketchInstance, which passes over the errors.
  unfoldable pub create_sketch_instances : List String → S → List Label → ℤ → S
  create_sketch_instances [] ps lbls window = ps
  create_sketch_instances (f ∷ fs) ps lbls window =
      create_sketch_instances fs ((lib.new_sketch_cache_instance) ps lbls f window).0 lbls window

  unfoldable pub create_sketch_instance : SketchConfig → S → List Label → SketchTarget → S
  unfolding create_sketch_instances
  create_sketch_instance cfg ps lbls target =
      create_sketch_instances sketch_functions ps lbls (seconds_to_milli (window_of cfg target))

  -- The end of Insert: the sample itself, into the partition at this index.
  unfoldable pub insert_sample :
      Storage S → ℕ → S → List Label → ℤ → V → Storage S × Result StorageError (Unit {0})
  insert_sample s i ps lbls timestamp value =
      let m = s.metrics in
      let (ps', failed) = (lib.sketch_insert) ps lbls timestamp value in
      let s' : Storage S = record s { partitions = set_at i ps' s.partitions } in
      elim failed [
        | none ↦ (
          record s' { metrics = record m { samples_inserted = add_uint64 m.samples_inserted 1 } },
          ok tt,
        )
        | some e ↦ (
          record s' {
            metrics = record m { sketch_insert_errors = add_uint64 m.sketch_insert_errors 1 };
          },
          err (insert_failed e),
        )
      ]

  -- Insert in a partition that the node owns: a new series needs room.
  unfoldable pub insert_owned :
      Storage S
      → ℕ
      → S
      → List Label
      → SketchTarget
      → ℤ
      → V
      → Storage S × Result StorageError (Unit {0})
  unfolding insert_sample create_sketch_instance has_sketch_instance
  insert_owned s i ps lbls target timestamp value =
      let m = s.metrics in
      let used = add_uint64 s.memory_used estimated_bytes_per_series in
      if has_sketch_instance ps lbls
      then insert_sample s i ps lbls timestamp value
      else if no_room s.memory_limit s.memory_used
      then (
        record s { metrics = record m { memory_rejections = add_uint64 m.memory_rejections 1 } },
        err (memory_limit_exceeded s.memory_used s.memory_limit),
      )
      else insert_sample
          (record s {
            memory_used = used;
            metrics = record m { sketched_series = add_uint64 m.sketched_series 1 };
          })
          i (create_sketch_instance s.config ps lbls target) lbls timestamp value

module _ (xxhash : String → ℕ) (get : List Label → String → String) where
  -- partition.GetPartition
  unfoldable pub get_partition : ℤ → List Label → ℤ
  get_partition num_partitions lbls = pos (xxhash (get lbls "__name__") % to_uint64 num_partitions)

-- Metrics
unfoldable pub metrics_of : {S : Type 0} → Storage S → StorageMetrics
metrics_of s = record {
  total_series = s.metrics.total_series;
  sketched_series = s.metrics.sketched_series;
  samples_inserted = s.metrics.samples_inserted;
  sketch_insert_errors = s.metrics.sketch_insert_errors;
  memory_rejections = s.metrics.memory_rejections;
}

module _ {S V : Type 0} (xxhash : String → ℕ) (get : List Label → String → String)
    (lib : Sketches S V) where
  unfoldable pub insert :
      Storage S → List Label → ℤ → V → Storage S × Result StorageError (Unit {0})
  unfolding insert_owned get_partition matches
  insert s lbls timestamp value =
      let p = get_partition xxhash get s.num_hashed lbls in
      elim (matches get s.config.targets lbls) [
        | none ↦ (s, ok tt)
        | some target ↦
            if ltb_ℤ p s.partition_start || leb_ℤ s.partition_end p
            then (s, err (not_owned p s.partition_start s.partition_end))
            else (elim (get_elem? s.partitions (pos_part (p -ℤ s.partition_start))) [
              | none ↦ (s, err index_out_of_range)
              | some ps ↦
                  insert_owned lib s (pos_part (p -ℤ s.partition_start)) ps lbls target timestamp
                    value
            ])
      ]
