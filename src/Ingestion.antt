-- ===== src/Ingestion.antt =====
-- internal/ingestion/pipeline/pipeline.go and convert.go: a series that comes in goes to the storage
-- sample by sample, and to the forwarder's queue as a whole. VictoriaMetrics's and Prometheus's types
-- of a label, a sample and a series have the same fields, and are one type here; the deep copies are
-- element by element. A panic in the storage counts as an error of its Insert. The HTTP
-- handlers, the scrape manager, the Prometheus metrics, and the worker of the forwarder, which takes
-- its steps between the calls, are not modelled here.
pub mod Stats
pub mod Events
pub mod Rates
pub mod Counters
pub mod Received
mod Examples
use prom_sketch_distributed.Insert.Router.{Label}
use prom_sketch_distributed.Insert.Batch.{Sample, TimeSeries}
use prom_sketch_distributed.Storage.{Sketches, Storage, insert}
use prom_sketch_distributed.Ingestion.Stats.{Tracker, new_tracker, add_samples}
use prom_sketch_distributed.Forwarder.{Forwarder, forward}
use prom_sketch_distributed.Common.{
  ℕ, String, Option, none, some, List, [], ◌∷◌, if◌then◌else◌, length, pos, ok, err, add_uint64,
}

pub record PipelineMetrics : Type 0 where
  pub total_samples_received : ℕ
  pub sketch_samples_inserted : ℕ
  pub backend_samples_forwarded : ℕ
  pub errors : ℕ

pub record Pipeline (S V F : Type 0) : Type 0 where
  pub storage : Storage S
  pub forwarder : Forwarder (TimeSeries V)
  pub ingest_stats : Tracker F
  pub metrics : PipelineMetrics

unfoldable pub copy_vm_labels : List Label → List Label
copy_vm_labels [] = []
copy_vm_labels (l ∷ ls) = record { name = l.name; value = l.value } ∷ copy_vm_labels ls

-- prompbLabelsToLabels
unfoldable pub prompb_labels_to_labels : List Label → List Label
prompb_labels_to_labels [] = []
prompb_labels_to_labels (l ∷ ls) =
    record { name = l.name; value = l.value } ∷ prompb_labels_to_labels ls

-- VMMarshalLabelsToLabels
unfoldable pub vm_marshal_labels_to_labels : List Label → List Label
vm_marshal_labels_to_labels [] = []
vm_marshal_labels_to_labels (l ∷ ls) =
    record { name = l.name; value = l.value } ∷ vm_marshal_labels_to_labels ls

module _ {V : Type 0} where
  unfoldable pub copy_vm_samples : List (Sample V) → List (Sample V)
  copy_vm_samples [] = []
  copy_vm_samples (s ∷ ss) =
      record { timestamp = s.timestamp; sample_value = s.sample_value } ∷ copy_vm_samples ss

  unfoldable pub vm_prompb_to_prompb : List (TimeSeries V) → List (TimeSeries V)
  unfolding copy_vm_labels copy_vm_samples
  vm_prompb_to_prompb [] = []
  vm_prompb_to_prompb (ts ∷ tss) =
      record { labels = copy_vm_labels ts.labels; samples = copy_vm_samples ts.samples }
      ∷ vm_prompb_to_prompb tss

  unfoldable pub vm_marshal_to_prompb : List (TimeSeries V) → List (TimeSeries V)
  unfolding copy_vm_labels copy_vm_samples
  vm_marshal_to_prompb [] = []
  vm_marshal_to_prompb (ts ∷ tss) =
      record { labels = copy_vm_labels ts.labels; samples = copy_vm_samples ts.samples }
      ∷ vm_marshal_to_prompb tss

  unfoldable pub vm_marshal_ts_to_prompb : TimeSeries V → TimeSeries V
  unfolding copy_vm_labels copy_vm_samples
  vm_marshal_ts_to_prompb ts = record {
    labels = copy_vm_labels ts.labels;
    samples = copy_vm_samples ts.samples;
  }

module _ {S V F : Type 0} where
  -- NewPipeline, with the storage and the forwarder.
  unfoldable pub new_pipeline : F → Storage S → Forwarder (TimeSeries V) → Pipeline S V F
  new_pipeline zero_rate stor fwd = record {
    storage = stor;
    forwarder = fwd;
    ingest_stats = new_tracker zero_rate (pos 1_000_000_000) (pos 10);
    metrics = record {
      total_samples_received = 0;
      sketch_samples_inserted = 0;
      backend_samples_forwarded = 0;
      errors = 0;
    };
  }

  -- Metrics
  unfoldable pub pipeline_metrics : Pipeline S V F → PipelineMetrics
  pipeline_metrics p = record {
    total_samples_received = p.metrics.total_samples_received;
    sketch_samples_inserted = p.metrics.sketch_samples_inserted;
    backend_samples_forwarded = p.metrics.backend_samples_forwarded;
    errors = p.metrics.errors;
  }

  -- The forwarding at the end of processTimeSeries.
  unfoldable pub forward_series : TimeSeries V → Pipeline S V F → Pipeline S V F
  unfolding forward
  forward_series ts p =
      let m = p.metrics in
      let (f, queued) = forward p.forwarder ts in
      if queued
      then record p {
        forwarder = f;
        metrics = record m {
          backend_samples_forwarded = add_uint64 m.backend_samples_forwarded (length ts.samples);
        };
      }
      else record p { forwarder = f }

module _ {S V F : Type 0} (xxhash : String → ℕ) (get : List Label → String → String)
    (lib : Sketches S V) where
  -- One round of the loop over the samples.
  unfoldable pub process_sample : List Label → Sample V → Pipeline S V F → Pipeline S V F
  unfolding add_samples
  process_sample lbls x p =
      let m = p.metrics in
      let received : PipelineMetrics = record m {
        total_samples_received = add_uint64 m.total_samples_received 1;
      } in
      let stats = add_samples 1 p.ingest_stats in
      let (storage', r) = insert xxhash get lib p.storage lbls x.timestamp x.sample_value in
      elim r [
        | ok _ ↦ record p {
          storage = storage';
          ingest_stats = stats;
          metrics = record received {
            sketch_samples_inserted = add_uint64 m.sketch_samples_inserted 1;
          };
        }
        | err _ ↦ record p { storage = storage'; ingest_stats = stats; metrics = received }
      ]

  unfoldable pub process_samples : List Label → List (Sample V) → Pipeline S V F → Pipeline S V F
  unfolding process_sample
  process_samples lbls [] p = p
  process_samples lbls (x ∷ xs) p = process_samples lbls xs (process_sample lbls x p)

  -- processTimeSeries, whose error is always nil.
  unfoldable pub process_time_series :
      Pipeline S V F → TimeSeries V → Pipeline S V F × Option String
  unfolding process_samples forward_series prompb_labels_to_labels
  process_time_series p ts =
      let lbls = prompb_labels_to_labels ts.labels in
      (forward_series ts (process_samples lbls ts.samples p), none)

  -- Receive, which returns nil.
  unfoldable pub receive : Pipeline S V F → List (TimeSeries V) → Pipeline S V F
  unfolding process_time_series
  receive p [] = p
  receive p (ts ∷ series) =
      let (p', failed) = process_time_series p ts in
      elim failed [
        | none ↦ receive p' series
        | some _ ↦
            receive
              (record p' {
                metrics = record (p'.metrics) { errors = add_uint64 (p'.metrics).errors 1 };
              })
              series
      ]

  unfoldable pub receive_vm_time_series : Pipeline S V F → List (TimeSeries V) → Pipeline S V F
  unfolding receive vm_prompb_to_prompb
  receive_vm_time_series p tss = receive p (vm_prompb_to_prompb tss)

  unfoldable pub receive_vm_marshal_time_series :
      Pipeline S V F → List (TimeSeries V) → Pipeline S V F
  unfolding receive vm_marshal_to_prompb
  receive_vm_marshal_time_series p tss = receive p (vm_marshal_to_prompb tss)
