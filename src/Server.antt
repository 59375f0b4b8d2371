-- ===== src/Server.antt =====
-- internal/psksketch/server/grpc.go: what a storage node answers the router and the querier. The
-- requests' labels become Prometheus's by `new_labels`, which stands for its `labels.New`, which
-- sorts. The text of an error is a parameter. `none` is Go's panic in the storage, which ends the
-- node. The listener, and the clock and the version of Health, are not modelled.
pub mod Batches
pub mod Cluster
pub mod Settings
pub mod Examples
use prom_sketch_distributed.Common.{
  ℕ, ◌+◌, String, Bool, true, false, Option, none, some, map_option, List, [], ◌∷◌, ltb,
  if◌then◌else◌, ℤ, Result, ok, err,
}
use prom_sketch_distributed.Insert.Router.{Label}
use prom_sketch_distributed.Insert.Batch.{Sample, TimeSeries}
use prom_sketch_distributed.Storage.{
  Sketches, Storage, StorageError, not_owned, memory_limit_exceeded, insert_failed, eval_failed,
  index_out_of_range, metrics_of, insert,
}
use prom_sketch_distributed.Storage.Reading.{SeriesResult, look_up, eval_with_labels}

pub record NodeConfig : Type 0 where
  pub id : String
  pub range_start : ℤ
  pub range_end : ℤ

pub record SketchServer (S : Type 0) : Type 0 where
  pub storage : Storage S
  pub node : NodeConfig

pub record InsertResponse : Type 0 where
  pub success : Bool
  pub error : String

pub record BatchInsertResponse : Type 0 where
  pub inserted : ℕ
  pub failed : ℕ
  pub failed_text : Option ℕ

pub record EvalResultSeries (V : Type 0) : Type 0 where
  pub labels : List Label
  pub samples : List (ℤ × V)

pub record EvalResponse (V : Type 0) : Type 0 where
  pub series : List (EvalResultSeries V)
  pub eval_error : Option String

pub record StatsResponse : Type 0 where
  pub node_id : String
  pub total_series : ℕ
  pub sketched_series : ℕ
  pub samples_inserted : ℕ
  pub partition_start : ℤ
  pub partition_end : ℤ

-- The loop of pbLabelsToPromLabels.
unfoldable pub copy_labels : List Label → List Label
copy_labels [] = []
copy_labels (l ∷ ls) = record { name = l.name; value = l.value } ∷ copy_labels ls

unfoldable pub pb_labels_to_prom_labels : (List Label → List Label) → List Label → List Label
unfolding copy_labels
pb_labels_to_prom_labels new_labels pb_labels = new_labels (copy_labels pb_labels)

unfoldable pub new_sketch_server : {S : Type 0} → Storage S → NodeConfig → SketchServer S
new_sketch_server storage node = record { storage = storage; node = node }

-- The response to an insert, by the storage's verdict.
unfoldable pub respond :
    (StorageError → String) → Result StorageError (Unit {0}) → Option InsertResponse
respond error_text (ok _) = some (record { success = true; error = "" })
respond error_text (err index_out_of_range) = none
respond error_text (err (not_owned p start end)) =
    some (record { success = false; error = error_text (not_owned p start end) })
respond error_text (err (memory_limit_exceeded used limit)) =
    some (record { success = false; error = error_text (memory_limit_exceeded used limit) })
respond error_text (err (insert_failed e)) =
    some (record { success = false; error = error_text (insert_failed e) })
respond error_text (err (eval_failed f e)) =
    some (record { success = false; error = error_text (eval_failed f e) })

-- `inserted++` or `failed++`, by the storage's verdict.
unfoldable pub tally : Result StorageError (Unit {0}) → ℕ × ℕ → Option (ℕ × ℕ)
tally (ok _) (inserted, failed) = some (inserted + 1, failed)
tally (err index_out_of_range) counts = none
tally (err (not_owned p start end)) (inserted, failed) = some (inserted, failed + 1)
tally (err (memory_limit_exceeded used limit)) (inserted, failed) = some (inserted, failed + 1)
tally (err (insert_failed e)) (inserted, failed) = some (inserted, failed + 1)
tally (err (eval_failed f e)) (inserted, failed) = some (inserted, failed + 1)

module _ {S V : Type 0} (xxhash : String → ℕ) (get : List Label → String → String)
    (lib : Sketches S V) (new_labels : List Label → List Label)
    (error_text : StorageError → String) where
  unfoldable pub handle_insert :
      SketchServer S → List Label → ℤ → V → SketchServer S × Option InsertResponse
  unfolding pb_labels_to_prom_labels respond
  handle_insert s pb_labels timestamp value =
      let (storage', r) =
        insert xxhash get lib s.storage (pb_labels_to_prom_labels new_labels pb_labels) timestamp
          value in
      (record s { storage = storage' }, respond error_text r)

  -- The inner loop of BatchInsert.
  unfoldable pub insert_samples :
      List Label → List (Sample V) → Storage S × ℕ × ℕ → Option (Storage S × ℕ × ℕ)
  insert_samples lbls [] acc = some acc
  insert_samples lbls (x ∷ xs) (storage, inserted, failed) =
      let (storage', r) = insert xxhash get lib storage lbls x.timestamp x.sample_value in
      elim (tally r (inserted, failed)) [
        | none ↦ none
        | some (inserted', failed') ↦ insert_samples lbls xs (storage', inserted', failed')
      ]

  unfoldable pub insert_series :
      List (TimeSeries V) → Storage S × ℕ × ℕ → Option (Storage S × ℕ × ℕ)
  unfolding insert_samples pb_labels_to_prom_labels
  insert_series [] acc = some acc
  insert_series (ts ∷ series) acc =
      elim (insert_samples (pb_labels_to_prom_labels new_labels ts.labels) ts.samples acc) [
        | none ↦ none
        | some acc' ↦ insert_series series acc'
      ]

  unfoldable pub handle_batch_insert :
      SketchServer S → List (TimeSeries V) → Option (SketchServer S × BatchInsertResponse)
  unfolding insert_series
  handle_batch_insert s series = elim (insert_series series (s.storage, 0, 0)) [
    | none ↦ none
    | some (storage', inserted, failed) ↦ some (
      record s { storage = storage' },
      record {
        inserted = inserted;
        failed = failed;
        failed_text = if ltb 0 failed then some failed else none;
      },
    )
  ]

  unfoldable pub handle_look_up : SketchServer S → List Label → String → ℤ → ℤ → Option Bool
  unfolding pb_labels_to_prom_labels
  handle_look_up s pb_labels func_name mint maxt =
      look_up xxhash get lib s.storage (pb_labels_to_prom_labels new_labels pb_labels) func_name
        mint maxt

  unfoldable pub to_eval_series : List (SeriesResult V) → List (EvalResultSeries V)
  unfolding copy_labels
  to_eval_series [] = []
  to_eval_series (r ∷ rest) =
      record { labels = copy_labels r.labels; samples = r.samples } ∷ to_eval_series rest

  unfoldable pub to_eval_response : Result StorageError (List (SeriesResult V)) → EvalResponse V
  unfolding to_eval_series
  to_eval_response (ok results) = record { series = to_eval_series results; eval_error = none }
  to_eval_response (err e) = record { series = []; eval_error = some (error_text e) }

  unfoldable pub handle_eval :
      SketchServer S → String → List Label → V → ℤ → ℤ → ℤ → Option (EvalResponse V)
  unfolding to_eval_response pb_labels_to_prom_labels
  handle_eval s func_name pb_labels other_args mint maxt cur_time = map_option to_eval_response (
      eval_with_labels xxhash get lib new_labels s.storage func_name
        (pb_labels_to_prom_labels new_labels pb_labels) other_args mint maxt cur_time)

module _ {S : Type 0} where
  -- The 32 bits of Go's conversion of an `int` to `int32`, for the partition numbers it is used on.
  unfoldable pub handle_stats : SketchServer S → StatsResponse
  unfolding metrics_of
  handle_stats s =
      let m = metrics_of s.storage in
      record {
        node_id = s.node.id;
        total_series = m.total_series;
        sketched_series = m.sketched_series;
        samples_inserted = m.samples_inserted;
        partition_start = s.node.range_start;
        partition_end = s.node.range_end;
      }
