-- ===== src/Storage/Reading.antt =====
-- storage.go: LookUp, Eval and EvalWithLabels. The label conversions copy names and values;
-- Prometheus's `labels.New`, which sorts, is a parameter. `none` is Go's panic on an index out of
-- range.
use prom_sketch_distributed.Common.{
  ◌-ℤ◌, ℕ, String, Bool, false, ◌||◌, Option, some, map_option, List, [], ◌∷◌, ◌++◌, if◌then◌else◌,
  get_elem?, ℤ, pos_part, ltb_ℤ, leb_ℤ, Result, ok, err,
}
use prom_sketch_distributed.Insert.Router.{Label}
use prom_sketch_distributed.Storage.{
  Sketches, Storage, StorageError, not_owned, eval_failed, get_partition,
}

pub record SeriesResult (V : Type 0) : Type 0 where
  pub labels : List Label
  pub samples : List (ℤ × V)

module _ {V : Type 0} where
  unfoldable pub all_samples : List (SeriesResult V) → List (ℤ × V)
  all_samples [] = []
  all_samples (r ∷ rest) = r.samples ++ all_samples rest

module _ {V : Type 0} (new_labels : List Label → List Label) where
  unfoldable pub series_results : List (List Label × List (ℤ × V)) → List (SeriesResult V)
  series_results [] = []
  series_results ((lbls, samples) ∷ rest) =
      record { labels = new_labels lbls; samples = samples } ∷ series_results rest

  -- What EvalWithLabels makes of the library's answer.
  unfoldable pub read_answer :
      String
      → List (List Label × List (ℤ × V)) × List String
      → Result StorageError (List (SeriesResult V))
  unfolding series_results
  read_answer func_name (series, []) = ok (series_results series)
  read_answer func_name (series, e ∷ es) = err (eval_failed func_name e)

module _ {S V : Type 0} (xxhash : String → ℕ) (get : List Label → String → String)
    (lib : Sketches S V) where
  unfoldable pub look_up : Storage S → List Label → String → ℤ → ℤ → Option Bool
  unfolding get_partition
  look_up s lbls func_name mint maxt =
      let p = get_partition xxhash get s.num_hashed lbls in
      if ltb_ℤ p s.partition_start || leb_ℤ s.partition_end p
      then some false
      else map_option (λ ps. (lib.look_up) ps lbls func_name mint maxt)
          (get_elem? s.partitions (pos_part (p -ℤ s.partition_start)))

  unfoldable pub eval_with_labels :
      (List Label → List Label)
      → Storage S
      → String
      → List Label
      → V
      → ℤ
      → ℤ
      → ℤ
      → Option (Result StorageError (List (SeriesResult V)))
  unfolding get_partition read_answer
  eval_with_labels new_labels s func_name lbls other_args mint maxt cur_time =
      let p = get_partition xxhash get s.num_hashed lbls in
      if ltb_ℤ p s.partition_start || leb_ℤ s.partition_end p
      then some (err (not_owned p s.partition_start s.partition_end))
      else map_option
          (λ ps.
            read_answer new_labels func_name
              ((lib.eval_with_labels) ps func_name lbls other_args mint maxt cur_time))
          (get_elem? s.partitions (pos_part (p -ℤ s.partition_start)))

  abbrev join_samples :
      Result StorageError (List (SeriesResult V)) → Result StorageError (List (ℤ × V))
  join_samples (ok results) = ok (all_samples results)
  join_samples (err e) = err e

  -- Eval: the samples of all series, one after the other.
  unfoldable pub eval :
      (List Label → List Label)
      → Storage S
      → String
      → List Label
      → V
      → ℤ
      → ℤ
      → ℤ
      → Option (Result StorageError (List (ℤ × V)))
  unfolding eval_with_labels all_samples
  eval new_labels s func_name lbls other_args mint maxt cur_time =
      map_option join_samples
        (eval_with_labels new_labels s func_name lbls other_args mint maxt cur_time)
