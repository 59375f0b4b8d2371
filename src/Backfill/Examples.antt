-- ===== src/Backfill/Examples.antt =====
-- A backfill of two hours and a half of one metric, with four samples an hour.
use prom_sketch_distributed.Common.{
  lookup, ℕ, ◌+◌, String, ◌≡◌, refl, ◌≢◌, true, List, [], ◌∷◌, ◌++◌, arith, str_eq, eq_iff, ℤ, pos,
  Result, ok,
}
use prom_sketch_distributed.Insert.Batch.{TimeSeries}
use prom_sketch_distributed.Insert.Router.{Label}
use prom_sketch_distributed.Backfill.{
  LabelMap, BackfillCheckpoint, new_checkpoint, build_query_from_labels, backfill_series,
  backfill_chunk, run_chunks,
}
use prom_sketch_distributed.Backfill.Chunks.{Complete, run_chunks-Complete}
use prom_sketch_distributed.Backfill.Resume.{run, resume-same}
use prom_sketch_distributed.Backfill.Convert.{read_all}
use prom_sketch_distributed.Backfill.Convert.Matrix.{SameSeries, encode, read_all-encode}
use mathlib.Core.List.{reverse, reverse_perm}

abbrev four : String → ℕ → ℕ → ℕ → Result String ℕ
four query start end step = ok 4

abbrev send_all : ℕ → LabelMap → Result String ℕ
send_all n labels = ok n

abbrev begun : BackfillCheckpoint
unfolding new_checkpoint
begun = record (new_checkpoint 0 9_000_000_000_000) { series = (("__name__", "up") ∷ []) ∷ [] }

begun_run :
    (run_chunks four send_all 3 begun 0).1
    ≡ (0, 3_600_000_000_000)
      ∷ (3_600_000_000_000, 7_200_000_000_000)
      ∷ (7_200_000_000_000, 9_000_000_000_000)
      ∷ []
unfolding run_chunks begun new_checkpoint backfill_chunk backfill_series build_query_from_labels
    lookup
begun_run = refl

run_chunks-Complete_example : Complete four send_all begun 0 (run_chunks four send_all 3 begun 0)
unfolding begun new_checkpoint
run_chunks-Complete_example = run_chunks-Complete four send_all 3 begun 0 (omega arith)

resume-same_example : run four send_all (1 + 2) begun begun.last_chunk_end ≡ (
    let (cp', before) = run four send_all 1 begun begun.last_chunk_end in
    let (cp'', after) = run four send_all 2 cp' cp'.last_chunk_end in (cp'', before ++ after))
resume-same_example = resume-same four send_all 1 2 begun

abbrev two_labels : List Label
two_labels = record { name = "__name__"; value = "up" } ∷ record { name = "job"; value = "n" } ∷ []

job_other : ◌≢◌ {A = String} "job" "__name__"
job_other e = let found : str_eq "job" "__name__" ≡ true = (eq_iff "job" "__name__").1 e in cc

abbrev one_series : List (TimeSeries ℤ)
one_series =
    record {
      labels = two_labels;
      samples = record { timestamp = pos 1; sample_value = pos 5 } ∷ [];
    }
    ∷ []

-- A map that is visited from its end.
read_all-encode_example :
    SameSeries
      (read_all (λ s. pos 5) (λ t. t) (λ fs. reverse fs) (encode (λ v. "5") (λ t. t) one_series))
      one_series
read_all-encode_example =
    read_all-encode (λ v. "5") (λ t. t) (λ s. pos 5) (λ t. t) (λ fs. reverse fs)
      (λ fs. reverse_perm fs) one_series
      ((((job_other, tt), (tt, tt)), (λ e. cc), ((refl, refl), tt)), tt)
