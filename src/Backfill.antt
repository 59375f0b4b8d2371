-- ===== src/Backfill.antt =====
-- cmd/pskctl/backfill.go: samples of the past are read from a backend in chunks of an hour, and written
-- to the target. Times are nanoseconds. A label set is an association list; the backend's QueryRange,
-- the discovery of the series over HTTP and the conversion and sending of a result are parameters. The chunks that the
-- loop has processed are a value beside the checkpoint. The command line, the printing, and the file
-- of the checkpoint, whose failures are only printed, are not modelled.
pub mod Chunks
pub mod Resume
pub mod Convert
mod Examples
use prom_sketch_distributed.Common.{
  lookup, ℕ, zero, suc, ◌+◌, ◌-◌, ◌/◌, ◌%◌, String, true, none, some, List, [], ◌∷◌, str_eq, ltb,
  ◌==◌, if◌then◌else◌, Result, ok, err,
}

abbrev pub LabelMap : Type 0
LabelMap = List (String × String)

abbrev pub Chunk : Type 0
Chunk = ℕ × ℕ

pub record BackfillCheckpoint : Type 0 where
  pub start_time : ℕ
  pub end_time : ℕ
  pub series : List LabelMap
  pub last_chunk_end : ℕ
  pub total_samples : ℕ
  pub total_errors : ℕ
  pub chunks_completed : ℕ

-- The checkpoint of a new backfill.
unfoldable pub new_checkpoint : ℕ → ℕ → BackfillCheckpoint
new_checkpoint start end = record {
  start_time = start;
  end_time = end;
  series = [];
  last_chunk_end = start;
  total_samples = 0;
  total_errors = 0;
  chunks_completed = 0;
}

-- One hour.
abbrev pub chunk_duration : ℕ
chunk_duration = 3_600_000_000_000

-- Fifteen seconds.
abbrev pub scrape_step : ℕ
scrape_step = 15_000_000_000

-- The number of chunks that the command announces, for an end that is not before the start.
unfoldable pub total_chunks : ℕ → ℕ → ℕ
total_chunks start end =
    let n = (end - start) / chunk_duration in
    if (end - start) % chunk_duration == 0 then n else n + 1

unfoldable pub build_query_from_labels : LabelMap → String
unfolding lookup
build_query_from_labels labels = elim (lookup "__name__" labels) [
  | none ↦ "up"
  | some name ↦ if str_eq name "" then "up" else name
]

module _ {R E : Type 0} (query_range : String → ℕ → ℕ → ℕ → Result E R)
    (convert_and_send : R → LabelMap → Result E ℕ) where
  -- The loop of backfillChunk over the series: one that fails is passed over.
  unfoldable pub backfill_series : List LabelMap → ℕ → ℕ → ℕ → ℕ
  unfolding build_query_from_labels
  backfill_series [] start end total = total
  backfill_series (labels ∷ series) start end total =
      elim (query_range (build_query_from_labels labels) start end scrape_step) [
        | err _ ↦ backfill_series series start end total
        | ok result ↦ elim (convert_and_send result labels) [
          | err _ ↦ backfill_series series start end total
          | ok samples ↦ backfill_series series start end (total + samples)
        ]
      ]

  -- backfillChunk: its error is always nil.
  unfoldable pub backfill_chunk : List LabelMap → ℕ → ℕ → Result E ℕ
  unfolding backfill_series
  backfill_chunk series start end = ok (backfill_series series start end 0)

  -- The loop over the chunks, with the chunks that were processed.
  unfoldable pub run_chunks : ℕ → BackfillCheckpoint → ℕ → BackfillCheckpoint × List Chunk
  unfolding backfill_chunk
  run_chunks zero cp current = (cp, [])
  run_chunks (suc fuel) cp current = elim (ltb current cp.end_time) [
    | true ↦
        let next = current + chunk_duration in
        let chunk_end = if ltb cp.end_time next then cp.end_time else next in
        elim (backfill_chunk cp.series current chunk_end) [
          | err _ ↦
              let (cp', rest) =
                run_chunks fuel (record cp { total_errors = cp.total_errors + 1 }) next in
              (cp', (current, chunk_end) ∷ rest)
          | ok samples ↦
              let (cp', rest) =
                run_chunks fuel
                  (record cp {
                    total_samples = cp.total_samples + samples;
                    last_chunk_end = chunk_end;
                    chunks_completed = cp.chunks_completed + 1;
                  })
                  next in
              (cp', (current, chunk_end) ∷ rest)
        ]
    | _ ↦ (cp, [])
  ]

  -- executeBackfillWithCheckpoint: the series are discovered unless the checkpoint has them.
  unfoldable pub execute_backfill :
      (ℕ → ℕ → Result E (List LabelMap))
      → ℕ
      → BackfillCheckpoint
      → Result E (BackfillCheckpoint × List Chunk)
  unfolding run_chunks
  execute_backfill discover_series fuel cp = elim cp.series [
    | [] ↦ elim (discover_series cp.start_time cp.end_time) [
      | err e ↦ err e
      | ok [] ↦ ok (cp, [])
      | ok (labels ∷ series) ↦
          ok (run_chunks fuel (record cp { series = labels ∷ series }) cp.last_chunk_end)
    ]
    | _ ∷ _ ↦ ok (run_chunks fuel cp cp.last_chunk_end)
  ]
