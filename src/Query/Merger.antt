-- ===== src/Query/Merger.antt =====
-- internal/pskquery/merger/merger.go, and the Eval handler of internal/psksketch/server/grpc.go
-- that answers it. `arrivals` lists the clients of the pool in the order in which their replies arrive
-- on the channel. Samples are pairs of a timestamp and a value of type `F`. The semaphore, the
-- timeouts, the durations and the backend latency tracker are not modelled; MergeErrors is never
-- counted by the source.
pub mod Merging
pub mod Answering
pub mod Serving
mod Handler
pub mod Examples
use prom_sketch_distributed.Server.{pb_labels_to_prom_labels}
use prom_sketch_distributed.Common.{
  put, ℕ, String, Bool, true, false, Option, none, some, map_option, List, [], ◌∷◌, ◌++◌, str_eq,
  if◌then◌else◌, ℤ, Result, ok, err, add_uint64,
}
use prom_sketch_distributed.Query.Parser.{Expr, QueryInfo, parse}
use prom_sketch_distributed.Insert.Router.{Label, to_pb_labels}
use prom_sketch_distributed.Query.Capabilities.{can_handle}
use prom_sketch_distributed.Query.Steps.{
  build_labels_from_query, unix_milli, window_start, step_times,
}
use prom_sketch_distributed.Query.Steps

pub record Sample (F : Type 0) : Type 0 where
  pub time : ℤ
  pub number : F

-- The protobuf messages: a matched series, Eval's request, and its response.
pub record EvalResultSeries (F : Type 0) : Type 0 where
  pub labels : List Label
  pub samples : List (Sample F)

pub record EvalRequest (F : Type 0) : Type 0 where
  pub func_name : String
  pub labels : List Label
  pub other_args : F
  pub min_time : ℤ
  pub max_time : ℤ
  pub cur_time : ℤ

pub record EvalResponse (F : Type 0) : Type 0 where
  pub samples : List (Sample F)
  pub error : String
  pub series : List (EvalResultSeries F)

-- A map from label names to values, in the order of the first insertion.
pub record SketchSeriesResult (F : Type 0) : Type 0 where
  pub label_map : List (String × String)
  pub samples : List (Sample F)

pub record MergerMetrics : Type 0 where
  pub sketch_queries : ℕ
  pub backend_queries : ℕ
  pub sketch_hits : ℕ
  pub sketch_misses : ℕ

pub data Source : Type 0 where
  sketch backend : Source

pub data Answer (F B : Type 0) : Type 0 where
  merged_series : List (SketchSeriesResult F) → Answer F B
  step_samples : List (List (Sample F)) → Answer F B
  from_backend : B → Answer F B

pub record QueryResult (F B : Type 0) : Type 0 where
  pub source : Source
  pub answer : Answer F B
  pub query_info : QueryInfo F
  pub sketch_attempted : Bool
  pub sketch_miss : Bool

pub data QueryError : Type 0 where
  parse_failed : String → QueryError
  backend_failed : String → QueryError

-- What the code calls: metricsql, the label builder, the nodes' Eval by the client's ID, and the
-- backend.
pub record Services (F B : Type 0) : Type 0 where
  pub metricsql_parse : String → Result String (Expr F)
  pub build : List Label → List Label
  pub eval : String → EvalRequest F → Result String (EvalResponse F)
  pub backend_query : String → ℕ → Result String B
  pub backend_query_range : String → ℕ → ℕ → ℕ → Result String B
  pub zero_value : F
  pub half : F

unfoldable pub new_metrics : MergerMetrics
new_metrics = record { sketch_queries = 0; backend_queries = 0; sketch_hits = 0; sketch_misses = 0 }

abbrev pub bump : ℕ → ℕ
bump n = add_uint64 n 1

-- The loop that fills a series' map of labels.
unfoldable pub label_map_of : List Label → List (String × String) → List (String × String)
label_map_of [] m = m
label_map_of (l ∷ ls) m = label_map_of ls (put l.name l.value m)

module _ {F : Type 0} where
  -- One call of Eval for an instant query: its error, or the matched series.
  unfoldable pub node_series :
      Result String (EvalResponse F) → Result String (List (EvalResultSeries F))
  node_series (err e) = err e
  node_series (ok resp) = if str_eq resp.error "" then ok resp.series else err resp.error

  -- One call of Eval for a step of a range query.
  unfoldable pub node_samples : Result String (EvalResponse F) → Result String (List (Sample F))
  node_samples (err e) = err e
  node_samples (ok resp) = ok resp.samples

  unfoldable pub series_results : List (EvalResultSeries F) → List (SketchSeriesResult F)
  unfolding label_map_of
  series_results [] = []
  series_results (s ∷ rest) =
      record { label_map = label_map_of s.labels []; samples = s.samples } ∷ series_results rest

  -- What one reply adds to the merged series: nothing if it is an error.
  unfoldable pub series_of : Result String (EvalResponse F) → List (SketchSeriesResult F)
  unfolding node_series series_results
  series_of r = elim (node_series r) [ ok series ↦ series_results series | err e ↦ [] ]

  -- The loop that collects the replies.
  unfoldable pub collect_series :
      List (Result String (EvalResponse F)) → List (SketchSeriesResult F)
  unfolding series_of
  collect_series [] = []
  collect_series (r ∷ rest) = series_of r ++ collect_series rest

  unfoldable pub samples_of : Result String (EvalResponse F) → List (Sample F)
  unfolding node_samples
  samples_of r = elim (node_samples r) [ ok samples ↦ samples | err e ↦ [] ]

  unfoldable pub collect_samples : List (Result String (EvalResponse F)) → List (Sample F)
  unfolding samples_of
  collect_samples [] = []
  collect_samples (r ∷ rest) = samples_of r ++ collect_samples rest

  unfoldable pub has_samples : List (List (Sample F)) → Bool
  has_samples [] = false
  has_samples ([] ∷ rest) = has_samples rest
  has_samples ((s ∷ ss) ∷ rest) = true

module _ {F B : Type 0} where
  -- The backend's answer, after the counting of a backend query.
  unfoldable pub fall_back :
      QueryInfo F
      → Bool
      → MergerMetrics
      → Result String B
      → MergerMetrics × Result QueryError (QueryResult F B)
  fall_back info attempted m (ok b) = (
    record m { backend_queries = bump m.backend_queries },
    ok (record {
      source = backend;
      answer = from_backend b;
      query_info = info;
      sketch_attempted = attempted;
      sketch_miss = attempted;
    }),
  )
  fall_back info attempted m (err e) =
      (record m { backend_queries = bump m.backend_queries }, err (backend_failed e))

  unfoldable pub answer_or_fall_back :
      QueryInfo F
      → MergerMetrics
      → Option (Answer F B)
      → Result String B
      → MergerMetrics × Result QueryError (QueryResult F B)
  unfolding fall_back
  answer_or_fall_back info m (some a) from_b = (
    record m { sketch_queries = bump m.sketch_queries; sketch_hits = bump m.sketch_hits },
    ok (record {
      source = sketch;
      answer = a;
      query_info = info;
      sketch_attempted = true;
      sketch_miss = false;
    }),
  )
  answer_or_fall_back info m none from_b =
      fall_back info true
        (record m { sketch_queries = bump m.sketch_queries; sketch_misses = bump m.sketch_misses })
        from_b

module _ {F B : Type 0} (sv : Services F B) where
  -- The request for the window that ends at an instant.
  unfoldable pub request_at : QueryInfo F → ℕ → ℤ → EvalRequest F
  request_at info ts cur_time = record {
    func_name = info.function_name;
    labels = to_pb_labels ((sv.build) (build_labels_from_query info));
    other_args = Steps.other_args sv.zero_value sv.half info;
    min_time = window_start (unix_milli ts) info.range;
    max_time = unix_milli ts;
    cur_time = cur_time;
  }

  -- The replies to one fan-out, in the order of their arrival; every node reads its own clock.
  unfoldable pub replies :
      QueryInfo F → ℕ → (String → ℤ) → List String → List (Result String (EvalResponse F))
  replies info ts cur_time [] = []
  replies info ts cur_time (id ∷ ids) =
      (sv.eval) id (request_at info ts (cur_time id)) ∷ replies info ts cur_time ids

  abbrev pub series_answer : List (SketchSeriesResult F) → Option (Answer F B)
  series_answer [] = none
  series_answer (s ∷ rest) = some (merged_series (s ∷ rest))

  unfoldable pub query :
      MergerMetrics
      → String
      → ℕ
      → (String → ℤ)
      → List String
      → MergerMetrics × Result QueryError (QueryResult F B)
  unfolding answer_or_fall_back fall_back
  query m text ts cur_time arrivals = elim (parse sv.metricsql_parse text) [
    | err e ↦ (m, err (parse_failed e))
    | ok info ↦
        if (can_handle info).can_handle_with_sketches
        then answer_or_fall_back info m
            (series_answer (collect_series (replies info ts cur_time arrivals)))
            ((sv.backend_query) text ts)
        else fall_back info false m ((sv.backend_query) text ts)
  ]

  -- The samples of each step.
  unfoldable pub step_results :
      QueryInfo F → (ℕ → String → ℤ) → (ℕ → List String) → List ℕ → List (List (Sample F))
  unfolding collect_samples replies
  step_results info cur_time arrivals [] = []
  step_results info cur_time arrivals (ts ∷ times) =
      collect_samples (replies info ts (cur_time ts) (arrivals ts))
      ∷ step_results info cur_time arrivals times

  abbrev pub steps_answer : List (List (Sample F)) → Option (Answer F B)
  steps_answer results = if has_samples results then some (step_samples results) else none

  -- `none` if the fuel of the loop over the steps runs out.
  unfoldable pub query_range :
      ℕ
      → MergerMetrics
      → String
      → ℕ
      → ℕ
      → ℕ
      → (ℕ → String → ℤ)
      → (ℕ → List String)
      → Option (MergerMetrics × Result QueryError (QueryResult F B))
  unfolding answer_or_fall_back fall_back
  query_range fuel m text start end step cur_time arrivals = elim (parse sv.metricsql_parse text) [
    | err e ↦ some (m, err (parse_failed e))
    | ok info ↦
        if (can_handle info).can_handle_with_sketches
        then map_option
            (λ times.
              answer_or_fall_back info m (steps_answer (step_results info cur_time arrivals times))
                ((sv.backend_query_range) text start end step))
            (step_times fuel start end step)
        else some (fall_back info false m ((sv.backend_query_range) text start end step))
  ]

module _ {F : Type 0} where
  abbrev pub with_pb_labels : List (EvalResultSeries F) → List (EvalResultSeries F)
  with_pb_labels [] = []
  with_pb_labels (sr ∷ rest) =
      record { labels = to_pb_labels sr.labels; samples = sr.samples } ∷ with_pb_labels rest

-- The server's side, SketchServer.Eval, as the merger's messages have it: the request's labels are
-- converted, by Server's conversion. `EvalWithLabels` of the storage is a parameter, which returns the
-- matched series with their samples or an error's text; Server.handle_eval is the same handler over
-- the storage itself.
module _ {F : Type 0} (new_labels : List Label → List Label) where
  abbrev pub to_prom_request : EvalRequest F → EvalRequest F
  to_prom_request req = record req { labels = pb_labels_to_prom_labels new_labels req.labels }

  unfoldable pub serve_eval :
      (EvalRequest F → Result String (List (EvalResultSeries F)))
      → EvalRequest F
      → Result String (EvalResponse F)
  unfolding pb_labels_to_prom_labels
  serve_eval eval_with_labels req = elim (eval_with_labels (to_prom_request req)) [
    | err e ↦ ok (record { samples = []; error = e; series = [] })
    | ok results ↦ ok (record { samples = []; error = ""; series = with_pb_labels results })
  ]
