-- ===== src/Query/Router.antt =====
-- internal/query/router/router.go. What the code calls is a parameter, `Services`: metricsql's
-- parser, Prometheus's label builder, the sketch storage and the backend, with floats of type `F` and
-- backend answers of type `B`. Instants are as in Steps.antt; the counters are 64-bit words. The
-- wall-clock duration of a query, and the Prometheus metrics, are not modelled.
pub mod Routing
use prom_sketch_distributed.Common.{
  ℕ, String, Bool, true, false, Option, none, some, map_option, List, [], ◌∷◌, if◌then◌else◌, ℤ,
  Result, ok, err, add_uint64,
}
use prom_sketch_distributed.Query.Parser.{Expr, QueryInfo, parse}
use prom_sketch_distributed.Query.Capabilities.{can_handle}
use prom_sketch_distributed.Query.Steps.{
  build_labels_from_query, unix_milli, window_start, other_args, step_times,
}
use prom_sketch_distributed.Insert.Router.{Label}
use Prim.Native.String.{◌++◌ as ◌+s◌}

pub record Point (F : Type 0) : Type 0 where
  pub time : ℤ
  pub number : F

-- promsketch.Vector, where `none` is Go's nil.
abbrev pub Vector : Type 0 → Type 0
Vector F = Option (List (Point F))

pub record Services (F B : Type 0) : Type 0 where
  pub metricsql_parse : String → Result String (Expr F)
  -- The builder's labels after these calls of `Set`.
  pub build : List Label → List Label
  pub look_up : List Label → String → ℤ → ℤ → Bool
  pub eval : String → List Label → F → ℤ → ℤ → ℤ → Result String (Vector F)
  pub backend_query : String → ℕ → Result String B
  pub backend_query_range : String → ℕ → ℕ → ℕ → Result String B
  pub zero_value : F
  pub half : F

pub record RouterMetrics : Type 0 where
  pub sketch_queries : ℕ
  pub backend_queries : ℕ
  pub sketch_hits : ℕ
  pub sketch_misses : ℕ
  pub parsing_errors : ℕ
  pub execution_errors : ℕ

pub data Source : Type 0 where
  sketch backend : Source

-- A vector, one vector for each step, or the backend's answer.
pub data Answer (F B : Type 0) : Type 0 where
  vector : List (Point F) → Answer F B
  vectors : List (Vector F) → Answer F B
  from_backend : B → Answer F B

pub record QueryResult (F B : Type 0) : Type 0 where
  pub source : Source
  pub answer : Answer F B
  pub query_info : QueryInfo F
  pub sketch_attempted : Bool
  pub sketch_miss : Bool

pub data QueryError : Type 0 where
  parse_failed : String → QueryError
  backend_failed : String → QueryError

pub data SketchError : Type 0 where
  not_available : SketchError
  eval_failed : String → SketchError
  no_results : SketchError

unfoldable pub new_metrics : RouterMetrics
new_metrics = record {
  sketch_queries = 0;
  backend_queries = 0;
  sketch_hits = 0;
  sketch_misses = 0;
  parsing_errors = 0;
  execution_errors = 0;
}

abbrev pub bump : ℕ → ℕ
bump n = add_uint64 n 1

module _ {F B : Type 0} (sv : Services F B) where
  abbrev pub query_labels : QueryInfo F → List Label
  query_labels info = (sv.build) (build_labels_from_query info)

  abbrev eval_error : Result String (Vector F) → Result SketchError (Vector F)
  eval_error (ok v) = ok v
  eval_error (err e) = err (eval_failed e)

  unfoldable pub execute_with_sketches : QueryInfo F → ℤ → ℤ → ℤ → Result SketchError (Vector F)
  execute_with_sketches info mint maxt cur_time =
      if (sv.look_up) (query_labels info) info.function_name mint maxt
      then eval_error (
          (sv.eval) info.function_name (query_labels info) (other_args sv.zero_value sv.half info)
            mint maxt cur_time)
      else err not_available

  -- One vector for each instant whose evaluation did not fail.
  unfoldable pub eval_steps : QueryInfo F → ℤ → List ℕ → List (Vector F)
  eval_steps info cur_time [] = []
  eval_steps info cur_time (ts ∷ times) =
      let rest = eval_steps info cur_time times in
      elim ((sv.eval) info.function_name (query_labels info) (other_args sv.zero_value sv.half info)
        (window_start (unix_milli ts) info.range) (unix_milli ts) cur_time) [
          | ok v ↦ v ∷ rest
          | err e ↦ rest
        ]

  abbrev some_results : List (Vector F) → Result SketchError (List (Vector F))
  some_results [] = err no_results
  some_results (v ∷ vs) = ok (v ∷ vs)

  -- `none` if the fuel of the loop runs out.
  unfoldable pub execute_with_sketches_range :
      ℕ → QueryInfo F → ℕ → ℕ → ℕ → ℤ → Option (Result SketchError (List (Vector F)))
  unfolding eval_steps
  execute_with_sketches_range fuel info start end step cur_time =
      if (sv.look_up) (query_labels info) info.function_name (unix_milli start) (unix_milli end)
      then map_option (λ times. some_results (eval_steps info cur_time times))
          (step_times fuel start end step)
      else some (err not_available)

  -- `err == nil && result != nil`
  abbrev pub vector_answer : Result SketchError (Vector F) → Option (Answer F B)
  vector_answer (err e) = none
  vector_answer (ok none) = none
  vector_answer (ok (some v)) = some (vector v)

  abbrev pub vectors_answer : Result SketchError (List (Vector F)) → Option (Answer F B)
  vectors_answer (err e) = none
  vectors_answer (ok vs) = some (vectors vs)

  abbrev Outcome : Type 0
  Outcome = RouterMetrics × Result QueryError (QueryResult F B)

  -- The second half of both handlers: the backend's answer.
  unfoldable pub fall_back :
      QueryInfo F
      → Bool
      → RouterMetrics
      → Result String B
      → RouterMetrics × Result QueryError (QueryResult F B)
  fall_back info attempted m (ok b) = (
    record m { backend_queries = bump m.backend_queries },
    ok (record {
      source = backend;
      answer = from_backend b;
      query_info = info;
      sketch_attempted = attempted;
      sketch_miss = attempted;
    }),
  )
  fall_back info attempted m (err e) = (
    record m {
      backend_queries = bump m.backend_queries;
      execution_errors = bump m.execution_errors;
    },
    err (backend_failed e),
  )

  -- The sketches' answer if they were asked and had one, else the backend's.
  unfoldable pub answer_or_fall_back :
      QueryInfo F
      → RouterMetrics
      → Option (Answer F B)
      → Result String B
      → RouterMetrics × Result QueryError (QueryResult F B)
  unfolding fall_back
  answer_or_fall_back info m (some a) from_b = (
    record m { sketch_queries = bump m.sketch_queries; sketch_hits = bump m.sketch_hits },
    ok (record {
      source = sketch;
      answer = a;
      query_info = info;
      sketch_attempted = true;
      sketch_miss = false;
    }),
  )
  answer_or_fall_back info m none from_b =
      fall_back info true
        (record m { sketch_queries = bump m.sketch_queries; sketch_misses = bump m.sketch_misses })
        from_b

  unfoldable pub query :
      RouterMetrics → String → ℕ → ℤ → RouterMetrics × Result QueryError (QueryResult F B)
  unfolding answer_or_fall_back fall_back execute_with_sketches
  query m text ts cur_time = elim (parse sv.metricsql_parse text) [
    | err e ↦ (record m { parsing_errors = bump m.parsing_errors }, err (parse_failed e))
    | ok info ↦
        if (can_handle info).can_handle_with_sketches
        then answer_or_fall_back info m
            (vector_answer (
              execute_with_sketches info (window_start (unix_milli ts) info.range) (unix_milli ts)
                cur_time))
            ((sv.backend_query) text ts)
        else fall_back info false m ((sv.backend_query) text ts)
  ]

  unfoldable pub query_range :
      ℕ
      → RouterMetrics
      → String
      → ℕ
      → ℕ
      → ℕ
      → ℤ
      → Option (RouterMetrics × Result QueryError (QueryResult F B))
  unfolding answer_or_fall_back fall_back execute_with_sketches_range
  query_range fuel m text start end step cur_time = elim (parse sv.metricsql_parse text) [
    | err e ↦ some (record m { parsing_errors = bump m.parsing_errors }, err (parse_failed e))
    | ok info ↦
        if (can_handle info).can_handle_with_sketches
        then map_option
            (λ r.
              answer_or_fall_back info m (vectors_answer r)
                ((sv.backend_query_range) text start end step))
            (execute_with_sketches_range fuel info start end step cur_time)
        else some (fall_back info false m ((sv.backend_query_range) text start end step))
  ]

  -- DecisionReason
  unfoldable pub decision_reason : String → Result QueryError String
  decision_reason text = elim (parse sv.metricsql_parse text) [
    | err e ↦ err (parse_failed e)
    | ok info ↦
        let capability = can_handle info in
        if capability.can_handle_with_sketches
        then ok ("Can route to sketches: function=" +s capability.required_function)
        else ok ("Must route to backend: " +s capability.reason)
  ]
