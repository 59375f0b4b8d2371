-- ===== src/Query/Merger/Examples.antt =====
-- Runs of the merger on two servers, of which one has a series for the query.
use prom_sketch_distributed.Common.{
  ℕ, String, ◌≡◌, refl, ◌∙◌, ◌≢◌, ◌↔◌, inl, inr, true, some, List, [], ◌∷◌, arith, str_eq, eq_iff,
  if◌then◌else◌, Bool-cases, Elem, pos, Result, ok, err,
}
use prom_sketch_distributed.Query.Capabilities.{can_handle}
use prom_sketch_distributed.Query.Examples.{cpu_info, parse_sample, cpu_parsed}
use prom_sketch_distributed.Insert.Router.{Label}
use prom_sketch_distributed.Query.Merger.{
  EvalResultSeries, EvalRequest, MergerMetrics, QueryResult, QueryError, Services, new_metrics,
  node_series, request_at, query, query_range, to_prom_request, serve_eval,
}
use prom_sketch_distributed.Query.Merger.Merging.{SameOutcome, query_order}
use prom_sketch_distributed.Query.Merger.Answering.{Answers, Sketched, query-Sketched_iff}
use prom_sketch_distributed.Query.Merger.Serving.{
  node_series-serve_eval, IsServed, query_range_never-Sketched,
}
use mathlib.Core.List.{Permᴰ}

abbrev store_a : EvalRequest ℕ → Result String (List (EvalResultSeries ℕ))
store_a req = ok (
    record {
      labels = record { name = "host"; value = "a" } ∷ [];
      samples = record { time = req.max_time; number = 4 } ∷ [];
    }
    ∷ [])

abbrev store_b : EvalRequest ℕ → Result String (List (EvalResultSeries ℕ))
store_b req = err "no matching series"

abbrev same_labels : List Label → List Label
same_labels ls = ls

abbrev two_servers : Services ℕ ℕ
two_servers = record {
  metricsql_parse = parse_sample;
  build = λ ls. ls;
  eval = λ id req.
      if str_eq id "a"
      then serve_eval same_labels store_a req
      else serve_eval same_labels store_b req;
  backend_query = λ text ts. ok 9;
  backend_query_range = λ text start end step. ok 9;
  zero_value = 0;
  half = 5;
}

two_served : IsServed two_servers
two_served id req = inr (elim (Bool-cases (str_eq id "a")) [
  | inl e ↦ (same_labels, store_a, rw e refl)
  | inr e ↦ (same_labels, store_b, rw e refl)
])

query_order_example :
    ((query two_servers new_metrics "q" 5 (λ _. pos 1) ("a" ∷ "b" ∷ [])).0
      ≡ (query two_servers new_metrics "q" 5 (λ _. pos 1) ("b" ∷ "a" ∷ [])).0)
    × SameOutcome two_servers
        (query two_servers new_metrics "q" 5 (λ _. pos 1) ("a" ∷ "b" ∷ [])).1
        (query two_servers new_metrics "q" 5 (λ _. pos 1) ("b" ∷ "a" ∷ [])).1
query_order_example =
    query_order two_servers new_metrics "q" 5 (λ _. pos 1) ("a" ∷ "b" ∷ []) ("b" ∷ "a" ∷ [])
      ∣ Permᴰ.swap refl refl ∣₁

query-Sketched_iff_example :
    Sketched two_servers (query two_servers new_metrics "q" 5 (λ _. pos 1) ("a" ∷ "b" ∷ [])).1 ↔ (
      ((can_handle cpu_info).can_handle_with_sketches ≡ true)
      × ((id : String) × Elem id ("a" ∷ "b" ∷ []) × Answers two_servers cpu_info 5 (λ _. pos 1) id))
query-Sketched_iff_example =
    query-Sketched_iff two_servers new_metrics "q" 5 (λ _. pos 1) ("a" ∷ "b" ∷ []) cpu_info
      cpu_parsed

sample_request : EvalRequest ℕ
sample_request = request_at two_servers cpu_info 5 (pos 1)

named_error : (e : String) → store_b (to_prom_request same_labels sample_request) ≡ err e → e ≢ ""
named_error e same bare =
    let text : "no matching series" ≡ e = cc in
    let found : str_eq "no matching series" "" ≡ true =
      (eq_iff "no matching series" "").1 (text ∙ bare) in
    cc

node_series-serve_eval_example :
    node_series (serve_eval same_labels store_b sample_request) ≡ err "no matching series"
node_series-serve_eval_example =
    node_series-serve_eval same_labels store_b sample_request named_error

query_range_never-Sketched_example :
    (r : MergerMetrics × Result QueryError (QueryResult ℕ ℕ)) × (query_range two_servers 12
        new_metrics "q" 100 110 4
        (λ _ _. pos 1)
        (λ _. "a" ∷ "b" ∷ [])
      ≡ some r)
    × ¬ Sketched two_servers (r.1)
query_range_never-Sketched_example =
    query_range_never-Sketched two_servers 11 new_metrics "q" 100 110 4 (λ _ _. pos 1)
      (λ _. "a" ∷ "b" ∷ []) two_served (omega arith) (omega arith)
