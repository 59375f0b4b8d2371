-- ===== src/Query/Examples.antt =====
-- Runs of the query side on one eligible query, with natural numbers for floats and backend answers.
use prom_sketch_distributed.Common.{
  ℕ, String, ◌≡◌, refl, ◌↔◌, true, false, Option, none, some, [], ◌∷◌, arith, str_eq, if◌then◌else◌,
  ℤ, pos, ◌<ℤ◌, Result, ok, err,
}
use prom_sketch_distributed.Query.Parser.{
  Expr, func_expr, rollup_expr, metric_expr, number_expr, other, nil, cons, match_equal, QueryInfo,
  match_type_of, add_filters, extract_metric_info, extract_inner, extract_rollup, number_args,
  last_rollup, extract_func, extract_info, empty_info, parse, is_range_query,
}
use prom_sketch_distributed.Query.Capabilities.{
  contains, is_supported_function, can_handle, analyze_query,
}
use prom_sketch_distributed.Query.Eligible.{
  can_handle_iff, IsEligible, can_handle-IsEligible, analyze_query_differs,
}
use prom_sketch_distributed.Query.Steps.{step_times, step_times_zero}
use prom_sketch_distributed.Query.Router.{Services, vector, new_metrics, query}
use prom_sketch_distributed.Query.Router.Routing.{
  HasVector, Sketched, query_sketch_iff, IsBalanced, query_all, query_all-IsBalanced,
}

-- metricsql's tree of `avg_over_time(cpu[5m])`.
abbrev pub avg_cpu : Expr ℕ
avg_cpu = func_expr "avg_over_time" (
    cons
      (rollup_expr (some (pos 300_000)) (
        metric_expr (
          (record {
            label = "__name__";
            filter_value = "cpu";
            is_negative = false;
            is_regexp = false;
          }
            ∷ [])
          ∷ [])))
      nil)

abbrev pub cpu_info : QueryInfo ℕ
cpu_info = record (empty_info "q" avg_cpu) {
  function_name = "avg_over_time";
  metric_name = "cpu";
  label_matchers = record { name = "__name__"; match_type = match_equal; value = "cpu" } ∷ [];
  range = pos 300_000;
}

abbrev pub parse_sample : String → Result String (Expr ℕ)
parse_sample text = if str_eq text "q" then ok avg_cpu else err "syntax error"

abbrev sample_services : Services ℕ ℕ
sample_services = record {
  metricsql_parse = parse_sample;
  build = λ ls. ls;
  look_up = λ ls f mint maxt. true;
  eval = λ f ls x mint maxt cur_time. ok (some (record { time = maxt; number = 4 } ∷ []));
  backend_query = λ text ts. err "unreachable";
  backend_query_range = λ text start end step. ok 9;
  zero_value = 0;
  half = 5;
}

pub cpu_parsed : parse parse_sample "q" ≡ ok cpu_info
unfolding parse extract_info extract_func extract_rollup extract_inner extract_metric_info
    add_filters match_type_of last_rollup number_args
cpu_parsed = refl

pub cpu_handled : (can_handle cpu_info).can_handle_with_sketches ≡ true
unfolding can_handle is_supported_function contains is_range_query
cpu_handled = refl

can_handle_iff_example : ((can_handle cpu_info).can_handle_with_sketches ≡ true) ↔ (
    (cpu_info.is_aggregate ≡ false)
    × (is_supported_function cpu_info.function_name ≡ true)
    × (pos 0 <ℤ cpu_info.range))
can_handle_iff_example = can_handle_iff cpu_info

can_handle-IsEligible_example :
    ((can_handle (extract_info avg_cpu (empty_info "q" avg_cpu))).can_handle_with_sketches ≡ true)
    ↔ IsEligible avg_cpu
can_handle-IsEligible_example = can_handle-IsEligible "q" avg_cpu

-- `quantile_over_time(0.9, m[5m])`, with 9 for 0.9.
abbrev quantile_call : Expr ℕ
quantile_call =
    func_expr "quantile_over_time"
      (cons (number_expr 9) (cons (rollup_expr (some (pos 300_000)) other) nil))

analyze_query_differs_example :
    ((can_handle
        (extract_info quantile_call (empty_info "q" quantile_call))).can_handle_with_sketches
      ≡ true)
    × (((analyze_query quantile_call).can_handle_with_sketches ≡ true)
        ↔ ((w : Option ℤ) × (e : Expr ℕ) × (number_expr 9 ≡ rollup_expr w e)))
unfolding last_rollup is_supported_function
analyze_query_differs_example =
    analyze_query_differs "q" "quantile_over_time" (number_expr 9)
      (cons (rollup_expr (some (pos 300_000)) other) nil)
      (refl, (pos 300_000, other, refl, omega arith))

step_times_run : step_times 12 100 110 4 ≡ some (100 ∷ 104 ∷ 108 ∷ [])
unfolding step_times
step_times_run = refl

step_times_zero_example : step_times 12 100 110 0 ≡ none
step_times_zero_example = step_times_zero 12 100 110 (omega arith)

query_sketch_iff_example :
    Sketched sample_services
      (vector (record { time = pos 1_000; number = 4 } ∷ []))
      (query sample_services new_metrics "q" 1_000_000_000 (pos 1_000)).1
    ↔ (((can_handle cpu_info).can_handle_with_sketches ≡ true)
        × HasVector sample_services cpu_info 1_000_000_000
            (pos 1_000)
            (record { time = pos 1_000; number = 4 } ∷ []))
query_sketch_iff_example =
    query_sketch_iff sample_services new_metrics "q" 1_000_000_000 (pos 1_000) cpu_info
      (record { time = pos 1_000; number = 4 } ∷ []) cpu_parsed

query_all-IsBalanced_example :
    IsBalanced sample_services (
      query_all sample_services
        (("q", 1_000_000_000, pos 1_000) ∷ ("(", 5, pos 6) ∷ [])
        new_metrics)
query_all-IsBalanced_example =
    query_all-IsBalanced sample_services (("q", 1_000_000_000, pos 1_000) ∷ ("(", 5, pos 6) ∷ [])
