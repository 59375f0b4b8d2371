-- ===== src/Query/Api/Examples.antt =====
-- Requests to the HTTP interface in front of a router, with natural numbers for floats. A number is
-- read from two texts only: "100" and "110".
use prom_sketch_distributed.Common.{
  ℕ, ◌+◌, ◌*◌, String, ◌≡◌, refl, true, Option, none, some, [], ◌∷◌, arith, str_eq, if◌then◌else◌,
  pos, ok, err,
}
use prom_sketch_distributed.Query.Router.{Services, new_metrics}
use prom_sketch_distributed.Backfill.Convert.{Json, json_null}
use prom_sketch_distributed.Query.Examples.{cpu_info, parse_sample, cpu_parsed, cpu_handled}
use prom_sketch_distributed.Query.Api.Convert.{QueryRangeData}
use prom_sketch_distributed.Query.Api.{
  Form, QueryApi, Response, Texts, parse_timestamp, parse_duration, handle_query,
  handle_query_range,
}
use prom_sketch_distributed.Query.Api.Handlers.{
  is_success, asked_at, Counted, Routed, handle_query-Counted, Reads, handle_query_range_zero,
  handle_query_range_total,
}

abbrev read_number : String → Option ℕ
read_number s =
    if str_eq s "100"
    then some 100
    else if str_eq s "110"
    then some 110
    else if str_eq s "0"
    then some 0
    else none

abbrev sample_texts : Texts ℕ
sample_texts = record {
  parse_float = read_number;
  to_time = λ n. n;
  to_duration = λ n. n;
  parse_rfc3339 = λ s. none;
  parse_rfc3339_nano = λ s. none;
  parse_go_duration = λ s. if str_eq s "4ns" then some 4 else none;
  times = λ a b. a * b;
  whole = λ n. n;
}

abbrev json_services : Services ℕ (Json ℕ)
json_services = record {
  metricsql_parse = parse_sample;
  build = λ ls. ls;
  look_up = λ ls f mint maxt. true;
  eval = λ f ls x mint maxt cur_time. ok (some (record { time = maxt; number = 4 } ∷ []));
  backend_query = λ text ts. err "unreachable";
  backend_query_range = λ text start end step. ok json_null;
  zero_value = 0;
  half = 5;
}

abbrev new_api : QueryApi
unfolding new_metrics
new_api = record {
  router = new_metrics;
  metrics = record {
    query_requests = 0;
    query_range_requests = 0;
    query_errors = 0;
    query_range_errors = 0;
  };
}

abbrev range_form : String → Form
range_form step = record {
  query_text = "q";
  time_text = "";
  start_text = "100";
  end_text = "110";
  step_text = step;
}

handle_query-Counted_example :
    Counted json_services sample_texts new_api
      (handle_query json_services sample_texts (range_form "0") 7 (pos 1_000) new_api)
    × Routed json_services sample_texts
        (range_form "0")
        (pos 1_000)
        new_api
        (asked_at json_services sample_texts (range_form "0") 7)
        (handle_query json_services sample_texts (range_form "0") 7 (pos 1_000) new_api)
handle_query-Counted_example =
    handle_query-Counted json_services sample_texts (range_form "0") 7 (pos 1_000) new_api

range_read : Reads json_services sample_texts (range_form "4ns") 100 110 4
unfolding parse_timestamp parse_duration
range_read = record {
  has_query = refl;
  has_range = refl;
  start_read = refl;
  end_read = refl;
  step_read = refl;
}

zero_read : Reads json_services sample_texts (range_form "0") 100 110 0
unfolding parse_timestamp parse_duration
zero_read = record {
  has_query = refl;
  has_range = refl;
  start_read = refl;
  end_read = refl;
  step_read = refl;
}

handle_query_range_zero_example :
    handle_query_range json_services sample_texts 12 (range_form "0") (pos 1_000) new_api ≡ none
handle_query_range_zero_example =
    handle_query_range_zero json_services sample_texts 12 (range_form "0") 100 110 (pos 1_000)
      new_api cpu_info zero_read (omega arith) cpu_parsed cpu_handled refl

handle_query_range_total_example :
    (r : QueryApi × Response (QueryRangeData ℕ)) × (handle_query_range json_services sample_texts 12
        (range_form "4ns")
        (pos 1_000)
        new_api
      ≡ some r)
    × (r.0.metrics.query_range_requests ≡ new_api.metrics.query_range_requests + 1)
    × (r.0.metrics.query_range_errors ≡ (
        if is_success r.1
        then new_api.metrics.query_range_errors
        else new_api.metrics.query_range_errors + 1))
handle_query_range_total_example =
    handle_query_range_total json_services sample_texts 11 (range_form "4ns") 100 110 4 (pos 1_000)
      new_api range_read (omega arith) (omega arith)
