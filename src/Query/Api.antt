-- ===== src/Query/Api.antt =====
-- internal/query/api/handlers.go: the HTTP interface of queries, from the form's values to the response.
-- The backend's answer is JSON as in Backfill.Convert; the reading of numbers, times and Go durations
-- and the printing of numbers are parameters, `Texts`. A duration is in nanoseconds and not negative,
-- the texts are ASCII, and the counters stay below the bound of int64. The writing of JSON, the
-- approximation's settings within a warning, and Prometheus's metrics are not modelled.
pub mod Convert
pub mod Handlers
mod Examples
use prom_sketch_distributed.Common.{
  ℕ, ◌+◌, String, Bool, true, false, ◌||◌, Option, none, some, map_option, List, str_eq,
  if◌then◌else◌, ℤ, ok, err,
}
use prom_sketch_distributed.Query.Router.{Services, RouterMetrics, QueryError, query, query_range}
use prom_sketch_distributed.Backfill.Convert.{Json}
use prom_sketch_distributed.Query.Api.Convert.{
  QueryData, QueryRangeData, Warning, convert_to_query_data, convert_to_query_range_data,
  build_warnings,
}

pub record Form : Type 0 where
  pub query_text : String
  pub time_text : String
  pub start_text : String
  pub end_text : String
  pub step_text : String

pub record ApiMetrics : Type 0 where
  pub query_requests : ℕ
  pub query_range_requests : ℕ
  pub query_errors : ℕ
  pub query_range_errors : ℕ

pub record QueryApi : Type 0 where
  pub router : RouterMetrics
  pub metrics : ApiMetrics

pub data Status : Type 0 where
  bad_request internal_server_error : Status

pub data ErrorText : Type 0 where
  query_required : ErrorText
  range_required : ErrorText
  invalid_time : ErrorText
  invalid_start : ErrorText
  invalid_end : ErrorText
  invalid_step : ErrorText
  failed : QueryError → ErrorText

pub data Response (D : Type 0) : Type 0 where
  success : D → List Warning → Response D
  error : Status → ErrorText → Response D

-- What the handlers call of Go's library; `to_duration` and `to_time` are of seconds.
pub record Texts (F : Type 0) : Type 0 where
  pub parse_float : String → Option F
  pub to_time : F → ℕ
  pub to_duration : F → ℕ
  pub parse_rfc3339 : String → Option ℕ
  pub parse_rfc3339_nano : String → Option ℕ
  pub parse_go_duration : String → Option ℕ
  pub times : F → F → F
  pub whole : ℕ → F

-- The text but for its last character, and that character.
unfoldable pub split_unit : String → String × String
split_unit String.[] = (String.[], String.[])
split_unit (String.◌∷◌ c String.[]) = (String.[], String.◌∷◌ c String.[])
split_unit (String.◌∷◌ c (String.◌∷◌ d s)) =
    let (v, u) = split_unit (String.◌∷◌ d s) in (String.◌∷◌ c v, u)

-- The seconds of a unit.
unfoldable pub unit_seconds : String → Option ℕ
unit_seconds u =
    if str_eq u "s"
    then some 1
    else if str_eq u "m"
    then some 60
    else if str_eq u "h"
    then some 3600
    else if str_eq u "d"
    then some 86400
    else if str_eq u "w"
    then some 604800
    else if str_eq u "y"
    then some 31536000
    else none

-- `len(s) < 2`
unfoldable pub is_short : String → Bool
is_short String.[] = true
is_short (String.◌∷◌ c String.[]) = true
is_short (String.◌∷◌ c (String.◌∷◌ d s)) = false

module _ {F : Type 0} (tx : Texts F) where
  unfoldable pub parse_timestamp : String → Option ℕ
  parse_timestamp s = elim ((tx.parse_float) s) [
    | some f ↦ some ((tx.to_time) f)
    | none ↦ elim ((tx.parse_rfc3339) s) [ some t ↦ some t | none ↦ (tx.parse_rfc3339_nano) s ]
  ]

  unfoldable pub parse_with_unit : String → Option ℕ
  unfolding split_unit unit_seconds
  parse_with_unit s =
      let (value_text, unit) = split_unit s in
      elim ((tx.parse_float) value_text) [
        | none ↦ none
        | some value ↦ elim (unit_seconds unit) [
          | none ↦ none
          | some multiplier ↦ some ((tx.to_duration) ((tx.times) value ((tx.whole) multiplier)))
        ]
      ]

  unfoldable pub parse_duration : String → Option ℕ
  unfolding parse_with_unit is_short
  parse_duration s = elim ((tx.parse_float) s) [
    | some num ↦ some ((tx.to_duration) num)
    | none ↦ elim ((tx.parse_go_duration) s) [
      | some d ↦ some d
      | none ↦ if is_short s then none else parse_with_unit s
    ]
  ]

module _ {F : Type 0} (sv : Services F (Json F)) (tx : Texts F) where
  unfoldable pub refuse_query : Status → ErrorText → QueryApi → QueryApi × Response (QueryData F)
  refuse_query status text api =
      let m = api.metrics in
      (record api { metrics = record m { query_errors = m.query_errors + 1 } }, error status text)

  -- handleQuery from the point where the time is known.
  unfoldable pub query_at : Form → ℕ → ℤ → QueryApi → QueryApi × Response (QueryData F)
  query_at form ts cur_time api =
      let (router', r) = query sv api.router form.query_text ts cur_time in
      let api' : QueryApi = record api { router = router' } in
      elim r [
        | err e ↦ refuse_query internal_server_error (failed e) api'
        | ok result ↦ (api', success (convert_to_query_data result) (build_warnings result))
      ]

  unfoldable pub handle_query : Form → ℕ → ℤ → QueryApi → QueryApi × Response (QueryData F)
  handle_query form now cur_time api =
      let m = api.metrics in
      let api' : QueryApi = record api {
        metrics = record m { query_requests = m.query_requests + 1 };
      } in
      if str_eq form.query_text ""
      then refuse_query bad_request query_required api'
      else if str_eq form.time_text ""
      then query_at form now cur_time api'
      else (elim (parse_timestamp tx form.time_text) [
        | none ↦ refuse_query bad_request invalid_time api'
        | some ts ↦ query_at form ts cur_time api'
      ])

  unfoldable pub refuse_range :
      Status → ErrorText → QueryApi → QueryApi × Response (QueryRangeData F)
  refuse_range status text api =
      let m = api.metrics in
      (
        record api { metrics = record m { query_range_errors = m.query_range_errors + 1 } },
        error status text,
      )

  -- handleQueryRange once the parameters are known; `none` if the fuel of the loop runs out.
  unfoldable pub query_range_at :
      ℕ → Form → ℕ → ℕ → ℕ → ℤ → QueryApi → Option (QueryApi × Response (QueryRangeData F))
  query_range_at fuel form start end step cur_time api =
      map_option
        (λ (router', r). elim r [
          | err e ↦ refuse_range internal_server_error (failed e) (record api { router = router' })
          | ok result ↦ (
            record api { router = router' },
            success (convert_to_query_range_data result) (build_warnings result),
          )
        ])
        (query_range sv fuel api.router form.query_text start end step cur_time)

  unfoldable pub handle_query_range :
      ℕ → Form → ℤ → QueryApi → Option (QueryApi × Response (QueryRangeData F))
  handle_query_range fuel form cur_time api =
      let m = api.metrics in
      let api' : QueryApi = record api {
        metrics = record m { query_range_requests = m.query_range_requests + 1 };
      } in
      if str_eq form.query_text ""
      then some (refuse_range bad_request query_required api')
      else if str_eq form.start_text "" || str_eq form.end_text "" || str_eq form.step_text ""
      then some (refuse_range bad_request range_required api')
      else (elim (parse_timestamp tx form.start_text) [
        | none ↦ some (refuse_range bad_request invalid_start api')
        | some start ↦ elim (parse_timestamp tx form.end_text) [
          | none ↦ some (refuse_range bad_request invalid_end api')
          | some end ↦ elim (parse_duration tx form.step_text) [
            | none ↦ some (refuse_range bad_request invalid_step api')
            | some step ↦ query_range_at fuel form start end step cur_time api'
          ]
        ]
      ])
