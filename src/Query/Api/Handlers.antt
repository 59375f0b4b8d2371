-- ===== src/Query/Api/Handlers.antt =====
-- handlers.go: what every instant query leaves in the counters, and when the router is asked.
use prom_sketch_distributed.Common.{
  ℕ, suc, ◌+◌, ◌≤◌, ◌<◌, ◌≡◌, refl, ◌∙◌, inl, inr, Bool, true, false, ◌||◌, Option, none, some,
  str_eq, if◌then◌else◌, Bool-cases, Option-cases, ℤ, ok, Result-cases, is_ok,
}
use prom_sketch_distributed.Query.Router.Routing.{query_range_total, query_range_zero}
use prom_sketch_distributed.Query.Capabilities.{can_handle}
use prom_sketch_distributed.Query.Steps.{unix_milli}
use prom_sketch_distributed.Query.Router.{Services, query_labels, query}
use prom_sketch_distributed.Backfill.Convert.{Json}
use prom_sketch_distributed.Query.Api.Convert.{
  QueryData, QueryRangeData, convert_to_query_range_data, build_warnings,
}
use prom_sketch_distributed.Query.Api.{
  Form, QueryApi, bad_request, internal_server_error, ErrorText, query_required, invalid_time,
  failed, Response, success, error, Texts, parse_timestamp, parse_duration, refuse_query, query_at,
  handle_query, refuse_range, query_range_at, handle_query_range,
}
use prom_sketch_distributed.Query.Parser.{QueryInfo, parse}

abbrev pub is_success : {D : Type 0} → Response D → Bool
is_success (success d w) = true
is_success (error s t) = false

abbrev pub is_bad_request : {D : Type 0} → Response D → Bool
is_bad_request (error bad_request t) = true
is_bad_request _ = false

module _ {F : Type 0} (sv : Services F (Json F)) (tx : Texts F) where
  -- The time that a request asks about, if its parameters are right.
  abbrev pub asked_at : Form → ℕ → Option ℕ
  asked_at form now =
      if str_eq form.query_text ""
      then none
      else if str_eq form.time_text ""
      then some now
      else parse_timestamp tx form.time_text

  -- The counters of the instant queries after a request, and those of the range queries.
  pub record Counted (api : QueryApi) (r : QueryApi × Response (QueryData F)) : Type 0 where
    pub requested : r.0.metrics.query_requests ≡ api.metrics.query_requests + 1
    pub failures :
        r.0.metrics.query_errors
        ≡ (if is_success r.1 then api.metrics.query_errors else api.metrics.query_errors + 1)
    pub range_requests : r.0.metrics.query_range_requests ≡ api.metrics.query_range_requests
    pub range_errors : r.0.metrics.query_range_errors ≡ api.metrics.query_range_errors

  -- The router is not asked, or asked once, and its verdict decides.
  abbrev pub Routed : Form → ℤ → QueryApi → Option ℕ → QueryApi × Response (QueryData F) → Type 0
  Routed form cur_time api none r = (r.0.router ≡ api.router) × (is_bad_request r.1 ≡ true)
  Routed form cur_time api (some ts) r =
      let answer = query sv api.router form.query_text ts cur_time in
      (r.0.router ≡ answer.0) × (is_success r.1 ≡ is_ok answer.1) × (is_bad_request r.1 ≡ false)

  query_at-Routed :
      (form : Form) (ts : ℕ) (cur_time : ℤ) (api : QueryApi)
      → let m = api.metrics in
        let api' : QueryApi = record api {
          metrics = record m { query_requests = m.query_requests + 1 };
        } in
        let r = query_at sv tx form ts cur_time api' in
        Counted api r × Routed form cur_time api (some ts) r
  unfolding query_at refuse_query
  query_at-Routed form ts cur_time api =
      elim (Result-cases (query sv api.router form.query_text ts cur_time).1) [
        | inl (result, e) ↦
            rw (e, query_at)
              (
                record {
                  requested = refl;
                  failures = refl;
                  range_requests = refl;
                  range_errors = refl;
                },
                (refl, refl, refl),
              )
        | inr (x, e) ↦
            rw (e, query_at)
              (
                record {
                  requested = refl;
                  failures = refl;
                  range_requests = refl;
                  range_errors = refl;
                },
                (refl, refl, refl),
              )
      ]

  refused-Routed :
      (form : Form) (cur_time : ℤ) (api : QueryApi) (text : ErrorText)
      → let m = api.metrics in
        let api' : QueryApi = record api {
          metrics = record m { query_requests = m.query_requests + 1 };
        } in
        let r = refuse_query sv tx bad_request text api' in
        Counted api r × Routed form cur_time api none r
  unfolding refuse_query
  refused-Routed form cur_time api text = (
    record { requested = refl; failures = refl; range_requests = refl; range_errors = refl },
    (refl, refl),
  )

  -- Every instant query counts as one request, as one error exactly when the response is not a
  -- success, and leaves the counters of the range queries; with parameters that are missing or
  -- cannot be read the router is not asked and the status is 400, and otherwise the router is asked
  -- once, at the time that was asked about, and the response is a success exactly when its answer is.
  pub handle_query-Counted :
      (form : Form) (now : ℕ) (cur_time : ℤ) (api : QueryApi)
      → Counted api (handle_query sv tx form now cur_time api)
        × Routed form cur_time api (asked_at form now) (handle_query sv tx form now cur_time api)
  unfolding handle_query
  handle_query-Counted form now cur_time api = elim (Bool-cases (str_eq form.query_text "")) [
    | inl empty ↦ rw (empty, handle_query) (refused-Routed form cur_time api query_required)
    | inr given ↦ elim (Bool-cases (str_eq form.time_text "")) [
      | inl at_now ↦ rw (given, handle_query) (rw at_now (query_at-Routed form now cur_time api))
      | inr at_time ↦ elim (Option-cases (parse_timestamp tx form.time_text)) [
        | inl e ↦
            rw (given, handle_query)
              (rw at_time (rw e (refused-Routed form cur_time api invalid_time)))
        | inr (ts, e) ↦
            rw (given, handle_query) (rw at_time (rw e (query_at-Routed form ts cur_time api)))
      ]
    ]
  ]

  -- The parameters of a range query, if all are there and can be read.
  pub record Reads (form : Form) (start end step : ℕ) : Type 0 where
    pub has_query : str_eq form.query_text "" ≡ false
    pub has_range :
        str_eq form.start_text "" || str_eq form.end_text "" || str_eq form.step_text "" ≡ false
    pub start_read : parse_timestamp tx form.start_text ≡ some start
    pub end_read : parse_timestamp tx form.end_text ≡ some end
    pub step_read : parse_duration tx form.step_text ≡ some step

  range-asked :
      (fuel : ℕ) (form : Form) (start end step : ℕ) (cur_time : ℤ) (api : QueryApi)
      → Reads form start end step
      → let m = api.metrics in
        handle_query_range sv tx fuel form cur_time api
        ≡ query_range_at sv tx fuel form start end step cur_time (record api {
          metrics = record m { query_range_requests = m.query_range_requests + 1 };
        })
  unfolding handle_query_range
  range-asked fuel form start end step cur_time api w =
      rw (w.has_query, handle_query_range)
        (rw w.has_range (rw w.start_read (rw w.end_read (rw w.step_read refl))))

  -- A range query whose step is read as zero is never answered, whatever the fuel, if the sketches
  -- can handle and cover it and its end is not before its start.
  pub handle_query_range_zero :
      (fuel : ℕ) (form : Form) (start end : ℕ) (cur_time : ℤ) (api : QueryApi) (info : QueryInfo F)
      → Reads form start end 0
      → start ≤ end
      → parse sv.metricsql_parse form.query_text ≡ ok info
      → (can_handle info).can_handle_with_sketches ≡ true
      → (sv.look_up) (query_labels sv info) info.function_name (unix_milli start) (unix_milli end)
        ≡ true
      → handle_query_range sv tx fuel form cur_time api ≡ none
  unfolding query_range_at
  handle_query_range_zero fuel form start end cur_time api info w h parsed able hit =
      range-asked fuel form start end 0 cur_time api w
      ∙ rw
          (query_range_zero sv fuel api.router form.query_text start end cur_time info h parsed able
            hit)
          refl

  -- A range query with a positive step is answered, with one round of fuel for each nanosecond from
  -- its start to its end and one more: it counts as one request, and as one error exactly when the
  -- response is not a success.
  pub handle_query_range_total :
      (fuel : ℕ) (form : Form) (start end step : ℕ) (cur_time : ℤ) (api : QueryApi)
      → Reads form start end step
      → 0 < step
      → end < start + fuel
      → (r : QueryApi × Response (QueryRangeData F)) × (handle_query_range sv tx
            (suc fuel)
            form
            cur_time
            api
          ≡ some r)
        × (r.0.metrics.query_range_requests ≡ api.metrics.query_range_requests + 1)
        × (r.0.metrics.query_range_errors ≡ (
            if is_success r.1
            then api.metrics.query_range_errors
            else api.metrics.query_range_errors + 1))
  unfolding query_range_at refuse_range
  handle_query_range_total fuel form start end step cur_time api w h f =
      let (answer, run) =
        query_range_total sv fuel api.router form.query_text start end step cur_time h f in
      let asked = range-asked (suc fuel) form start end step cur_time api w in
      let m = api.metrics in
      let api' : QueryApi = record api {
        router = answer.0;
        metrics = record m { query_range_requests = m.query_range_requests + 1 };
      } in
      elim (Result-cases answer.1) [
        | inl (result, e) ↦ (
          (api', success (convert_to_query_range_data result) (build_warnings result)),
          asked ∙ rw (run, query_range_at) (rw e refl),
          refl,
          refl,
        )
        | inr (x, e) ↦ (
          refuse_range sv tx internal_server_error (failed x) api',
          asked ∙ rw (run, query_range_at) (rw e refl),
          refl,
          refl,
        )
      ]
