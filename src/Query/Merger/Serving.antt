-- ===== src/Query/Merger/Serving.antt =====
-- grpc.go's Eval behind merger.go: what the merger gets of the storage's results.
use prom_sketch_distributed.Common.{
  ℕ, suc, ◌+◌, ◌<◌, String, ◌≡◌, refl, ◌≢◌, ◌⊎◌, inl, inr, true, false, some, List, [], ◌∷◌, str_eq,
  eq_iff, Bool-cases, ℤ, Result, err, Result-cases,
}
use prom_sketch_distributed.Query.Parser.{QueryInfo, parse}
use prom_sketch_distributed.Query.Capabilities.{can_handle}
use prom_sketch_distributed.Query.Merger.{
  EvalResultSeries, EvalRequest, MergerMetrics, QueryResult, QueryError, Services, node_series,
  node_samples, samples_of, collect_samples, has_samples, answer_or_fall_back, request_at, replies,
  step_results, query_range, with_pb_labels, to_prom_request, serve_eval,
}
use prom_sketch_distributed.Insert.Router.{Label, to_pb_labels}
use prom_sketch_distributed.Query.Steps.{step_times_total}
use prom_sketch_distributed.Query.Merger.Answering.{Sketched, fall_back-not-Sketched}

to_pb_labels-same : (ls : List Label) → to_pb_labels ls ≡ ls
unfolding to_pb_labels
to_pb_labels-same [] = refl
to_pb_labels-same (l ∷ ls) = rw (to_pb_labels-same ls) refl

module _ {F : Type 0} where
  with_pb_labels-same : (xs : List (EvalResultSeries F)) → with_pb_labels xs ≡ xs
  with_pb_labels-same [] = refl
  with_pb_labels-same (x ∷ xs) = rw (with_pb_labels-same xs, to_pb_labels-same x.labels) refl

  -- If the storage's errors have a text, the merger reads in the server's response to a request what
  -- the storage returned for it, with its labels converted: all its series with their labels and
  -- samples, or its error.
  pub node_series-serve_eval :
      (new_labels : List Label → List Label)
      (store : EvalRequest F → Result String (List (EvalResultSeries F))) (req : EvalRequest F)
      → ((e : String) → store (to_prom_request new_labels req) ≡ err e → e ≢ "")
      → node_series (serve_eval new_labels store req) ≡ store (to_prom_request new_labels req)
  unfolding serve_eval node_series
  node_series-serve_eval new_labels store req named =
      elim (Result-cases (store (to_prom_request new_labels req))) [
        | inl (xs, e) ↦ rw (e, serve_eval) (rw (with_pb_labels-same xs) refl)
        | inr (x, e) ↦ elim (Bool-cases (str_eq x "")) [
          | inl bare ↦ absurd (named x e ((eq_iff x "").0 bare))
          | inr text ↦ rw (e, serve_eval) (rw text refl)
        ]
      ]

module _ {F B : Type 0} (sv : Services F B) where
  -- Every node is a server with a storage of its own behind Eval, or fails before Eval answers.
  abbrev pub IsServed : Type 0
  IsServed =
      (id : String) (req : EvalRequest F)
      → ((e : String) × ((sv.eval) id req ≡ err e))
        ⊎ ((new_labels : List Label → List Label) × (store : EvalRequest F
              → Result String (List (EvalResultSeries F)))
            × ((sv.eval) id req ≡ serve_eval new_labels store req))

  served-no_samples :
      (new_labels : List Label → List Label)
      (store : EvalRequest F → Result String (List (EvalResultSeries F))) (req : EvalRequest F)
      → samples_of (serve_eval new_labels store req) ≡ []
  unfolding serve_eval samples_of node_samples
  served-no_samples new_labels store req =
      elim (Result-cases (store (to_prom_request new_labels req))) [
        | inl (xs, e) ↦ rw (e, serve_eval) refl
        | inr (x, e) ↦ rw (e, serve_eval) refl
      ]

  no_samples :
      IsServed
      → (info : QueryInfo F) (ts : ℕ) (cur_time : String → ℤ) (ids : List String)
      → collect_samples (replies sv info ts cur_time ids) ≡ []
  unfolding replies collect_samples samples_of node_samples
  no_samples served info ts cur_time [] = refl
  no_samples served info ts cur_time (id ∷ ids) =
      let req = request_at sv info ts (cur_time id) in
      let none_here : samples_of ((sv.eval) id req) ≡ [] = elim (served id req) [
        | inl (e, failed) ↦ rw failed refl
        | inr (new_labels, store, ran) ↦ rw ran (served-no_samples new_labels store req)
      ] in
      rw (none_here) (no_samples served info ts cur_time ids)

  no_step_has_samples :
      IsServed
      → (info : QueryInfo F) (cur_time : ℕ → String → ℤ) (arrivals : ℕ → List String)
        (times : List ℕ)
      → has_samples (step_results sv info cur_time arrivals times) ≡ false
  unfolding step_results has_samples
  no_step_has_samples served info cur_time arrivals [] = refl
  no_step_has_samples served info cur_time arrivals (ts ∷ times) =
      rw (no_samples served info ts (cur_time ts) (arrivals ts))
        (no_step_has_samples served info cur_time arrivals times)

  -- When each call of a node's Eval fails or is answered by the server's handler over some storage, a
  -- range query with a positive step ends, given one round of fuel for each nanosecond from the start
  -- to the end and one more, and its result does not come from the sketches.
  pub query_range_never-Sketched :
      (fuel : ℕ) (m : MergerMetrics) (text : String) (start end step : ℕ)
      (cur_time : ℕ → String → ℤ) (arrivals : ℕ → List String)
      → IsServed
      → 0 < step
      → end < start + fuel
      → (r : MergerMetrics × Result QueryError (QueryResult F B)) × (query_range sv
            (suc fuel)
            m
            text
            start
            end
            step
            cur_time
            arrivals
          ≡ some r)
        × ¬ Sketched sv (r.1)
  unfolding query_range answer_or_fall_back
  query_range_never-Sketched fuel m text start end step cur_time arrivals served h f =
      let (times, run, _) = step_times_total fuel start end step h f in
      let b = (sv.backend_query_range) text start end step in
      elim (Result-cases (parse sv.metricsql_parse text)) [
        | inr (x, bad) ↦ rw (bad, query_range) (_, refl, λ (res, e, s). cc)
        | inl (info, parsed) ↦ elim (Bool-cases (can_handle info).can_handle_with_sketches) [
          | inr out ↦
              rw (parsed, query_range) (rw out (_, refl, fall_back-not-Sketched sv info false m b))
          | inl able ↦
              rw (parsed, query_range)
                (rw able (
                  rw run (
                    _,
                    refl,
                    rw (no_step_has_samples served info cur_time arrivals times)
                        (fall_back-not-Sketched sv info true _ b),
                  )))
        ]
      ]
