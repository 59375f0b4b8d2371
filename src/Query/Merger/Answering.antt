-- ===== src/Query/Merger/Answering.antt =====
-- merger.go, Query: when the sketches answer.
use prom_sketch_distributed.Common.{
  ℕ, String, ◌≡◌, refl, subst, ◌≢◌, ◌↔◌, ◌⊎◌, inl, inr, Bool, true, false, List, [], ◌∷◌, ◌++◌,
  arith, str_eq, eq_iff, if◌then◌else◌, Bool-cases, Elem, ℤ, Result, ok, err,
}
use prom_sketch_distributed.Query.Parser.{QueryInfo, parse}
use prom_sketch_distributed.Query.Capabilities.{can_handle}
use prom_sketch_distributed.Query.Merger.{
  EvalResultSeries, EvalResponse, SketchSeriesResult, MergerMetrics, sketch, QueryResult,
  QueryError, Services, node_series, series_results, series_of, collect_series, fall_back,
  answer_or_fall_back, request_at, replies, series_answer, query,
}
use prom_sketch_distributed.Query.Merger.Merging.{merged, share}

module _ {F : Type 0} where
  series_of-ok :
      (resp : EvalResponse F)
      → series_of (ok resp) ≡ (if str_eq resp.error "" then series_results resp.series else [])
  unfolding series_of node_series
  series_of-ok resp = elim (Bool-cases (str_eq resp.error "")) [
    | inl e ↦ rw (e, series_of, node_series) refl
    | inr e ↦ rw (e, series_of, node_series) refl
  ]

  series_results-nonempty : (ss : List (EvalResultSeries F)) → (series_results ss ≢ []) ↔ (ss ≢ [])
  unfolding series_results
  series_results-nonempty [] = (λ h e. h refl, λ h e. h refl)
  series_results-nonempty (s ∷ ss) = (λ h e. cc, λ h e. cc)

  share_iff :
      (r : Result String (EvalResponse F))
      → (series_of r ≢ [])
        ↔ ((resp : EvalResponse F) × (r ≡ ok resp) × (resp.error ≡ "") × (resp.series ≢ []))
  unfolding series_of node_series
  share_iff (err e) = (λ h. absurd (h refl), λ (resp, same, _, _). cc)
  share_iff (ok resp) = elim (Bool-cases (str_eq resp.error "")) [
    | inl e ↦
        let clean = (eq_iff resp.error "").0 e in
        rw (series_of-ok resp, e)
          (
            (λ h. (resp, refl, clean, (series_results-nonempty resp.series).0 h)),
            (λ (resp', same, _, w). (series_results-nonempty resp.series).1 (λ n. w cc)),
          )
    | inr e ↦
        rw (series_of-ok resp, e)
          (
            (λ h. absurd (h refl)),
            (λ (resp', same, clean, w).
                let named : resp.error ≡ "" = cc in absurd (cc ((eq_iff resp.error "").1 named))),
          )
  ]

module _ {F B : Type 0} (sv : Services F B) where
  -- The node's reply has no error and at least one series.
  abbrev pub Answers : QueryInfo F → ℕ → (String → ℤ) → String → Type 0
  Answers info ts cur_time id =
      (resp : EvalResponse F) × ((sv.eval) id (request_at sv info ts (cur_time id)) ≡ ok resp)
      × (resp.error ≡ "")
      × (resp.series ≢ [])

  append-nonempty :
      (xs ys : List (SketchSeriesResult F)) → (xs ++ ys ≢ []) ↔ ((xs ≢ []) ⊎ (ys ≢ []))
  append-nonempty [] ys = (λ h. inr h, λ h e. elim h [ inl k ↦ k refl | inr k ↦ k e ])
  append-nonempty (x ∷ xs) ys = (λ h. inl (λ e. cc), λ h e. cc)

  some_series :
      (info : QueryInfo F) (ts : ℕ) (cur_time : String → ℤ) (arrivals : List String)
      → (merged sv info ts cur_time arrivals ≢ [])
        ↔ ((id : String) × Elem id arrivals × Answers info ts cur_time id)
  unfolding replies collect_series
  some_series info ts cur_time [] = (λ h. absurd (h refl), λ (id, e, h). absurd e)
  some_series info ts cur_time (a ∷ arrivals) =
      let both =
        append-nonempty (share sv info ts cur_time a) (merged sv info ts cur_time arrivals) in
      let here = share_iff ((sv.eval) a (request_at sv info ts (cur_time a))) in
      (
        λ h. elim (both.0 h) [
          | inl k ↦ (a, inl refl, here.0 k)
          | inr k ↦ let (id, e, w) = (some_series info ts cur_time arrivals).0 k in (id, inr e, w)
        ],
        λ (id, e, w). both.1 (elim e [
          | inl same ↦ inl (here.1 (subst (λ (i : String). Answers info ts cur_time i) same w))
          | inr later ↦ inr ((some_series info ts cur_time arrivals).1 (id, later, w))
        ]),
      )

  -- The result came from the nodes' sketches.
  abbrev pub Sketched : Result QueryError (QueryResult F B) → Type 0
  Sketched r = (res : QueryResult F B) × (r ≡ ok res) × (res.source ≡ sketch)

  pub fall_back-not-Sketched :
      (info : QueryInfo F) (attempted : Bool) (m : MergerMetrics) (b : Result String B)
      → ¬ Sketched (fall_back info attempted m b).1
  unfolding fall_back
  fall_back-not-Sketched info attempted m (ok b) (res, e, s) = ground arith
  fall_back-not-Sketched info attempted m (err x) (res, e, s) = cc

  series_answer-Sketched :
      (info : QueryInfo F) (m : MergerMetrics) (xs : List (SketchSeriesResult F))
      (b : Result String B)
      → Sketched (answer_or_fall_back info m (series_answer sv xs) b).1 ↔ (xs ≢ [])
  unfolding answer_or_fall_back
  series_answer-Sketched info m [] b =
      (λ h. absurd (fall_back-not-Sketched info true _ b h), λ h. absurd (h refl))
  series_answer-Sketched info m (x ∷ xs) b = (λ h e. cc, λ h. (_, refl, refl))

  -- An instant query that parses is answered by the sketches exactly when they can handle it and the
  -- reply of at least one node has no error and at least one series.
  pub query-Sketched_iff :
      (m : MergerMetrics) (text : String) (ts : ℕ) (cur_time : String → ℤ) (arrivals : List String)
      (info : QueryInfo F)
      → parse sv.metricsql_parse text ≡ ok info
      → Sketched (query sv m text ts cur_time arrivals).1 ↔ (
          ((can_handle info).can_handle_with_sketches ≡ true)
          × ((id : String) × Elem id arrivals × Answers info ts cur_time id))
  unfolding query
  query-Sketched_iff m text ts cur_time arrivals info parsed =
      let xs = merged sv info ts cur_time arrivals in
      let b = (sv.backend_query) text ts in
      elim (Bool-cases (can_handle info).can_handle_with_sketches) [
        | inr out ↦
            rw (parsed, query)
              (rw out (λ h. absurd (fall_back-not-Sketched info false m b h), λ h. cc (h.0)))
        | inl able ↦
            rw (parsed, query)
              (rw able (
                (λ h. (
                  refl,
                  (some_series info ts cur_time arrivals).0
                      ((series_answer-Sketched info m xs b).0 h),
                )),
                (λ (_, w).
                    (series_answer-Sketched info m xs b).1
                      ((some_series info ts cur_time arrivals).1 w)),
              ))
      ]
