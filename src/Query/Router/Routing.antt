-- ===== src/Query/Router/Routing.antt =====
-- router.go: who answers a query, when it fails, and what is counted.
use prom_sketch_distributed.Common.{
  ℕ, suc, ◌+◌, ◌^◌, ◌≤◌, ◌<◌, String, ◌≡◌, refl, ◌↔◌, ◌⊎◌, inl, inr, Bool, true, false, Option,
  none, some, List, [], ◌∷◌, arith, Bool-cases, ℤ, Result, ok, err, Result-cases, add_uint64,
}
use prom_sketch_distributed.Query.Parser.{QueryInfo, parse}
use prom_sketch_distributed.Query.Capabilities.{can_handle}
use prom_sketch_distributed.Query.Steps.{
  unix_milli, window_start, other_args, step_times_total, step_times_zero,
}
use prom_sketch_distributed.Query.Router.{
  Point, Vector, Services, RouterMetrics, sketch, Answer, vector, QueryResult, QueryError,
  parse_failed, backend_failed, SketchError, new_metrics, query_labels, execute_with_sketches,
  execute_with_sketches_range, vector_answer, fall_back, answer_or_fall_back, query, query_range,
}

module _ {F B : Type 0} (sv : Services F B) where
  -- The sketches have a vector, which is not nil, for the window of an instant query.
  abbrev pub HasVector : QueryInfo F → ℕ → ℤ → List (Point F) → Type 0
  HasVector info ts cur_time v =
      let mint = window_start (unix_milli ts) info.range in
      ((sv.look_up) (query_labels sv info) info.function_name mint (unix_milli ts) ≡ true)
      × ((sv.eval) info.function_name (query_labels sv info) (other_args sv.zero_value sv.half info)
            mint (unix_milli ts) cur_time
          ≡ ok (some v))

  vector_answer_iff :
      (r : Result SketchError (Vector F)) (v : List (Point F))
      → (vector_answer sv r ≡ some (vector v)) ↔ (r ≡ ok (some v))
  vector_answer_iff (err e) v = (λ h. cc, λ h. cc)
  vector_answer_iff (ok none) v = (λ h. cc, λ h. cc)
  vector_answer_iff (ok (some u)) v = (λ h. cc, λ h. cc)

  execute_with_sketches_iff :
      (info : QueryInfo F) (mint maxt cur_time : ℤ) (v : Vector F)
      → (execute_with_sketches sv info mint maxt cur_time ≡ ok v) ↔ (
          ((sv.look_up) (query_labels sv info) info.function_name mint maxt ≡ true)
          × ((sv.eval) info.function_name
                (query_labels sv info)
                (other_args sv.zero_value sv.half info)
                mint
                maxt
                cur_time
              ≡ ok v))
  unfolding execute_with_sketches
  execute_with_sketches_iff info mint maxt cur_time v = ground arith

  -- The result came from the sketches, with this answer.
  abbrev pub Sketched : Answer F B → Result QueryError (QueryResult F B) → Type 0
  Sketched a r = (res : QueryResult F B) × (r ≡ ok res) × (res.source ≡ sketch) × (res.answer ≡ a)

  fall_back-not-Sketched :
      (info : QueryInfo F) (attempted : Bool) (m : RouterMetrics) (b : Result String B)
      (a : Answer F B)
      → ¬ Sketched a (fall_back sv info attempted m b).1
  unfolding fall_back
  fall_back-not-Sketched info attempted m (ok b) a (res, e, s, _) = ground arith
  fall_back-not-Sketched info attempted m (err x) a (res, e, s, _) = cc

  answer_or_fall_back_iff :
      (info : QueryInfo F) (m : RouterMetrics) (o : Option (Answer F B)) (b : Result String B)
      (a : Answer F B)
      → Sketched a (answer_or_fall_back sv info m o b).1 ↔ (o ≡ some a)
  unfolding answer_or_fall_back
  answer_or_fall_back_iff info m none b a =
      (λ h. absurd (fall_back-not-Sketched info true _ b a h), λ h. cc)
  answer_or_fall_back_iff info m (some a') b a =
      (λ (res, e, s, w). ground arith, λ h. (_, refl, refl, cc))

  -- An instant query that parses is answered by the sketches, with this vector, exactly when they
  -- can handle it, cover its window, and evaluate it to this vector, which is not nil.
  pub query_sketch_iff :
      (m : RouterMetrics) (text : String) (ts : ℕ) (cur_time : ℤ) (info : QueryInfo F)
      (v : List (Point F))
      → parse sv.metricsql_parse text ≡ ok info
      → Sketched (vector v) (query sv m text ts cur_time).1
        ↔ (((can_handle info).can_handle_with_sketches ≡ true) × HasVector info ts cur_time v)
  unfolding query
  query_sketch_iff m text ts cur_time info v parsed =
      let mint = window_start (unix_milli ts) info.range in
      let run = execute_with_sketches sv info mint (unix_milli ts) cur_time in
      elim (Bool-cases (can_handle info).can_handle_with_sketches) [
        | inr out ↦
            rw (parsed, query)
              (rw out
                (λ h. absurd (fall_back-not-Sketched info false m _ (vector v) h), λ h. cc (h.0)))
        | inl able ↦
            rw (parsed, query)
              (rw able (
                (λ h.
                    let r =
                      (vector_answer_iff run v).0
                        ((answer_or_fall_back_iff info m _ _ (vector v)).0 h) in
                    let (covered, result) =
                      (execute_with_sketches_iff info mint (unix_milli ts) cur_time (some v)).0 r in
                    (refl, (covered, result))),
                (λ (_, (covered, result)). (answer_or_fall_back_iff info m _ _ (vector v)).1 (
                    (vector_answer_iff run v).1 (
                      (execute_with_sketches_iff info mint (unix_milli ts) cur_time (some v)).1
                        (covered, result)))),
              ))
      ]

  fall_back_fails :
      (info : QueryInfo F) (attempted : Bool) (m : RouterMetrics) (b : Result String B)
      (e : QueryError)
      → (fall_back sv info attempted m b).1 ≡ err e
      → (x : String) × (b ≡ err x) × (e ≡ backend_failed x)
  unfolding fall_back
  fall_back_fails info attempted m (ok b) e h = cc
  fall_back_fails info attempted m (err x) e h = (x, refl, cc)

  answer_or_fall_back_fails :
      (info : QueryInfo F) (m : RouterMetrics) (o : Option (Answer F B)) (b : Result String B)
      (e : QueryError)
      → (answer_or_fall_back sv info m o b).1 ≡ err e
      → (x : String) × (b ≡ err x) × (e ≡ backend_failed x)
  unfolding answer_or_fall_back
  answer_or_fall_back_fails info m none b e h = fall_back_fails info true _ b e h
  answer_or_fall_back_fails info m (some a) b e h = cc

  -- An instant query fails only if it does not parse or the backend fails, and then with that error.
  pub query_fails :
      (m : RouterMetrics) (text : String) (ts : ℕ) (cur_time : ℤ) (e : QueryError)
      → (query sv m text ts cur_time).1 ≡ err e
      → ((x : String) × (parse sv.metricsql_parse text ≡ err x) × (e ≡ parse_failed x))
        ⊎ ((x : String) × ((sv.backend_query) text ts ≡ err x) × (e ≡ backend_failed x))
  unfolding query
  query_fails m text ts cur_time e h = elim (Result-cases (parse sv.metricsql_parse text)) [
    | inr (x, bad) ↦
        let h' : ◌≡◌ {A = Result QueryError (QueryResult F B)} (err (parse_failed x)) (err e) =
          rw (bad, query) at h in
        inl (x, bad, cc)
    | inl (info, parsed) ↦ inr (elim (Bool-cases (can_handle info).can_handle_with_sketches) [
      | inl able ↦ answer_or_fall_back_fails info m _ _ e (rw able at (rw (parsed, query) at h))
      | inr out ↦ fall_back_fails info false m _ e (rw out at (rw (parsed, query) at h))
    ])
  ]

  -- The counters agree: every query that the sketches were asked is a hit or a miss.
  pub record IsBalanced (m : RouterMetrics) : Type 0 where
    pub asked : m.sketch_queries ≡ add_uint64 m.sketch_hits m.sketch_misses
    pub word : m.sketch_queries < 2 ^ 64

  fall_back-IsBalanced :
      (info : QueryInfo F) (attempted : Bool) (m : RouterMetrics) (b : Result String B)
      → IsBalanced m
      → IsBalanced (fall_back sv info attempted m b).0
  unfolding fall_back
  fall_back-IsBalanced info attempted m (ok b) w = record { asked = w.asked; word = w.word }
  fall_back-IsBalanced info attempted m (err x) w = record { asked = w.asked; word = w.word }

  answer_or_fall_back-IsBalanced :
      (info : QueryInfo F) (m : RouterMetrics) (o : Option (Answer F B)) (b : Result String B)
      → IsBalanced m
      → IsBalanced (answer_or_fall_back sv info m o b).0
  unfolding answer_or_fall_back
  answer_or_fall_back-IsBalanced info m none b w =
      fall_back-IsBalanced info true _ b
        (record { asked = omega (arith, w.asked, w.word); word = omega arith })
  answer_or_fall_back-IsBalanced info m (some a) b w = record {
    asked = omega (arith, w.asked, w.word);
    word = omega arith;
  }

  query-IsBalanced :
      (m : RouterMetrics) (text : String) (ts : ℕ) (cur_time : ℤ)
      → IsBalanced m
      → IsBalanced (query sv m text ts cur_time).0
  unfolding query
  query-IsBalanced m text ts cur_time w = elim (Result-cases (parse sv.metricsql_parse text)) [
    | inr (x, bad) ↦ rw (bad, query) (record { asked = w.asked; word = w.word })
    | inl (info, parsed) ↦ elim (Bool-cases (can_handle info).can_handle_with_sketches) [
      | inl able ↦ rw (parsed, query) (rw able (answer_or_fall_back-IsBalanced info m _ _ w))
      | inr out ↦ rw (parsed, query) (rw out (fall_back-IsBalanced info false m _ w))
    ]
  ]

  -- The counters after a row of instant queries.
  abbrev pub query_all : List (String × ℕ × ℤ) → RouterMetrics → RouterMetrics
  query_all [] m = m
  query_all ((text, ts, cur_time) ∷ rest) m = query_all rest (query sv m text ts cur_time).0

  IsBalanced-from :
      (calls : List (String × ℕ × ℤ)) (m : RouterMetrics)
      → IsBalanced m
      → IsBalanced (query_all calls m)
  IsBalanced-from [] m w = w
  IsBalanced-from ((text, ts, cur_time) ∷ rest) m w =
      IsBalanced-from rest (query sv m text ts cur_time).0 (query-IsBalanced m text ts cur_time w)

  -- From new counters, every row of instant queries leaves the counters balanced: the queries that
  -- the sketches were asked are the hits and the misses together.
  pub query_all-IsBalanced :
      (calls : List (String × ℕ × ℤ)) → IsBalanced (query_all calls new_metrics)
  unfolding new_metrics
  query_all-IsBalanced calls =
      IsBalanced-from calls new_metrics (record { asked = refl; word = omega arith })

  -- With a positive step, and one round of fuel for each nanosecond from the start to the end and one
  -- more, a range query ends, with a result or an error.
  pub query_range_total :
      (fuel : ℕ) (m : RouterMetrics) (text : String) (start end step : ℕ) (cur_time : ℤ)
      → 0 < step
      → end < start + fuel
      → (r : RouterMetrics × Result QueryError (QueryResult F B)) × (query_range sv
            (suc fuel)
            m
            text
            start
            end
            step
            cur_time
          ≡ some r)
  unfolding query_range execute_with_sketches_range
  query_range_total fuel m text start end step cur_time h f =
      let (times, run, _) = step_times_total fuel start end step h f in
      elim (Result-cases (parse sv.metricsql_parse text)) [
        | inr (x, bad) ↦ rw (bad, query_range) (_, refl)
        | inl (info, parsed) ↦ elim (Bool-cases (can_handle info).can_handle_with_sketches) [
          | inr out ↦ rw (parsed, query_range) (rw out (_, refl))
          | inl able ↦
              elim (Bool-cases (
                (sv.look_up) (query_labels sv info) info.function_name (unix_milli start)
                  (unix_milli end))) [
                    | inr miss ↦
                        rw (parsed, query_range)
                          (rw able (rw (miss, execute_with_sketches_range) (_, refl)))
                    | inl hit ↦
                        rw (parsed, query_range)
                          (rw able (rw (hit, execute_with_sketches_range) (rw run (_, refl))))
                  ]
        ]
      ]

  -- With the step zero, a range query that the sketches can handle and cover never ends, whatever
  -- the fuel, if it does not end before it starts.
  pub query_range_zero :
      (fuel : ℕ) (m : RouterMetrics) (text : String) (start end : ℕ) (cur_time : ℤ)
      (info : QueryInfo F)
      → start ≤ end
      → parse sv.metricsql_parse text ≡ ok info
      → (can_handle info).can_handle_with_sketches ≡ true
      → (sv.look_up) (query_labels sv info) info.function_name (unix_milli start) (unix_milli end)
        ≡ true
      → query_range sv fuel m text start end 0 cur_time ≡ none
  unfolding query_range execute_with_sketches_range
  query_range_zero fuel m text start end cur_time info h parsed able hit =
      rw (parsed, query_range)
        (rw able
          (rw (hit, execute_with_sketches_range) (rw (step_times_zero fuel start end h) refl)))
