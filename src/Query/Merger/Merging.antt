-- ===== src/Query/Merger/Merging.antt =====
-- merger.go, Query: the order in which the nodes' replies arrive.
use prom_sketch_distributed.Common.{
  ℕ, String, ◌≡◌, refl, sym, ap, ◌∙◌, inl, inr, Bool, true, false, List, [], ◌∷◌, ◌++◌,
  append_assoc, arith, Bool-cases, ℤ, Result, ok, err, Result-cases, perm-length,
}
use prom_sketch_distributed.Query.Parser.{QueryInfo, parse}
use prom_sketch_distributed.Query.Capabilities.{can_handle}
use prom_sketch_distributed.Query.Merger.{
  SketchSeriesResult, MergerMetrics, Answer, merged_series, from_backend, QueryResult, QueryError,
  Services, series_of, collect_series, fall_back, answer_or_fall_back, request_at, replies,
  series_answer, query,
}
use mathlib.Core.List.{Perm, Permᴰ}
use mathlib.Core.List.Permᴰ
use mathlib.Core.Logic.{∥∥₁_map}

module _ {F B : Type 0} (sv : Services F B) where
  abbrev pub merged : QueryInfo F → ℕ → (String → ℤ) → List String → List (SketchSeriesResult F)
  merged info ts cur_time arrivals = collect_series (replies sv info ts cur_time arrivals)

  abbrev pub share : QueryInfo F → ℕ → (String → ℤ) → String → List (SketchSeriesResult F)
  share info ts cur_time id = series_of ((sv.eval) id (request_at sv info ts (cur_time id)))

  merged-cons :
      (info : QueryInfo F) (ts : ℕ) (cur_time : String → ℤ) (id : String) (ids : List String)
      → merged info ts cur_time (id ∷ ids)
        ≡ share info ts cur_time id ++ merged info ts cur_time ids
  unfolding replies collect_series
  merged-cons info ts cur_time id ids = refl

  merged-pair :
      (info : QueryInfo F) (ts : ℕ) (cur_time : String → ℤ) (a b : String) (ids : List String)
      → merged info ts cur_time (a ∷ b ∷ ids)
        ≡ (share info ts cur_time a ++ share info ts cur_time b) ++ merged info ts cur_time ids
  merged-pair info ts cur_time a b ids =
      merged-cons info ts cur_time a (b ∷ ids)
      ∙ ap (λ rest. share info ts cur_time a ++ rest) (merged-cons info ts cur_time b ids)
      ∙ sym (
          append_assoc (share info ts cur_time a) (share info ts cur_time b)
            (merged info ts cur_time ids))

  merged-Permᴰ :
      (info : QueryInfo F) (ts : ℕ) (cur_time : String → ℤ) {ids ids' : List String}
      → Permᴰ ids ids'
      → Permᴰ (merged info ts cur_time ids) (merged info ts cur_time ids')
  merged-Permᴰ info ts cur_time Permᴰ.nil = Permᴰ.refl _
  merged-Permᴰ info ts cur_time (Permᴰ.cons {a = a} {b = b} {l₁ = l₁} {l₂ = l₂} e r) =
      rw (merged-cons info ts cur_time a l₁, merged-cons info ts cur_time b l₂, e)
        (Permᴰ.append_left (share info ts cur_time b) (merged-Permᴰ info ts cur_time r))
  merged-Permᴰ info ts cur_time (Permᴰ.swap {a = a} {b = b} {a' = a'} {b' = b'} {l = l} e f) =
      rw (merged-pair info ts cur_time a b l, merged-pair info ts cur_time a' b' l, sym e, sym f)
        (Permᴰ.append_right (merged info ts cur_time l)
          (Permᴰ.append_comm (share info ts cur_time a) (share info ts cur_time b)))
  merged-Permᴰ info ts cur_time (Permᴰ.trans r s) =
      Permᴰ.trans (merged-Permᴰ info ts cur_time r) (merged-Permᴰ info ts cur_time s)

  -- The same answer, but for the order of the merged series.
  abbrev pub SameAnswer : Answer F B → Answer F B → Type 0
  SameAnswer (merged_series xs) (merged_series ys) = Perm xs ys
  SameAnswer (from_backend b) (from_backend b') = b ≡ b'
  SameAnswer _ _ = ⊥

  abbrev pub SameOutcome :
      Result QueryError (QueryResult F B) → Result QueryError (QueryResult F B) → Type 0
  SameOutcome (ok r) (ok r') =
      (r.source ≡ r'.source)
      × SameAnswer r.answer r'.answer
      × (r.query_info ≡ r'.query_info)
      × (r.sketch_attempted ≡ r'.sketch_attempted)
      × (r.sketch_miss ≡ r'.sketch_miss)
  SameOutcome (err e) (err e') = e ≡ e'
  SameOutcome _ _ = ⊥

  fall_back-SameOutcome :
      (info : QueryInfo F) (attempted : Bool) (m : MergerMetrics) (b : Result String B)
      → SameOutcome (fall_back info attempted m b).1 (fall_back info attempted m b).1
  unfolding fall_back
  fall_back-SameOutcome info attempted m (ok b) = (refl, refl, refl, refl, refl)
  fall_back-SameOutcome info attempted m (err e) = refl

  answer-SameOutcome :
      (info : QueryInfo F) (m : MergerMetrics) (xs ys : List (SketchSeriesResult F))
      (b : Result String B)
      → Perm xs ys
      → ((answer_or_fall_back info m (series_answer sv xs) b).0
          ≡ (answer_or_fall_back info m (series_answer sv ys) b).0)
        × SameOutcome
            (answer_or_fall_back info m (series_answer sv xs) b).1
            (answer_or_fall_back info m (series_answer sv ys) b).1
  unfolding answer_or_fall_back
  answer-SameOutcome info m [] [] b r = (refl, fall_back-SameOutcome info true _ b)
  answer-SameOutcome info m (x ∷ xs) (y ∷ ys) b r = (refl, (refl, r, refl, refl, refl))
  answer-SameOutcome info m [] (y ∷ ys) b r = absurd (omega (arith, perm-length r))
  answer-SameOutcome info m (x ∷ xs) [] b r = absurd (omega (arith, perm-length r))

  -- Whatever the order in which the nodes' replies arrive, an instant query counts the same, and
  -- has the same source and flags, and the same error, backend answer, or merged series up to their
  -- order.
  pub query_order :
      (m : MergerMetrics) (text : String) (ts : ℕ) (cur_time : String → ℤ)
      (arrivals arrivals' : List String)
      → Perm arrivals arrivals'
      → ((query sv m text ts cur_time arrivals).0 ≡ (query sv m text ts cur_time arrivals').0)
        × SameOutcome
            (query sv m text ts cur_time arrivals).1
            (query sv m text ts cur_time arrivals').1
  unfolding query
  query_order m text ts cur_time arrivals arrivals' r =
      elim (Result-cases (parse sv.metricsql_parse text)) [
        | inr (x, bad) ↦ rw (bad, query) (refl, refl)
        | inl (info, parsed) ↦ elim (Bool-cases (can_handle info).can_handle_with_sketches) [
          | inr out ↦ rw (parsed, query) (rw out (refl, fall_back-SameOutcome info false m _))
          | inl able ↦
              rw (parsed, query)
                (rw able
                  (answer-SameOutcome info m _ _ _ (∥∥₁_map r (merged-Permᴰ info ts cur_time))))
        ]
      ]
