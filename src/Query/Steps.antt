-- ===== src/Query/Steps.antt =====
-- What query/router/router.go and pskquery/merger/merger.go share: the labels that a query selects,
-- the window of one evaluation, and the loop over the steps of a range query. Instants are
-- nanoseconds since 1970, and the step is not negative. Prometheus's label builder is a parameter
-- of the callers; it is given the calls of `Set` in order.
use prom_sketch_distributed.Common.{
  ◌-ℤ◌, ℕ, zero, suc, ◌+◌, ◌*◌, ◌/◌, ◌≤◌, ◌<◌, ◌≡◌, refl, ◌∙◌, inl, inr, true, false, Option, none,
  some, map_option, List, [], ◌∷◌, arith, str_eq, leb, if◌then◌else◌, leb→le, Bool-cases, get_elem?,
  ℤ, pos, leb_ℤ,
}
use prom_sketch_distributed.Query.Parser.{match_equal, LabelMatcher, QueryInfo, quantile_value}
use prom_sketch_distributed.Insert.Router.{Label}

-- The matchers that are equalities.
unfoldable pub equal_labels : List LabelMatcher → List Label
equal_labels [] = []
equal_labels (m ∷ ms) = elim m.match_type [
  | match_equal ↦ record { name = m.name; value = m.value } ∷ equal_labels ms
  | _ ↦ equal_labels ms
]

-- buildLabelsFromQuery: the calls of `Set` on the builder.
unfoldable pub build_labels_from_query : {F : Type 0} → QueryInfo F → List Label
unfolding equal_labels
build_labels_from_query info =
    if str_eq info.metric_name ""
    then equal_labels info.label_matchers
    else record { name = "__name__"; value = info.metric_name } ∷ equal_labels info.label_matchers

-- time.Time.UnixMilli
abbrev pub unix_milli : ℕ → ℤ
unix_milli t = pos (t / 1_000_000)

-- The start of the window that ends at `maxt`; without a positive range, the point `maxt`.
unfoldable pub window_start : ℤ → ℤ → ℤ
window_start maxt range = let mint = maxt -ℤ range in if leb_ℤ maxt mint then maxt else mint

-- The quantile is handed on for one function only.
unfoldable pub other_args : {F : Type 0} → F → F → QueryInfo F → F
unfolding quantile_value
other_args zero_value half info =
    if str_eq info.function_name "quantile_over_time" then quantile_value half info else zero_value

-- `for ts := start; ts.Before(end) || ts.Equal(end); ts = ts.Add(step)`: the instants at which the
-- body runs, or `none` if the fuel runs out.
unfoldable pub step_times : ℕ → ℕ → ℕ → ℕ → Option (List ℕ)
step_times zero ts end step = none
step_times (suc fuel) ts end step =
    let rest = map_option (λ times. ts ∷ times) (step_times fuel (ts + step) end step) in
    if leb ts end then rest else some []

-- The instants of a range query: every `start + i * step` that is not past the end, in order.
abbrev pub IsStepList : ℕ → ℕ → ℕ → List ℕ → Type 0
IsStepList start end step times =
    (i : ℕ)
    → get_elem? times i ≡ (if leb (start + i * step) end then some (start + i * step) else none)

nil-IsStepList : (start end step : ℕ) → end < start → IsStepList start end step []
nil-IsStepList start end step h i =
    let late : leb (start + i * step) end ≡ false = ground (arith, h) in rw late refl

cons-IsStepList :
    (start end step : ℕ) (times : List ℕ)
    → start ≤ end
    → IsStepList (start + step) end step times
    → IsStepList start end step (start ∷ times)
cons-IsStepList start end step times h rest zero =
    let first : start + 0 * step ≡ start = omega arith in
    let due : leb start end ≡ true = ground (arith, h) in rw (first, due) refl
cons-IsStepList start end step times h rest (suc i) =
    let next : start + step + i * step ≡ start + suc i * step = omega arith in rest i ∙ rw next refl

-- With a positive step, and one round of fuel for each nanosecond from the start to the end and one
-- more, the loop of a range query ends, and it has run at every `start + i * step` that is not past
-- the end, in order.
pub step_times_total :
    (fuel start end step : ℕ)
    → 0 < step
    → end < start + fuel
    → (times : List ℕ) × (step_times (suc fuel) start end step ≡ some times)
      × IsStepList start end step times
unfolding step_times
step_times_total zero start end step h f =
    let done : leb start end ≡ false = ground (arith, f) in
    ([], rw done refl, nil-IsStepList start end step (omega arith))
step_times_total (suc fuel) start end step h f = elim (Bool-cases (leb start end)) [
  | inl due ↦
      let (times, run, each) = step_times_total fuel (start + step) end step h (omega arith) in
      (
        start ∷ times,
        rw (due, run) refl,
        cons-IsStepList start end step times (leb→le _ _ due) each,
      )
  | inr done ↦ ([], rw done refl, nil-IsStepList start end step (ground arith))
]

-- With the step zero the loop of a range query never ends once it has begun, whatever the fuel.
pub step_times_zero : (fuel start end : ℕ) → start ≤ end → step_times fuel start end 0 ≡ none
unfolding step_times
step_times_zero zero start end h = refl
step_times_zero (suc fuel) start end h =
    let due : leb start end ≡ true = ground (arith, h) in
    rw (due, step_times_zero fuel (start + 0) end (omega arith)) refl
