-- ===== src/Targets.antt =====
-- internal/storage/matcher/matcher.go: which series have a sketch. Prometheus's `Labels.Get` and the
-- compilation of regular expressions are parameters.
use prom_sketch_distributed.Common.{
  String, Bool, true, false, not, Option, none, some, List, [], ◌∷◌, str_eq, if◌then◌else◌, ℤ,
}
use prom_sketch_distributed.Insert.Router.{Label}

pub data LabelMatchType : Type 0 where
  label_match_equal label_match_not_equal label_match_regex label_match_not_regex : LabelMatchType

-- The regular expression of a matcher is its test on texts.
pub record LabelMatcher : Type 0 where
  pub name : String
  pub match_type : LabelMatchType
  pub value : String
  pub regex : String → Bool

-- A configured target; its window in seconds is there if it has parameters of its own.
pub record SketchTarget : Type 0 where
  pub match : String
  pub window_size : Option ℤ

pub data CompiledTarget : Type 0 where
  match_exact : SketchTarget → String → CompiledTarget
  match_regex : SketchTarget → (String → Bool) → CompiledTarget
  match_labels : SketchTarget → List LabelMatcher → CompiledTarget
  match_wildcard : SketchTarget → CompiledTarget

module _ (get : List Label → String → String) where
  unfoldable pub matches_single_label : List Label → LabelMatcher → Bool
  matches_single_label lbls m = elim m.match_type [
    | label_match_equal ↦ str_eq (get lbls m.name) m.value
    | label_match_not_equal ↦ not (str_eq (get lbls m.name) m.value)
    | label_match_regex ↦ (m.regex) (get lbls m.name)
    | label_match_not_regex ↦ not ((m.regex) (get lbls m.name))
  ]

  unfoldable pub matches_labels : List Label → List LabelMatcher → Bool
  matches_labels lbls [] = true
  matches_labels lbls (m ∷ ms) =
      let rest = matches_labels lbls ms in if not (matches_single_label lbls m) then false else rest

  unfoldable pub matches_target : List Label → CompiledTarget → Bool
  unfolding matches_labels matches_single_label
  matches_target lbls (match_wildcard t) = true
  matches_target lbls (match_exact t exact_name) = str_eq (get lbls "__name__") exact_name
  matches_target lbls (match_regex t name_regex) = name_regex (get lbls "__name__")
  matches_target lbls (match_labels t label_matchers) = matches_labels lbls label_matchers

  abbrev pub original : CompiledTarget → SketchTarget
  original (match_exact t x) = t
  original (match_regex t x) = t
  original (match_labels t x) = t
  original (match_wildcard t) = t

  -- Matches: the first target that matches.
  unfoldable pub matches : List CompiledTarget → List Label → Option SketchTarget
  unfolding matches_target
  matches [] lbls = none
  matches (t ∷ ts) lbls =
      let rest = matches ts lbls in if matches_target lbls t then some (original t) else rest
