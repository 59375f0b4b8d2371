-- ===== src/Storage/Runs.antt =====
-- Two runs of the PromSketch library, which draws random numbers: `mine` and `theirs` are what the
-- library does in the one and in the other. Whatever relation of partitions the library's calls keep
-- (to have been given the same samples is one), storage.go keeps too.
use prom_sketch_distributed.Common.{
  ℕ, String, ◌≡◌, refl, inl, inr, Bool, true, false, List, [], ◌∷◌, ◌==◌, if◌then◌else◌, Bool-cases,
  Option-cases, ℤ,
}
use prom_sketch_distributed.Insert.Router.{Label}
use prom_sketch_distributed.Targets.{SketchTarget, matches}
use prom_sketch_distributed.Storage.{
  Sketches, SketchConfig, sketch_functions, has_sketch_instance, create_sketch_instances,
  create_sketch_instance,
}
use prom_sketch_distributed.Storage.Spec.{Partitions, stored, number, spec_insert, spec_all}

-- What the library keeps of a relation between the partitions of two runs. PrintCoverage goes by the
-- instances, their windows and their latest times, and draws nothing.
pub record Keeps {S T V : Type 0} (R : S → T → Type 0) (mine : Sketches S V) (theirs : Sketches T V)
    : Type 0 where
  pub made : R mine.new_prom_sketches theirs.new_prom_sketches
  pub covered :
      (s : S) (t : T) (lbls : List Label)
      → R s t
      → (mine.print_coverage) s lbls "avg_over_time"
        ≡ (theirs.print_coverage) t lbls "avg_over_time"
  pub created :
      (s : S) (t : T) (lbls : List Label) (func_name : String) (window : ℤ)
      → R s t
      → R
          ((mine.new_sketch_cache_instance) s lbls func_name window).0
          ((theirs.new_sketch_cache_instance) t lbls func_name window).0
  pub inserted :
      (s : S) (t : T) (lbls : List Label) (timestamp : ℤ) (value : V)
      → R s t
      → R
          ((mine.sketch_insert) s lbls timestamp value).0
          ((theirs.sketch_insert) t lbls timestamp value).0

module _ {S T V : Type 0} (R : S → T → Type 0) (mine : Sketches S V) (theirs : Sketches T V)
    (keeps : Keeps R mine theirs) where
  instances-kept :
      (fs : List String) (s : S) (t : T) (lbls : List Label) (window : ℤ)
      → R s t
      → R
          (create_sketch_instances mine fs s lbls window)
          (create_sketch_instances theirs fs t lbls window)
  unfolding create_sketch_instances
  instances-kept [] s t lbls window r = r
  instances-kept (f ∷ fs) s t lbls window r =
      instances-kept fs _ _ lbls window (keeps.created s t lbls f window r)

  either_kept :
      (b c : Bool)
      → b ≡ c
      → (s : S) (t : T) (s' : S) (t' : T) → R s t
      → R s' t'
      → R (if b then s else s') (if c then t else t')
  either_kept b true e s t s' t' r r' = rw e r
  either_kept b false e s t s' t' r r' = rw e r'

  stored-kept :
      (cfg : SketchConfig) (target : SketchTarget) (s : S) (t : T) (lbls : List Label)
      (timestamp : ℤ) (value : V)
      → R s t
      → R
          (stored mine cfg target s lbls timestamp value).0
          (stored theirs cfg target t lbls timestamp value).0
  unfolding stored has_sketch_instance create_sketch_instance
  stored-kept cfg target s t lbls timestamp value r =
      let same : has_sketch_instance mine s lbls ≡ has_sketch_instance theirs t lbls =
        rw (keeps.covered s t lbls r) refl in
      keeps.inserted _ _ lbls timestamp value
        (either_kept _ _ same s t _ _ r (instances-kept sketch_functions s t lbls _ r))

  module _ (xxhash : String → ℕ) (get : List Label → String → String) (cfg : SketchConfig)
      (hashed : ℤ) where
    insert-kept :
        (call : List Label × ℤ × V) (f : Partitions S) (g : Partitions T)
        → ((k : ℕ) → R (f k) (g k))
        → (k : ℕ)
        → R
            (spec_insert xxhash get mine cfg hashed call f k)
            (spec_insert xxhash get theirs cfg hashed call g k)
    unfolding spec_insert
    insert-kept (lbls, timestamp, value) f g r k =
        elim (Option-cases (matches get cfg.targets lbls)) [
          | inl e ↦ rw (e, spec_insert) (r k)
          | inr (target, e) ↦ elim (Bool-cases (k == number xxhash get hashed lbls)) [
            | inl here ↦
                rw (e, spec_insert)
                  (rw here (stored-kept cfg target _ _ lbls timestamp value (r _)))
            | inr other ↦ rw (e, spec_insert) (rw other (r k))
          ]
        ]

    pub all-kept :
        (calls : List (List Label × ℤ × V)) (f : Partitions S) (g : Partitions T)
        → ((k : ℕ) → R (f k) (g k))
        → (k : ℕ)
        → R
            (spec_all xxhash get mine cfg hashed calls f k)
            (spec_all xxhash get theirs cfg hashed calls g k)
    all-kept [] f g r = r
    all-kept (call ∷ calls) f g r = all-kept calls _ _ (insert-kept call f g r)
