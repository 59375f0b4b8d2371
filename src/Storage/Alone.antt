-- ===== src/Storage/Alone.antt =====
-- storage.go, Insert, against the goroutines of Racing.antt: the insert of a new series counts the
-- memory of a goroutine that is alone.
use prom_sketch_distributed.Common.{
  ℕ, ◌≡◌, refl, inl, inr, false, List, Bool-cases, Option-cases, ℤ,
}
use prom_sketch_distributed.Insert.Router.{Label}
use prom_sketch_distributed.Targets.{SketchTarget}
use prom_sketch_distributed.Storage.{
  Sketches, Storage, no_room, has_sketch_instance, insert_sample, insert_owned,
}
use prom_sketch_distributed.Storage.Racing.{
  Race, check_passes, check_fails, counts, RaceSteps, stays, goes, start_race,
}

module _ {S V : Type 0} (lib : Sketches S V) where
  insert_sample-memory :
      (s : Storage S) (i : ℕ) (ps : S) (lbls : List Label) (timestamp : ℤ) (value : V)
      → (insert_sample lib s i ps lbls timestamp value).0.memory_used ≡ s.memory_used
  unfolding insert_sample
  insert_sample-memory s i ps lbls timestamp value =
      elim (Option-cases ((lib.sketch_insert) ps lbls timestamp value).1) [
        | inl e ↦ rw (e, insert_sample) refl
        | inr (x, e) ↦ rw (e, insert_sample) refl
      ]

  -- The insert of a new series counts what one goroutine counts that is alone.
  pub insert_owned-alone :
      (s : Storage S) (i : ℕ) (ps : S) (lbls : List Label) (target : SketchTarget) (timestamp : ℤ)
      (value : V)
      → has_sketch_instance lib ps lbls ≡ false
      → (r : Race) × RaceSteps (start_race 1 s.memory_used s.memory_limit) r
        × (r.waiting ≡ 0)
        × (r.admitted ≡ 0)
        × ((insert_owned lib s i ps lbls target timestamp value).0.memory_used ≡ r.used)
  unfolding insert_owned
  insert_owned-alone s i ps lbls target timestamp value missing =
      elim (Bool-cases (no_room s.memory_limit s.memory_used)) [
        | inl full ↦ (
          _,
          goes (check_fails _ 0 refl full) (stays _),
          refl,
          refl,
          rw (missing, insert_owned) (rw full refl),
        )
        | inr room ↦ (
          _,
          goes (check_passes _ 0 refl room) (goes (counts _ 0 refl) (stays _)),
          refl,
          refl,
          rw (missing, insert_owned) (rw room (insert_sample-memory _ i _ lbls timestamp value)),
        )
      ]
