-- ===== src/Storage/Sharding.antt =====
-- storage.go on a node with a part of the partitions, beside one storage that holds all of them.
use prom_sketch_distributed.Common.{
  ℕ, String, ◌≡◌, refl, ap, ◌∙◌, inl, inr, true, false, some, List, [], ◌∷◌, ◌==◌, ==_iff,
  Bool-cases, Option-cases, clash, ℤ,
}
use prom_sketch_distributed.Insert.Router.{Label}
use prom_sketch_distributed.Targets.{matches}
use prom_sketch_distributed.Storage.{
  Sketches, SketchConfig, Storage, create_sketch_instance, get_partition,
}
use prom_sketch_distributed.Storage.Spec.{
  node_config, outside, Partitions, Implements, stored, number, spec_insert, spec_verdict, spec_all,
}
use prom_sketch_distributed.Storage.Reading.{read_answer, look_up, eval_with_labels}
use prom_sketch_distributed.Storage.Effects.{insert_owned-Effect}
use prom_sketch_distributed.Storage.Refinement.{
  insert_unmatched, insert_inside, run, Holding, own_settings,
}

module _ {S V : Type 0} (xxhash : String → ℕ) (get : List Label → String → String)
    (lib : Sketches S V) where
  own-verdict :
      (s : Storage S) (f : Partitions S) (call : List Label × ℤ × V)
      → Holding xxhash get lib f s
      → outside s.partition_start s.partition_end (number xxhash get s.num_hashed call.0) ≡ false
      → (run xxhash get lib s call).1 ≡ spec_verdict xxhash get lib s.config s.num_hashed call f
  unfolding spec_verdict
  own-verdict s f (lbls, timestamp, value) w own =
      let k = number xxhash get s.num_hashed lbls in
      elim (Option-cases (matches get s.config.targets lbls)) [
        | inl e ↦
            rw (e, spec_verdict)
              (ap (λ r. r.1) (insert_unmatched xxhash get lib s lbls timestamp value e))
        | inr (target, e) ↦
            rw (e, spec_verdict)
              (ap (λ r. r.1)
                  (insert_inside xxhash get lib s lbls timestamp value target (f k) e own
                    (w.held k own))
                ∙ (insert_owned-Effect lib s _ (f k) lbls target timestamp value
                    w.unlimited).judged)
      ]

  -- An insert for a partition of the storage's range gives the library's verdict on the sample.
  pub insert-verdict :
      (cfg : SketchConfig) (hashed a b : ℤ) (s : Storage S) (f : Partitions S)
      (call : List Label × ℤ × V)
      → Implements cfg hashed a b f s
      → outside a b (number xxhash get hashed call.0) ≡ false
      → (run xxhash get lib s call).1 ≡ spec_verdict xxhash get lib cfg hashed call f
  insert-verdict cfg hashed a b s f call w own =
      (own_settings xxhash get lib
          (λ c h l r.
            Implements c h l r f s
            → outside l r (number xxhash get h call.0) ≡ false
            → (run xxhash get lib s call).1 ≡ spec_verdict xxhash get lib c h call f)
          cfg hashed a b s f w).1
        (own-verdict s f call) w own

  pub look_up-Implements :
      (cfg : SketchConfig) (hashed a b : ℤ) (s : Storage S) (f : Partitions S) (lbls : List Label)
      (func_name : String) (mint maxt : ℤ)
      → Implements cfg hashed a b f s
      → outside a b (number xxhash get hashed lbls) ≡ false
      → look_up xxhash get lib s lbls func_name mint maxt
        ≡ some ((lib.look_up) (f (number xxhash get hashed lbls)) lbls func_name mint maxt)
  unfolding look_up get_partition
  look_up-Implements cfg hashed a b s f lbls func_name mint maxt w own =
      rw (w.same_hash, w.starts, w.ends) (rw own (rw (w.held _ own) refl))

  pub eval_with_labels-Implements :
      (new_labels : List Label → List Label) (cfg : SketchConfig) (hashed a b : ℤ) (s : Storage S)
      (f : Partitions S) (func_name : String) (lbls : List Label) (other_args : V)
      (mint maxt cur_time : ℤ)
      → Implements cfg hashed a b f s
      → outside a b (number xxhash get hashed lbls) ≡ false
      → eval_with_labels xxhash get lib new_labels s func_name lbls other_args mint maxt cur_time
        ≡ some (
            read_answer new_labels func_name (
              (lib.eval_with_labels)
                (f (number xxhash get hashed lbls))
                func_name
                lbls
                other_args
                mint
                maxt
                cur_time))
  unfolding eval_with_labels get_partition
  eval_with_labels-Implements new_labels cfg hashed a b s f func_name lbls other_args mint maxt
        cur_time w own =
      rw (w.same_hash, w.starts, w.ends) (rw own (rw (w.held _ own) refl))

  -- The samples that reached a node: at least all those of the partitions of its range.
  pub data Feeds (hashed a b : ℤ)
      : List (List Label × ℤ × V) → List (List Label × ℤ × V) → Type 0 where
    fed_none : Feeds hashed a b [] []
    fed :
        {ours all : List (List Label × ℤ × V)} (call : List Label × ℤ × V)
        → Feeds hashed a b ours all
        → Feeds hashed a b (call ∷ ours) (call ∷ all)
    missed :
        {ours all : List (List Label × ℤ × V)} (call : List Label × ℤ × V)
        → outside a b (number xxhash get hashed call.0) ≡ true
        → Feeds hashed a b ours all
        → Feeds hashed a b ours (call ∷ all)

  -- Two views that agree on the range of a node.
  abbrev pub Agree : ℤ → ℤ → Partitions S → Partitions S → Type 0
  Agree a b f g = (k : ℕ) → outside a b k ≡ false → f k ≡ g k

  spec_insert-Agree :
      (cfg : SketchConfig) (hashed a b : ℤ) (f g : Partitions S) (call : List Label × ℤ × V)
      → Agree a b f g
      → Agree a b
          (spec_insert xxhash get lib cfg hashed call f)
          (spec_insert xxhash get lib cfg hashed call g)
  unfolding spec_insert
  spec_insert-Agree cfg hashed a b f g (lbls, timestamp, value) same j inside =
      elim (Option-cases (matches get cfg.targets lbls)) [
        | inl e ↦ rw (e, spec_insert) (same j inside)
        | inr (target, e) ↦ elim (Bool-cases (j == number xxhash get hashed lbls)) [
          | inl here ↦
              let there = (==_iff j _).0 here in
              rw (e, spec_insert)
                (rw here (
                  ap (λ ps. (stored lib cfg target ps lbls timestamp value).0)
                    (same _ (rw there at inside))))
          | inr other ↦ rw (e, spec_insert) (rw other (same j inside))
        ]
      ]

  spec_insert-outside :
      (cfg : SketchConfig) (hashed a b : ℤ) (f : Partitions S) (call : List Label × ℤ × V)
      → outside a b (number xxhash get hashed call.0) ≡ true
      → Agree a b f (spec_insert xxhash get lib cfg hashed call f)
  unfolding spec_insert
  spec_insert-outside cfg hashed a b f (lbls, timestamp, value) out j inside =
      elim (Option-cases (matches get cfg.targets lbls)) [
        | inl e ↦ rw (e, spec_insert) refl
        | inr (target, e) ↦ elim (Bool-cases (j == number xxhash get hashed lbls)) [
          | inl here ↦ absurd (clash _ out (rw ((==_iff j _).0 here) at inside))
          | inr other ↦ rw (e, spec_insert) (rw other refl)
        ]
      ]

  pub spec_all-Feeds :
      (cfg : SketchConfig) (hashed a b : ℤ) {ours all : List (List Label × ℤ × V)}
      → Feeds hashed a b ours all
      → (f g : Partitions S) → Agree a b f g
      → Agree a b
          (spec_all xxhash get lib cfg hashed ours f)
          (spec_all xxhash get lib cfg hashed all g)
  spec_all-Feeds cfg hashed a b fed_none f g same = same
  spec_all-Feeds cfg hashed a b (fed call rest) f g same =
      spec_all-Feeds cfg hashed a b rest (spec_insert xxhash get lib cfg hashed call f)
        (spec_insert xxhash get lib cfg hashed call g)
        (spec_insert-Agree cfg hashed a b f g call same)
  spec_all-Feeds cfg hashed a b (missed call out rest) f g same =
      spec_all-Feeds cfg hashed a b rest f (spec_insert xxhash get lib cfg hashed call g)
        (λ k inside. same k inside ∙ spec_insert-outside cfg hashed a b g call out k inside)

  -- What a partition is depends on the targets, the window and the hash only, not on the range.
  spec_insert-node :
      (cfg : SketchConfig) (a b hashed : ℤ) (call : List Label × ℤ × V) (f : Partitions S)
      → spec_insert xxhash get lib (node_config cfg a b) hashed call f
        ≡ spec_insert xxhash get lib cfg hashed call f
  unfolding spec_insert stored create_sketch_instance
  spec_insert-node cfg a b hashed call f = refl

  pub spec_all-node :
      (cfg : SketchConfig) (a b hashed : ℤ) (calls : List (List Label × ℤ × V)) (f : Partitions S)
      → spec_all xxhash get lib (node_config cfg a b) hashed calls f
        ≡ spec_all xxhash get lib cfg hashed calls f
  spec_all-node cfg a b hashed [] f = refl
  spec_all-node cfg a b hashed (call ∷ calls) f =
      rw (spec_insert-node cfg a b hashed call f) (spec_all-node cfg a b hashed calls _)
