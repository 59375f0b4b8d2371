-- ===== src/Storage/Refinement.antt =====
-- storage.go refines the partitions of Spec.antt.
use prom_sketch_distributed.Common.{
  ◌-ℤ◌, ℕ, String, ◌≡◌, refl, sym, ap, ◌∙◌, subst, ◌↔◌, inl, inr, true, false, none, some, List, [],
  ◌∷◌, ◌==◌, ==_iff, Bool-cases, Option-cases, clash, get_elem?, ℤ, pos, pos_part, Result, ok,
}
use prom_sketch_distributed.Insert.Router.{Label}
use prom_sketch_distributed.Targets.{SketchTarget, matches}
use prom_sketch_distributed.Storage.{
  Sketches, SketchConfig, Storage, StorageError, new_partitioner, owned_end, new_storage,
  insert_owned, get_partition, insert,
}
use prom_sketch_distributed.Storage.Spec.{
  outside, Partitions, update, Implements, start_partitions, number, spec_insert, spec_all,
}
use prom_sketch_distributed.Storage.Accounting.{insert_all}
use prom_sketch_distributed.Storage.Cells.{
  set_at-same, set_at-other, replicate-get, other_index, inside_index,
}
use prom_sketch_distributed.Storage.Effects.{Effect, insert_owned-Effect}

module _ {S V : Type 0} (xxhash : String → ℕ) (get : List Label → String → String)
    (lib : Sketches S V) where
  same_number :
      (hashed : ℤ) (lbls : List Label)
      → get_partition xxhash get hashed lbls ≡ pos (number xxhash get hashed lbls)
  unfolding get_partition
  same_number hashed lbls = refl

  pub insert_unmatched :
      (s : Storage S) (lbls : List Label) (timestamp : ℤ) (value : V)
      → matches get s.config.targets lbls ≡ none
      → insert xxhash get lib s lbls timestamp value ≡ (s, ok tt)
  unfolding insert
  insert_unmatched s lbls timestamp value e = rw (e, insert) refl

  pub insert-outside :
      (s : Storage S) (lbls : List Label) (timestamp : ℤ) (value : V) (target : SketchTarget)
      → matches get s.config.targets lbls ≡ some target
      → outside s.partition_start s.partition_end (number xxhash get s.num_hashed lbls) ≡ true
      → (insert xxhash get lib s lbls timestamp value).0 ≡ s
  unfolding insert get_partition
  insert-outside s lbls timestamp value target e out = rw (e, insert) (rw out refl)

  pub insert_inside :
      (s : Storage S) (lbls : List Label) (timestamp : ℤ) (value : V) (target : SketchTarget)
      (ps : S)
      → matches get s.config.targets lbls ≡ some target
      → outside s.partition_start s.partition_end (number xxhash get s.num_hashed lbls) ≡ false
      → get_elem? s.partitions
          (pos_part (pos (number xxhash get s.num_hashed lbls) -ℤ s.partition_start))
        ≡ some ps
      → insert xxhash get lib s lbls timestamp value
        ≡ insert_owned lib s
            (pos_part (pos (number xxhash get s.num_hashed lbls) -ℤ s.partition_start))
            ps
            lbls
            target
            timestamp
            value
  unfolding insert get_partition
  insert_inside s lbls timestamp value target ps e own at = rw (e, insert) (rw own (rw at refl))

  abbrev pub run : Storage S → List Label × ℤ × V → Storage S × Result StorageError (Unit {0})
  run s (lbls, timestamp, value) = insert xxhash get lib s lbls timestamp value

  -- The storage holds the partitions of its own range.
  abbrev pub Holding : Partitions S → Storage S → Type 0
  Holding f s = Implements s.config s.num_hashed s.partition_start s.partition_end f s

  -- A storage whose partitions stand still implements partitions that changed outside its range.
  Holding-outside :
      (s : Storage S) (f : Partitions S) (k : ℕ) (x : S)
      → Holding f s
      → outside s.partition_start s.partition_end k ≡ true
      → Holding (update k x f) s
  Holding-outside s f k x w out = record {
    configured = refl;
    same_hash = refl;
    unlimited = w.unlimited;
    starts = refl;
    ends = refl;
    held = λ j inside. elim (Bool-cases (j == k)) [
      | inl same ↦ absurd (clash _ out (rw ((==_iff j k).0 same) at inside))
      | inr other ↦ rw other (w.held j inside)
    ];
  }

  Effect-Holding :
      (s : Storage S) (f : Partitions S) (k : ℕ) (x : S) (verdict : Result StorageError (Unit {0}))
      (r : Storage S × Result StorageError (Unit {0}))
      → Holding f s
      → outside s.partition_start s.partition_end k ≡ false
      → Effect (pos_part (pos k -ℤ s.partition_start)) x verdict s r
      → Implements s.config s.num_hashed s.partition_start s.partition_end (update k x f) r.0
  Effect-Holding s f k x verdict r w own e = record {
    configured = e.configured;
    same_hash = e.same_hash;
    unlimited = e.same_limit ∙ w.unlimited;
    starts = e.starts;
    ends = e.ends;
    held = λ j inside. rw e.replaced (elim (Bool-cases (j == k)) [
      | inl same ↦
          let here = (==_iff j k).0 same in
          rw same (rw here (set_at-same _ x (f k) s.partitions (w.held k own)))
      | inr other ↦ rw other (
          set_at-other _ _ x s.partitions (
            other_index s.partition_start s.partition_end k j own inside
              (λ same. clash _ ((==_iff j k).1 (sym same)) other))
          ∙ w.held j inside)
    ]);
  }

  insert-Holding :
      (s : Storage S) (f : Partitions S) (call : List Label × ℤ × V)
      → Holding f s
      → Implements s.config s.num_hashed s.partition_start s.partition_end
          (spec_insert xxhash get lib s.config s.num_hashed call f)
          (run s call).0
  unfolding spec_insert
  insert-Holding s f (lbls, timestamp, value) w =
      let k = number xxhash get s.num_hashed lbls in
      elim (Option-cases (matches get s.config.targets lbls)) [
        | inl e ↦ rw (e, spec_insert) (rw (insert_unmatched s lbls timestamp value e) w)
        | inr (target, e) ↦ elim (Bool-cases (outside s.partition_start s.partition_end k)) [
          | inl out ↦
              rw (e, spec_insert)
                (rw (insert-outside s lbls timestamp value target e out)
                  (Holding-outside s f k _ w out))
          | inr own ↦
              rw (e, spec_insert)
                (rw (insert_inside s lbls timestamp value target (f k) e own (w.held k own)) (
                  Effect-Holding s f k _ _ _ w own
                    (insert_owned-Effect lib s _ (f k) lbls target timestamp value w.unlimited)))
        ]
      ]

  -- What holds of a storage's own settings holds of those that it implements.
  pub own_settings :
      (P : SketchConfig → ℤ → ℤ → ℤ → Type 0) (cfg : SketchConfig) (hashed a b : ℤ) (s : Storage S)
      (f : Partitions S)
      → Implements cfg hashed a b f s
      → P cfg hashed a b ↔ P s.config s.num_hashed s.partition_start s.partition_end
  own_settings P cfg hashed a b s f w =
      let all : P s.config s.num_hashed s.partition_start s.partition_end ≡ P cfg hashed a b =
        ap (λ c. P c s.num_hashed s.partition_start s.partition_end) w.configured
        ∙ ap (λ h. P cfg h s.partition_start s.partition_end) w.same_hash
        ∙ ap (λ l. P cfg hashed l s.partition_end) w.starts
        ∙ ap (P cfg hashed a) w.ends in
      (subst (λ X. X) (sym all), subst (λ X. X) all)

  pub insert-Implements :
      (cfg : SketchConfig) (hashed a b : ℤ) (s : Storage S) (f : Partitions S)
      (call : List Label × ℤ × V)
      → Implements cfg hashed a b f s
      → Implements cfg hashed a b (spec_insert xxhash get lib cfg hashed call f) (run s call).0
  insert-Implements cfg hashed a b s f call w =
      let held = (own_settings (λ c h l r. Implements c h l r f s) cfg hashed a b s f w).0 w in
      (own_settings
          (λ c h l r. Implements c h l r (spec_insert xxhash get lib c h call f) (run s call).0) cfg
          hashed a b s f w).1
        (insert-Holding s f call held)

  pub insert_all-from :
      (cfg : SketchConfig) (hashed a b : ℤ) (calls : List (List Label × ℤ × V)) (s : Storage S)
      (f : Partitions S)
      → Implements cfg hashed a b f s
      → Implements cfg hashed a b
          (spec_all xxhash get lib cfg hashed calls f)
          (insert_all xxhash get lib calls s)
  insert_all-from cfg hashed a b [] s f w = w
  insert_all-from cfg hashed a b (call ∷ calls) s f w =
      insert_all-from cfg hashed a b calls (run s call).0 _
        (insert-Implements cfg hashed a b s f call w)

  new_storage-Implements :
      (cfg : SketchConfig)
      → cfg.memory_limit ≡ 0
      → Implements cfg
          (new_partitioner cfg.num_partitions)
          cfg.config_start
          (owned_end cfg)
          (start_partitions lib cfg)
          (new_storage lib cfg)
  unfolding new_storage
  new_storage-Implements cfg unlimited = record {
    configured = refl;
    same_hash = refl;
    unlimited = unlimited;
    starts = refl;
    ends = refl;
    held = λ k inside. replicate-get _ _ _ (inside_index cfg.config_start (owned_end cfg) k inside);
  }

  -- A storage made without a memory limit and given any row of inserts holds, for each partition of
  -- its range, what the library makes of the samples of that partition, in their order: the
  -- partition's number is the hash of the metric's name, a sample that no target matches is left
  -- out, and a series is created where the library has no coverage of it.
  pub insert_all-Implements :
      (cfg : SketchConfig) (calls : List (List Label × ℤ × V))
      → cfg.memory_limit ≡ 0
      → Implements cfg
          (new_partitioner cfg.num_partitions)
          cfg.config_start
          (owned_end cfg)
          (spec_all xxhash get lib cfg
            (new_partitioner cfg.num_partitions)
            calls
            (start_partitions lib cfg))
          (insert_all xxhash get lib calls (new_storage lib cfg))
  insert_all-Implements cfg calls unlimited =
      insert_all-from cfg _ _ _ calls _ _ (new_storage-Implements cfg unlimited)
