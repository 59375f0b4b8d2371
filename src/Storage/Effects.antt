-- ===== src/Storage/Effects.antt =====
-- storage.go: what an insert into an owned partition does when there is no memory limit.
use prom_sketch_distributed.Common.{
  ℕ, ◌≡◌, refl, inl, inr, false, ◌&&◌, List, arith, ltb, Bool-cases, Option-cases, ℤ, Result,
  add_uint64,
}
use prom_sketch_distributed.Insert.Router.{Label}
use prom_sketch_distributed.Storage.{
  Sketches, Storage, StorageError, set_at, estimated_bytes_per_series, has_sketch_instance,
  create_sketch_instance, insert_sample, insert_owned,
}
use prom_sketch_distributed.Storage.Spec.{verdict_of, stored}
use prom_sketch_distributed.Targets.{SketchTarget}

module _ {S : Type 0} where
  -- One partition is replaced, the verdict is given, and the rest of the configuration stays.
  pub record Effect (i : ℕ) (x : S) (verdict : Result StorageError (Unit {0})) (s : Storage S)
      (r : Storage S × Result StorageError (Unit {0})) : Type 0 where
    pub replaced : r.0.partitions ≡ set_at i x s.partitions
    pub configured : r.0.config ≡ s.config
    pub same_hash : r.0.num_hashed ≡ s.num_hashed
    pub same_limit : r.0.memory_limit ≡ s.memory_limit
    pub starts : r.0.partition_start ≡ s.partition_start
    pub ends : r.0.partition_end ≡ s.partition_end
    pub judged : r.1 ≡ verdict

module _ {S V : Type 0} (lib : Sketches S V) where
  insert_sample-Effect :
      (s : Storage S) (i : ℕ) (ps : S) (lbls : List Label) (timestamp : ℤ) (value : V)
      → Effect i
          ((lib.sketch_insert) ps lbls timestamp value).0
          (verdict_of ((lib.sketch_insert) ps lbls timestamp value).1)
          s
          (insert_sample lib s i ps lbls timestamp value)
  unfolding insert_sample
  insert_sample-Effect s i ps lbls timestamp value =
      elim (Option-cases ((lib.sketch_insert) ps lbls timestamp value).1) [
        | inl e ↦
            rw (e, insert_sample)
              (record {
                replaced = refl;
                configured = refl;
                same_hash = refl;
                same_limit = refl;
                starts = refl;
                ends = refl;
                judged = refl;
              })
        | inr (x, e) ↦
            rw (e, insert_sample)
              (record {
                replaced = refl;
                configured = refl;
                same_hash = refl;
                same_limit = refl;
                starts = refl;
                ends = refl;
                judged = refl;
              })
      ]

  pub insert_owned-Effect :
      (s : Storage S) (i : ℕ) (ps : S) (lbls : List Label) (target : SketchTarget) (timestamp : ℤ)
      (value : V)
      → s.memory_limit ≡ 0
      → Effect i
          (stored lib s.config target ps lbls timestamp value).0
          (verdict_of (stored lib s.config target ps lbls timestamp value).1)
          s
          (insert_owned lib s i ps lbls target timestamp value)
  unfolding insert_owned stored
  insert_owned-Effect s i ps lbls target timestamp value unlimited =
      let used = add_uint64 s.memory_used estimated_bytes_per_series in
      let room : ltb 0 s.memory_limit && ltb s.memory_limit used ≡ false =
        ground (arith, unlimited) in
      elim (Bool-cases (has_sketch_instance lib ps lbls)) [
        | inl there ↦
            rw (there, insert_owned, stored) (insert_sample-Effect s i ps lbls timestamp value)
        | inr new ↦
            rw (new, insert_owned, stored)
              (rw room (
                let e =
                  insert_sample-Effect
                    (record s {
                      memory_used = used;
                      metrics = record (s.metrics) {
                        sketched_series = add_uint64 (s.metrics).sketched_series 1;
                      };
                    })
                    i (create_sketch_instance lib s.config ps lbls target) lbls timestamp value in
                record {
                  replaced = e.replaced;
                  configured = e.configured;
                  same_hash = e.same_hash;
                  same_limit = e.same_limit;
                  starts = e.starts;
                  ends = e.ends;
                  judged = e.judged;
                }))
      ]
