-- ===== src/Storage/Bounds.antt =====
-- storage.go: an insert never reaches outside the slice of partitions.
use prom_sketch_distributed.Common.{
  ◌-ℤ◌, ℕ, zero, suc, ◌<◌, String, ◌≡◌, ◌≢◌, inl, inr, Bool, false, ◌&&◌, ◌||◌, none, List, [], ◌∷◌,
  arith, ltb, Bool-cases, Option-cases, length, get_elem?, ℤ, pos_part, ltb_ℤ, leb_ℤ, Result, ok,
  err, add_uint64,
}
use prom_sketch_distributed.Insert.Router.{Label}
use prom_sketch_distributed.Storage.{
  Sketches, SketchConfig, Storage, StorageError, not_owned, memory_limit_exceeded, insert_failed,
  index_out_of_range, estimated_bytes_per_series, new_storage, has_sketch_instance, insert_sample,
  insert_owned, get_partition, insert,
}
use prom_sketch_distributed.Storage.Accounting.{IsSound, insert_all, insert_all-IsSound}
use prom_sketch_distributed.Targets.{SketchTarget, matches}

abbrev Verdict : Type 0
Verdict = Result StorageError (Unit {0})

ok-other : ◌≢◌ {A = Verdict} (ok tt) (err index_out_of_range)
ok-other h = cc

module _ {S V : Type 0} (lib : Sketches S V) where
  insert_sample-in_range :
      (s : Storage S) (i : ℕ) (ps : S) (lbls : List Label) (timestamp : ℤ) (value : V)
      → (insert_sample lib s i ps lbls timestamp value).1 ≢ err index_out_of_range
  unfolding insert_sample
  insert_sample-in_range s i ps lbls timestamp value h =
      elim (Option-cases ((lib.sketch_insert) ps lbls timestamp value).1) [
        | inl e ↦ ok-other (rw (e, insert_sample) at h)
        | inr (x, e) ↦
            let h' : ◌≡◌ {A = Verdict} (err (insert_failed x)) (err index_out_of_range) =
              rw (e, insert_sample) at h in
            cc
      ]

  insert_owned-in_range :
      (s : Storage S) (i : ℕ) (ps : S) (lbls : List Label) (target : SketchTarget) (timestamp : ℤ)
      (value : V)
      → (insert_owned lib s i ps lbls target timestamp value).1 ≢ err index_out_of_range
  unfolding insert_owned
  insert_owned-in_range s i ps lbls target timestamp value h =
      let used = add_uint64 s.memory_used estimated_bytes_per_series in
      elim (Bool-cases (has_sketch_instance lib ps lbls)) [
        | inl there ↦
            insert_sample-in_range s i ps lbls timestamp value (rw (there, insert_owned) at h)
        | inr new ↦ elim (Bool-cases (ltb 0 s.memory_limit && ltb s.memory_limit used)) [
          | inl full ↦
              let h' : ◌≡◌ {A = Verdict} (err (memory_limit_exceeded s.memory_used s.memory_limit))
                  (err index_out_of_range) =
                rw full at (rw (new, insert_owned) at h) in
              cc
          | inr room ↦
              insert_sample-in_range _ i _ lbls timestamp value
                (rw room at (rw (new, insert_owned) at h))
        ]
      ]

index_bound : (p a b : ℤ) → ltb_ℤ p a || leb_ℤ b p ≡ false → pos_part (p -ℤ a) < pos_part (b -ℤ a)
unfolding ◌-ℤ◌
index_bound p a b h = ground (arith, h)

in_range : {S : Type 0} (xs : List S) (i : ℕ) → i < length xs → get_elem? xs i ≢ none
in_range [] i h e = absurd (omega (arith, h))
in_range (x ∷ xs) zero h e = cc
in_range (x ∷ xs) (suc i) h e = in_range xs i (omega arith) e

module _ {S V : Type 0} (xxhash : String → ℕ) (get : List Label → String → String)
    (lib : Sketches S V) where
  abbrev outside : Storage S → List Label → Bool
  outside s lbls =
      let p = get_partition xxhash get s.num_hashed lbls in
      ltb_ℤ p s.partition_start || leb_ℤ s.partition_end p

  abbrev local_index : Storage S → List Label → ℕ
  local_index s lbls = pos_part (get_partition xxhash get s.num_hashed lbls -ℤ s.partition_start)

  pub insert-in_range :
      (s : Storage S) (lbls : List Label) (timestamp : ℤ) (value : V)
      → IsSound s
      → (insert xxhash get lib s lbls timestamp value).1 ≢ err index_out_of_range
  unfolding insert
  insert-in_range s lbls timestamp value w h =
      elim (Option-cases (matches get s.config.targets lbls)) [
        | inl e ↦
            let h' : ◌≡◌ {A = Verdict} (ok tt) (err index_out_of_range) = rw (e, insert) at h in cc
        | inr (target, e) ↦ elim (Bool-cases (outside s lbls)) [
          | inl out ↦
              let h' : ◌≡◌ {A = Verdict}
                  (err (
                    not_owned (get_partition xxhash get s.num_hashed lbls) s.partition_start
                      s.partition_end))
                  (err index_out_of_range) =
                rw out at (rw (e, insert) at h) in
              cc
          | inr own ↦ elim (Option-cases (get_elem? s.partitions (local_index s lbls))) [
            | inl absent ↦
                in_range s.partitions (local_index s lbls)
                  (rw w.sized (
                    index_bound (get_partition xxhash get s.num_hashed lbls) s.partition_start
                      s.partition_end own))
                  absent
            | inr (ps, at) ↦
                insert_owned-in_range lib s (local_index s lbls) ps lbls target timestamp value
                  (rw at at (rw own at (rw (e, insert) at h)))
          ]
        ]
      ]

  -- After every row of inserts into a new storage, a further insert does not reach outside the slice
  -- of partitions.
  pub insert_never_panics :
      (cfg : SketchConfig) (calls : List (List Label × ℤ × V)) (lbls : List Label) (timestamp : ℤ)
      (value : V)
      → (insert xxhash get lib
          (insert_all xxhash get lib calls (new_storage lib cfg))
          lbls
          timestamp
          value).1
        ≢ err index_out_of_range
  insert_never_panics cfg calls lbls timestamp value =
      insert-in_range _ lbls timestamp value (insert_all-IsSound xxhash get lib cfg calls)
