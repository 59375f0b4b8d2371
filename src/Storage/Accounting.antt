-- ===== src/Storage/Accounting.antt =====
-- storage.go: what every row of inserts keeps.
use prom_sketch_distributed.Common.{
  ◌-ℤ◌, ℕ, zero, suc, ◌*◌, ◌%◌, ◌^◌, ◌≤◌, String, ◌≡◌, refl, ap, ◌∙◌, ◌⊎◌, inl, inr, Bool, ◌&&◌,
  ◌||◌, List, [], ◌∷◌, arith, ltb, Bool-cases, Option-cases, length, get_elem?, ℤ, pos_part, ltb_ℤ,
  leb_ℤ, add_uint64,
}
use prom_sketch_distributed.Insert.Router.{Label}
use prom_sketch_distributed.Storage.{
  Sketches, SketchConfig, Storage, replicate, set_at, estimated_bytes_per_series, new_storage,
  has_sketch_instance, insert_sample, insert_owned, get_partition, insert,
}
use prom_sketch_distributed.Targets.{SketchTarget, matches}

module _ {S : Type 0} where
  -- Each new series is counted with its estimate, in 64 bits; the memory counted stays within a
  -- limit that is set; and there is one partition for each number of the node's range.
  pub record IsSound (s : Storage S) : Type 0 where
    pub accounted : s.memory_used ≡ s.metrics.sketched_series * 65536 % 2 ^ 64
    pub within : (s.memory_limit ≡ 0) ⊎ (s.memory_used ≤ s.memory_limit)
    pub sized : length s.partitions ≡ pos_part (s.partition_end -ℤ s.partition_start)

length-set_at : {S : Type 0} (i : ℕ) (x : S) (xs : List S) → length (set_at i x xs) ≡ length xs
length-set_at i x [] = refl
length-set_at zero x (y ∷ ys) = refl
length-set_at (suc i) x (y ∷ ys) = ap (λ (n : ℕ). suc n) (length-set_at i x ys)

pub length-replicate : {S : Type 0} (n : ℕ) (x : S) → length (replicate n x) ≡ n
length-replicate zero x = refl
length-replicate (suc n) x = ap (λ (n : ℕ). suc n) (length-replicate n x)

module _ {S V : Type 0} (lib : Sketches S V) where
  insert_sample-IsSound :
      (s : Storage S) (i : ℕ) (ps : S) (lbls : List Label) (timestamp : ℤ) (value : V)
      → IsSound s
      → IsSound (insert_sample lib s i ps lbls timestamp value).0
  unfolding insert_sample
  insert_sample-IsSound s i ps lbls timestamp value w =
      elim (Option-cases ((lib.sketch_insert) ps lbls timestamp value).1) [
        | inl e ↦
            rw (e, insert_sample)
              (record {
                accounted = w.accounted;
                within = w.within;
                sized = length-set_at i _ _ ∙ w.sized;
              })
        | inr (x, e) ↦
            rw (e, insert_sample)
              (record {
                accounted = w.accounted;
                within = w.within;
                sized = length-set_at i _ _ ∙ w.sized;
              })
      ]

  insert_owned-IsSound :
      (s : Storage S) (i : ℕ) (ps : S) (lbls : List Label) (target : SketchTarget) (timestamp : ℤ)
      (value : V)
      → IsSound s
      → IsSound (insert_owned lib s i ps lbls target timestamp value).0
  unfolding insert_owned
  insert_owned-IsSound s i ps lbls target timestamp value w =
      let used = add_uint64 s.memory_used estimated_bytes_per_series in
      elim (Bool-cases (has_sketch_instance lib ps lbls)) [
        | inl there ↦ rw (there, insert_owned) (insert_sample-IsSound s i ps lbls timestamp value w)
        | inr new ↦ elim (Bool-cases (ltb 0 s.memory_limit && ltb s.memory_limit used)) [
          | inl full ↦
              rw (new, insert_owned)
                (rw full (record { accounted = w.accounted; within = w.within; sized = w.sized }))
          | inr room ↦
              rw (new, insert_owned)
                (rw room (
                  insert_sample-IsSound _ i _ lbls timestamp value (record {
                    accounted = omega (arith, w.accounted);
                    within = ground (arith, room);
                    sized = w.sized;
                  })))
        ]
      ]

module _ {S V : Type 0} (xxhash : String → ℕ) (get : List Label → String → String)
    (lib : Sketches S V) where
  abbrev outside : Storage S → List Label → Bool
  outside s lbls =
      let p = get_partition xxhash get s.num_hashed lbls in
      ltb_ℤ p s.partition_start || leb_ℤ s.partition_end p

  abbrev local_index : Storage S → List Label → ℕ
  local_index s lbls = pos_part (get_partition xxhash get s.num_hashed lbls -ℤ s.partition_start)

  pub insert-IsSound :
      (s : Storage S) (lbls : List Label) (timestamp : ℤ) (value : V)
      → IsSound s
      → IsSound (insert xxhash get lib s lbls timestamp value).0
  unfolding insert
  insert-IsSound s lbls timestamp value w =
      elim (Option-cases (matches get s.config.targets lbls)) [
        | inl e ↦ rw (e, insert) w
        | inr (target, e) ↦ elim (Bool-cases (outside s lbls)) [
          | inl out ↦ rw (e, insert) (rw out w)
          | inr own ↦ elim (Option-cases (get_elem? s.partitions (local_index s lbls))) [
            | inl absent ↦ rw (e, insert) (rw own (rw absent w))
            | inr (ps, at) ↦
                rw (e, insert)
                  (rw own (
                    rw at (
                      insert_owned-IsSound lib s (local_index s lbls) ps lbls target timestamp value
                        w)))
          ]
        ]
      ]

  -- The storage after a row of inserts.
  abbrev pub insert_all : List (List Label × ℤ × V) → Storage S → Storage S
  insert_all [] s = s
  insert_all ((lbls, timestamp, value) ∷ rest) s =
      insert_all rest (insert xxhash get lib s lbls timestamp value).0

  pub insert_all-kept :
      (calls : List (List Label × ℤ × V)) (s : Storage S) → IsSound s → IsSound (insert_all calls s)
  insert_all-kept [] s w = w
  insert_all-kept ((lbls, timestamp, value) ∷ rest) s w =
      insert_all-kept rest (insert xxhash get lib s lbls timestamp value).0
        (insert-IsSound s lbls timestamp value w)

  -- After every row of inserts into a new storage, the memory counted is 65536 bytes for each series
  -- counted, in 64 bits, and within the limit if there is one, and there is one partition for each
  -- number of the node's range.
  pub insert_all-IsSound :
      (cfg : SketchConfig) (calls : List (List Label × ℤ × V))
      → IsSound (insert_all calls (new_storage lib cfg))
  unfolding new_storage
  insert_all-IsSound cfg calls =
      insert_all-kept calls (new_storage lib cfg) (record {
        accounted = omega arith;
        within = inr (omega arith);
        sized = length-replicate _ _;
      })
