-- ===== src/Storage/Spec.antt =====
-- What storage.go promises without a memory limit: every partition is a value of the PromSketch
-- library that the samples of its metrics go into, one after the other, whatever node holds it.
use prom_sketch_distributed.Common.{
  ◌-ℤ◌, ℕ, ◌%◌, String, ◌≡◌, Bool, false, ◌||◌, Option, none, some, List, [], ◌∷◌, ◌==◌,
  if◌then◌else◌, get_elem?, ℤ, pos, pos_part, ltb_ℤ, leb_ℤ, Result, ok, err,
}
use prom_sketch_distributed.Cluster.Partition.{to_uint64}
use prom_sketch_distributed.Insert.Router.{Label}
use prom_sketch_distributed.Targets.{SketchTarget, matches}
use prom_sketch_distributed.Storage.{
  Sketches, SketchConfig, Storage, StorageError, insert_failed, has_sketch_instance,
  create_sketch_instance,
}

abbrev pub verdict_of : Option String → Result StorageError (Unit {0})
verdict_of none = ok tt
verdict_of (some e) = err (insert_failed e)

-- The configuration of a node with this range of the partitions.
abbrev pub node_config : SketchConfig → ℤ → ℤ → SketchConfig
node_config cfg a b = record cfg { config_start = a; config_end = b }

-- Whether the range from `a` to `b` leaves a partition out.
abbrev pub outside : ℤ → ℤ → ℕ → Bool
outside a b k = ltb_ℤ (pos k) a || leb_ℤ b (pos k)

-- All partitions of the cluster, as a function of their number.
abbrev pub Partitions : Type 0 → Type 0
Partitions S = ℕ → S

abbrev pub update : {S : Type 0} → ℕ → S → Partitions S → Partitions S
update k x f j = if j == k then x else f j

-- A storage with the range from `a` to `b` that holds these partitions and has no memory limit.
pub record Implements {S : Type 0} (cfg : SketchConfig) (hashed a b : ℤ) (f : Partitions S)
    (s : Storage S) : Type 0 where
  pub configured : s.config ≡ cfg
  pub same_hash : s.num_hashed ≡ hashed
  pub unlimited : s.memory_limit ≡ 0
  pub starts : s.partition_start ≡ a
  pub ends : s.partition_end ≡ b
  pub held :
      (k : ℕ) → outside a b k ≡ false → get_elem? s.partitions (pos_part (pos k -ℤ a)) ≡ some (f k)

module _ {S V : Type 0} (lib : Sketches S V) (cfg : SketchConfig) where
  -- A sample in the sketches of a partition, whose instance is created first where it is missing.
  unfoldable pub stored : SketchTarget → S → List Label → ℤ → V → S × Option String
  stored target ps lbls timestamp value =
      (lib.sketch_insert)
        (if has_sketch_instance lib ps lbls
          then ps
          else create_sketch_instance lib cfg ps lbls target)
        lbls timestamp value

  abbrev pub start_partitions : Partitions S
  start_partitions k = lib.new_prom_sketches

-- The number of a sample's partition.
abbrev pub number : (String → ℕ) → (List Label → String → String) → ℤ → List Label → ℕ
number xxhash get hashed lbls = xxhash (get lbls "__name__") % to_uint64 hashed

module _ {S V : Type 0} (xxhash : String → ℕ) (get : List Label → String → String)
    (lib : Sketches S V) (cfg : SketchConfig) (hashed : ℤ) where
  unfoldable pub spec_insert : List Label × ℤ × V → Partitions S → Partitions S
  spec_insert (lbls, timestamp, value) f =
      let k = number xxhash get hashed lbls in
      elim (matches get cfg.targets lbls) [
        | none ↦ f
        | some target ↦ update k (stored lib cfg target (f k) lbls timestamp value).0 f
      ]

  unfoldable pub spec_verdict : List Label × ℤ × V → Partitions S → Result StorageError (Unit {0})
  spec_verdict (lbls, timestamp, value) f =
      let k = number xxhash get hashed lbls in
      elim (matches get cfg.targets lbls) [
        | none ↦ ok tt
        | some target ↦ verdict_of (stored lib cfg target (f k) lbls timestamp value).1
      ]

  abbrev pub spec_all : List (List Label × ℤ × V) → Partitions S → Partitions S
  spec_all [] f = f
  spec_all (call ∷ calls) f = spec_all calls (spec_insert call f)
