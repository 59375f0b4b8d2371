-- ===== src/Storage/Ownership.antt =====
-- storage.go behind partitioner.go: which nodes accept a sample that the cluster sends them, and when
-- a new series is refused.
use prom_sketch_distributed.Common.{
  ◌-ℤ◌, ℕ, String, ◌≡◌, refl, ◌≢◌, ◌↔◌, inl, inr, true, false, ◌&&◌, ◌||◌, some, List, arith, ltb,
  Bool-cases, Option-cases, clash, get_elem?, Elem, ℤ, pos_part, ltb_ℤ, leb_ℤ, Result, ok, err,
  add_uint64,
}
use prom_sketch_distributed.Cluster.Partition.{
  Node, owns_partition, PartitionMapper, new_partition_mapper, get_primary_node, get_partition_id,
}
use prom_sketch_distributed.Cluster.Partition.Placement.{get_primary_node_iff}
use prom_sketch_distributed.Insert.Router.{Label}
use prom_sketch_distributed.Storage.{
  Sketches, Storage, StorageError, not_owned, memory_limit_exceeded, insert_failed,
  index_out_of_range, estimated_bytes_per_series, has_sketch_instance, insert_sample, insert_owned,
  get_partition, insert,
}
use prom_sketch_distributed.Targets.{SketchTarget, matches}

module _ {S V : Type 0} (lib : Sketches S V) where
  abbrev pub Verdict : Type 0
  Verdict = Result StorageError (Unit {0})

  abbrev pub NotOwned : Verdict → Type 0
  NotOwned r = (p start end : ℤ) × (r ≡ err (not_owned p start end))

  insert_sample-NotOwned :
      (s : Storage S) (i : ℕ) (ps : S) (lbls : List Label) (timestamp : ℤ) (value : V)
      → ¬ NotOwned (insert_sample lib s i ps lbls timestamp value).1
  unfolding insert_sample
  insert_sample-NotOwned s i ps lbls timestamp value (p, start, end, h) =
      elim (Option-cases ((lib.sketch_insert) ps lbls timestamp value).1) [
        | inl e ↦
            let h' : ◌≡◌ {A = Verdict} (ok tt) (err (not_owned p start end)) =
              rw (e, insert_sample) at h in
            cc
        | inr (x, e) ↦
            let h' : ◌≡◌ {A = Verdict} (err (insert_failed x)) (err (not_owned p start end)) =
              rw (e, insert_sample) at h in
            cc
      ]

  insert_owned-NotOwned :
      (s : Storage S) (i : ℕ) (ps : S) (lbls : List Label) (target : SketchTarget) (timestamp : ℤ)
      (value : V)
      → ¬ NotOwned (insert_owned lib s i ps lbls target timestamp value).1
  unfolding insert_owned
  insert_owned-NotOwned s i ps lbls target timestamp value (p, start, end, h) =
      let used = add_uint64 s.memory_used estimated_bytes_per_series in
      elim (Bool-cases (has_sketch_instance lib ps lbls)) [
        | inl there ↦
            insert_sample-NotOwned s i ps lbls timestamp value
              (p, start, end, rw (there, insert_owned) at h)
        | inr new ↦ elim (Bool-cases (ltb 0 s.memory_limit && ltb s.memory_limit used)) [
          | inl full ↦
              let h' : ◌≡◌ {A = Verdict} (err (memory_limit_exceeded s.memory_used s.memory_limit))
                  (err (not_owned p start end)) =
                rw full at (rw (new, insert_owned) at h) in
              cc
          | inr room ↦
              insert_sample-NotOwned _ i _ lbls timestamp value
                (p, start, end, rw room at (rw (new, insert_owned) at h))
        ]
      ]

outside_iff : (p a b : ℤ) → (ltb_ℤ p a || leb_ℤ b p ≡ true) ↔ ((leb_ℤ a p && ltb_ℤ p b) ≢ true)
outside_iff p a b = ground arith

module _ {S V : Type 0} (xxhash : String → ℕ) (get : List Label → String → String)
    (lib : Sketches S V) where
  inside_kept :
      (s : Storage S) (lbls : List Label) (timestamp : ℤ) (value : V) (target : SketchTarget)
      → matches get s.config.targets lbls ≡ some target
      → ltb_ℤ (get_partition xxhash get s.num_hashed lbls) s.partition_start
          || leb_ℤ s.partition_end (get_partition xxhash get s.num_hashed lbls)
        ≡ false
      → ¬ NotOwned lib (insert xxhash get lib s lbls timestamp value).1
  unfolding insert
  inside_kept s lbls timestamp value target e own (p, start, end, h) =
      let i = pos_part (get_partition xxhash get s.num_hashed lbls -ℤ s.partition_start) in
      elim (Option-cases (get_elem? s.partitions i)) [
        | inl absent ↦
            let h' : ◌≡◌ {A = Verdict lib} (err index_out_of_range) (err (not_owned p start end)) =
              rw absent at (rw own at (rw (e, insert) at h)) in
            cc
        | inr (ps, at) ↦
            insert_owned-NotOwned lib s i ps lbls target timestamp value
              (p, start, end, rw at at (rw own at (rw (e, insert) at h)))
      ]

  outside_refused :
      (s : Storage S) (lbls : List Label) (timestamp : ℤ) (value : V) (target : SketchTarget)
      → matches get s.config.targets lbls ≡ some target
      → NotOwned lib (insert xxhash get lib s lbls timestamp value).1 ↔ (
          ltb_ℤ (get_partition xxhash get s.num_hashed lbls) s.partition_start
            || leb_ℤ s.partition_end (get_partition xxhash get s.num_hashed lbls)
          ≡ true)
  unfolding insert
  outside_refused s lbls timestamp value target e =
      let p = get_partition xxhash get s.num_hashed lbls in
      elim (Bool-cases (ltb_ℤ p s.partition_start || leb_ℤ s.partition_end p)) [
        | inl out ↦
            (λ h. out, λ h. (p, s.partition_start, s.partition_end, rw (e, insert) (rw out refl)))
        | inr own ↦ (
          λ h. absurd (inside_kept s lbls timestamp value target e own h),
          λ h. absurd (clash _ h own),
        )
      ]

  same_partition :
      (pm : PartitionMapper) (num_hashed : ℤ) (lbls : List Label)
      → num_hashed ≡ pm.total_partitions
      → get_partition xxhash get num_hashed lbls ≡ get_partition_id xxhash pm (get lbls "__name__")
  unfolding get_partition get_partition_id
  same_partition pm num_hashed lbls hashed = rw hashed refl

  -- A storage with the range of one of the nodes of an accepted mapper, and with as many partitions
  -- in all, refuses a sample of a configured target as not owned exactly when the node is not the
  -- primary node of the sample's partition.
  pub insert-primary_iff :
      (total : ℤ) (nodes : List Node) (pm : PartitionMapper) (n : Node) (s : Storage S)
      (lbls : List Label) (timestamp : ℤ) (value : V) (target : SketchTarget)
      → new_partition_mapper total nodes ≡ ok pm
      → Elem n nodes
      → s.num_hashed ≡ pm.total_partitions
      → s.partition_start ≡ n.partition_start
      → s.partition_end ≡ n.partition_end
      → matches get s.config.targets lbls ≡ some target
      → NotOwned lib (insert xxhash get lib s lbls timestamp value).1
        ↔ (get_primary_node pm (get_partition_id xxhash pm (get lbls "__name__")) ≢ some n)
  unfolding owns_partition
  insert-primary_iff total nodes pm n s lbls timestamp value target made member hashed start end
        matched =
      let p = get_partition_id xxhash pm (get lbls "__name__") in
      let same = same_partition pm s.num_hashed lbls hashed in
      let refused = outside_refused s lbls timestamp value target matched in
      let beyond = outside_iff p n.partition_start n.partition_end in
      let primary = get_primary_node_iff total nodes pm made p n in
      (
        λ h own. beyond.0 (rw (same, start, end) at (refused.0 h)) ((primary.0 own).1),
        λ h. refused.1 (rw (same, start, end) (beyond.1 (λ own. h (primary.1 (member, own))))),
      )
