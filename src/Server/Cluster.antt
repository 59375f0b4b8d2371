-- ===== src/Server/Cluster.antt =====
-- router.go in front of grpc.go: an insert that the router sends to the nodes of its mapper. gRPC
-- hands a response on as it is, and an end of the node as an error with the text `lost`.
use prom_sketch_distributed.Common.{
  ℕ, String, ◌≡◌, refl, ap, ◌↔◌, inl, inr, true, Option, none, some, List, [], ◌∷◌, if◌then◌else◌,
  Bool-cases, clash, Elem, ℤ, Result, ok, err, is_ok,
}
use prom_sketch_distributed.Cluster.Partition.{
  Node, owns_partition, PartitionMapper, new_partition_mapper, get_primary_node, get_partition_id,
}
use prom_sketch_distributed.Cluster.Partition.Placement.{get_primary_node_iff}
use prom_sketch_distributed.Insert.Router.Quorum.{IsWord, targets_of, insert_quorum}
use prom_sketch_distributed.Insert.Router.Nodes.{Elem-targets_of}
use prom_sketch_distributed.Insert.Router.{
  Label, Router, Reply, rpc_error, not_stored, stored, to_pb_labels,
}
use prom_sketch_distributed.Targets.{SketchTarget, matches}
use prom_sketch_distributed.Storage.{
  Sketches, Storage, StorageError, not_owned, memory_limit_exceeded, insert_failed, eval_failed,
  index_out_of_range,
}
use prom_sketch_distributed.Storage.Ownership.{insert-primary_iff}
use prom_sketch_distributed.Server.{
  SketchServer, InsertResponse, copy_labels, pb_labels_to_prom_labels, respond, handle_insert,
}
use prom_sketch_distributed.Storage
use prom_sketch_distributed.Insert.Router
use mathlib.Core.List.{Perm}

abbrev pub reply_of : String → Option InsertResponse → Reply
reply_of lost none = rpc_error lost
reply_of lost (some r) = if r.success then stored else not_stored r.error

stored_iff :
    (lost : String) (error_text : StorageError → String) (v : Result StorageError (Unit {0}))
    → (reply_of lost (respond error_text v) ≡ stored) ↔ (v ≡ ok tt)
unfolding respond
stored_iff lost error_text (ok tt) = (λ h. refl, λ h. refl)
stored_iff lost error_text (err index_out_of_range) = (λ h. cc, λ h. cc)
stored_iff lost error_text (err (not_owned p start end)) = (λ h. cc, λ h. cc)
stored_iff lost error_text (err (memory_limit_exceeded used limit)) = (λ h. cc, λ h. cc)
stored_iff lost error_text (err (insert_failed e)) = (λ h. cc, λ h. cc)
stored_iff lost error_text (err (eval_failed f e)) = (λ h. cc, λ h. cc)

accepted_owned :
    (v : Result StorageError (Unit {0}))
    → v ≡ ok tt
    → ¬ ((p start end : ℤ) × (v ≡ err (not_owned p start end)))
accepted_owned v h (p, start, end, e) = cc

same_labels : (ls : List Label) → copy_labels (to_pb_labels ls) ≡ ls
unfolding copy_labels to_pb_labels
same_labels [] = refl
same_labels (l ∷ ls) = ap (λ rest. l ∷ rest) (same_labels ls)

-- A server that runs with the settings of a node of the mapper, and a target for the sample.
pub record Serves {S : Type 0} (get : List Label → String → String) (pm : PartitionMapper)
    (n : Node) (lbls : List Label) (s : SketchServer S) : Type 0 where
  pub hashed : s.storage.num_hashed ≡ pm.total_partitions
  pub starts : s.storage.partition_start ≡ n.partition_start
  pub ends : s.storage.partition_end ≡ n.partition_end
  pub target : SketchTarget
  pub matched : matches get s.storage.config.targets lbls ≡ some target

module _ {S V : Type 0} (xxhash : String → ℕ) (get : List Label → String → String)
    (lib : Sketches S V) (new_labels : List Label → List Label) (error_text : StorageError → String)
    (lost : String) (servers : String → SketchServer S) where
  -- What the router hears from a node.
  abbrev pub rpc : String → List Label → ℤ → V → Reply
  rpc id pb_labels timestamp value =
      reply_of lost
        (handle_insert xxhash get lib new_labels error_text (servers id) pb_labels timestamp
          value).1

  module _ (asked finished : String → ℕ) (schedule : List String → List String)
      (is_schedule : (ids : List String) → Perm (schedule ids) ids) (total : ℤ) (nodes : List Node)
      (r : Router) (lbls : List Label) (timestamp : ℤ) (value : V) (words : IsWord r.metrics)
      (made : new_partition_mapper total nodes ≡ ok r.partitioner)
      (keeps_name : (ls : List Label) → get (new_labels ls) "__name__" ≡ get ls "__name__")
      (serves : (n : Node)
        → Elem n nodes
        → Serves get r.partitioner n (new_labels lbls) (servers n.id)) where
    abbrev partition : ℤ
    partition = get_partition_id xxhash r.partitioner (get lbls "__name__")

    rpc-stored :
        (id : String)
        → (rpc id (to_pb_labels lbls) timestamp value ≡ stored) ↔ (
            (Storage.insert xxhash get lib (servers id).storage (new_labels lbls) timestamp value).1
            ≡ ok tt)
    unfolding handle_insert pb_labels_to_prom_labels
    rpc-stored id = rw (same_labels lbls) (
        stored_iff lost error_text
          (Storage.insert xxhash get lib (servers id).storage (new_labels lbls) timestamp value).1)

    taken-primary :
        (n : Node)
        → Elem n nodes
        → (Storage.insert xxhash get lib (servers n.id).storage (new_labels lbls) timestamp value).1
          ≡ ok tt
        → get_primary_node r.partitioner partition ≡ some n
    taken-primary n member h =
        let w = serves n member in
        let primary = get_primary_node_iff total nodes r.partitioner made partition n in
        elim (Bool-cases (owns_partition n partition)) [
          | inl own ↦ primary.1 (member, own)
          | inr beyond ↦
              let refused =
                (insert-primary_iff xxhash get lib total nodes r.partitioner n
                  (servers n.id).storage (new_labels lbls) timestamp value w.target made member
                  w.hashed w.starts w.ends w.matched).1 in
              let (p, start, end, e) =
                refused (λ own. clash _ (primary.0 (rw (keeps_name lbls) at own)).1 beyond) in
              absurd (accepted_owned _ h (p, start, end, e))
        ]

    -- In a cluster whose storages have the ranges of an accepted mapper's nodes, and a target for the
    -- sample, an insert succeeds exactly when the primary node of the sample's partition is among the
    -- nodes that it is sent to and its storage takes the sample; the replicas change nothing.
    pub insert-primary_only :
        (is_ok (Router.insert xxhash get asked finished schedule rpc r lbls timestamp value).1
          ≡ true)
        ↔ ((n : Node) × (get_primary_node r.partitioner partition ≡ some n)
            × Elem n.id (targets_of xxhash get asked r lbls)
            × ((Storage.insert xxhash get lib
                  (servers n.id).storage
                  (new_labels lbls)
                  timestamp
                  value).1
                ≡ ok tt))
    insert-primary_only =
        let quorum =
          insert_quorum xxhash get asked finished schedule is_schedule rpc r lbls timestamp value
            words in
        (
          λ h.
              let (id, sent, good) = quorum.0 h in
              let (n, member, same) =
                Elem-targets_of xxhash get asked r lbls id total nodes made sent in
              let took = rw same at ((rpc-stored id).0 good) in
              (n, taken-primary n member took, rw same at sent, took),
          λ (n, owned, sent, took). quorum.1 (n.id, sent, (rpc-stored n.id).1 took),
        )
