-- ===== src/Startup/Serving.antt =====
-- The insert router right after its start, in front of the nodes' servers.
use prom_sketch_distributed.Common.{
  ℕ, String, ◌≡◌, subst, ◌↔◌, true, Option, some, List, arith, Elem, ℤ, ok, is_ok,
}
use prom_sketch_distributed.Cluster.Partition.{
  Node, new_partition_mapper, get_primary_node, get_partition_id,
}
use prom_sketch_distributed.Insert.Router.{Label, Router, new_router}
use prom_sketch_distributed.Insert.Router.Quorum.{IsWord}
use prom_sketch_distributed.Storage.{Sketches, Storage, StorageError}
use prom_sketch_distributed.Server.{SketchServer}
use prom_sketch_distributed.Server.Cluster.{Serves, rpc, insert-primary_only}
use prom_sketch_distributed.Startup.{ClusterConfig, to_hash_nodes, assemble, start_router}
use prom_sketch_distributed.Startup.Fresh.{Started, start_router-Started, start_router-primary}
use prom_sketch_distributed.Storage
use prom_sketch_distributed.Insert.Router
use mathlib.Core.List.{Perm}

fresh_words :
    (connect : String → Option String) (c : ClusterConfig) (r : Router)
    → Started connect c r
    → (w : new_partition_mapper c.total_partitions (to_hash_nodes c) ≡ ok r.partitioner) × IsWord
        r.metrics
unfolding assemble new_router
fresh_words connect c r w =
    subst
      (λ x.
        (w : new_partition_mapper c.total_partitions (to_hash_nodes c) ≡ ok x.partitioner) × IsWord
          x.metrics)
      w.made (w.mapped, omega arith)

-- In a cluster whose storages have the ranges of the configured nodes, and a target for the sample,
-- an insert by a router right after its start succeeds exactly when the primary node of the sample's
-- partition takes the sample into its storage, whatever the replication factor.
pub start_router-insert :
    {S V : Type 0} (xxhash : String → ℕ) (get : List Label → String → String) (lib : Sketches S V)
    (new_labels : List Label → List Label) (error_text : StorageError → String) (lost : String)
    (servers : String → SketchServer S) (asked finished : String → ℕ)
    (schedule : List String → List String) (connect : String → Option String) (c : ClusterConfig)
    (r : Router) (lbls : List Label) (timestamp : ℤ) (value : V)
    → ((ids : List String) → Perm (schedule ids) ids)
    → start_router connect c ≡ ok r
    → ((ls : List Label) → get (new_labels ls) "__name__" ≡ get ls "__name__")
    → ((n : Node)
        → Elem n (to_hash_nodes c)
        → Serves get r.partitioner n (new_labels lbls) (servers n.id))
    → (is_ok
          (Router.insert xxhash get asked finished schedule
            (rpc xxhash get lib new_labels error_text lost servers)
            r
            lbls
            timestamp
            value).1
        ≡ true)
      ↔ ((n : Node) × (get_primary_node r.partitioner
              (get_partition_id xxhash r.partitioner (get lbls "__name__"))
            ≡ some n)
          × ((Storage.insert xxhash get lib
                (servers n.id).storage
                (new_labels lbls)
                timestamp
                value).1
              ≡ ok tt))
start_router-insert xxhash get lib new_labels error_text lost servers asked finished schedule
      connect c r lbls timestamp value is_schedule e keeps_name serves =
    let (made, words) = fresh_words connect c r (start_router-Started connect c r e) in
    let taken =
      insert-primary_only xxhash get lib new_labels error_text lost servers asked finished schedule
        is_schedule c.total_partitions (to_hash_nodes c) r lbls timestamp value words made
        keeps_name serves in
    let (primary, owned, sent) = start_router-primary xxhash get asked connect c r lbls e in
    (
      λ h. let (n, own, _, took) = taken.0 h in (n, own, took),
      λ (n, own, took). let same : n ≡ primary = cc in taken.1 (n, own, rw same sent, took),
    )
