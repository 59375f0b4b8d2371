-- ===== src/Server/Examples.antt =====
-- Runs of the handlers of two nodes, and of the router in front of them.
use prom_sketch_distributed.Common.{
  ℕ, ◌+◌, String, ◌≡◌, refl, ◌↔◌, inl, inr, true, none, some, List, [], ◌∷◌, arith, str_eq,
  if◌then◌else◌, length, Elem, pos, ok, is_ok,
}
use prom_sketch_distributed.Cluster.Partition.{Node, get_primary_node, get_partition_id}
use prom_sketch_distributed.Insert.Router.{Router}
use prom_sketch_distributed.Insert.Batch.{TimeSeries}
use prom_sketch_distributed.Insert.Router.Quorum.{targets_of}
use prom_sketch_distributed.Insert.Router.Examples.{
  node_a, node_b, mapper, sample_router, sample_hash, first_label, up_labels,
}
use prom_sketch_distributed.Targets.{matches_target, matches}
use prom_sketch_distributed.Storage.{Storage, StorageError, new_partitioner, new_storage}
use prom_sketch_distributed.Storage.Spec.{node_config}
use prom_sketch_distributed.Storage.Accounting.{insert_all, insert_all-IsSound}
use prom_sketch_distributed.Storage.Examples.{counting, config_a, mapper_accepted}
use prom_sketch_distributed.Server.{
  SketchServer, BatchInsertResponse, new_sketch_server, handle_batch_insert,
}
use prom_sketch_distributed.Storage.Rows.{taken}
use prom_sketch_distributed.Server.Batches.{calls_of, handle_batch_insert-insert_all}
use prom_sketch_distributed.Server.Cluster.{Serves, rpc, insert-primary_only}
use prom_sketch_distributed.Storage
use prom_sketch_distributed.Insert.Router
use mathlib.Core.List.Perm

abbrev pub no_text : StorageError → String
no_text e = "refused"

abbrev server_of : Node → SketchServer ℕ
unfolding new_sketch_server
server_of n =
    new_sketch_server
      (new_storage counting (node_config config_a n.partition_start n.partition_end))
      (record { id = n.id; range_start = n.partition_start; range_end = n.partition_end })

abbrev pub servers : String → SketchServer ℕ
unfolding server_of
servers id = if str_eq id "a" then server_of node_a else server_of node_b

abbrev batch : List (TimeSeries ℕ)
batch =
    record { labels = up_labels; samples = record { timestamp = pos 1; sample_value = 5 } ∷ [] }
    ∷ record { labels = []; samples = record { timestamp = pos 2; sample_value = 6 } ∷ [] }
    ∷ []

handle_batch_insert-insert_all_example :
    (response : BatchInsertResponse) × (handle_batch_insert sample_hash first_label counting
        (λ ls. ls)
        no_text
        (server_of node_a)
        batch
      ≡ some (
        record (server_of node_a) {
          storage =
              insert_all sample_hash first_label counting
                (calls_of (λ ls. ls) batch)
                (server_of node_a).storage;
        },
        response,
      ))
    × (response.inserted
        ≡ taken sample_hash first_label counting
            (calls_of (λ ls. ls) batch)
            (server_of node_a).storage)
    × (response.inserted + response.failed ≡ length (calls_of (λ ls. ls) batch))
    × ((response.failed_text ≡ none) ↔ (response.failed ≡ 0))
unfolding server_of new_sketch_server
handle_batch_insert-insert_all_example =
    handle_batch_insert-insert_all sample_hash first_label counting (λ ls. ls) no_text
      (server_of node_a) batch
      (insert_all-IsSound sample_hash first_label counting (node_config config_a (pos 0) (pos 2))
        [])

node_a-Serves : Serves first_label mapper node_a up_labels (servers "a")
unfolding new_storage new_partitioner matches matches_target servers server_of new_sketch_server
node_a-Serves = record {
  hashed = refl;
  starts = refl;
  ends = refl;
  target = record { match = "*"; window_size = none };
  matched = refl;
}

node_b-Serves : Serves first_label mapper node_b up_labels (servers "b")
unfolding new_storage new_partitioner matches matches_target servers server_of new_sketch_server
node_b-Serves = record {
  hashed = refl;
  starts = refl;
  ends = refl;
  target = record { match = "*"; window_size = none };
  matched = refl;
}

pub nodes-Serves :
    (n : Node)
    → Elem n (node_a ∷ node_b ∷ [])
    → Serves first_label mapper n up_labels (servers n.id)
nodes-Serves n (inl e) = rw e node_a-Serves
nodes-Serves n (inr (inl e)) = rw e node_b-Serves
nodes-Serves n (inr (inr m)) = absurd m

insert-primary_only_example :
    (is_ok
        (Router.insert sample_hash first_label
          (λ _. 7)
          (λ _. 8)
          (λ ids. ids)
          (rpc sample_hash first_label counting (λ ls. ls) no_text "lost" servers)
          sample_router
          up_labels
          (pos 1)
          5).1
      ≡ true)
    ↔ ((n : Node) × (get_primary_node mapper
            (get_partition_id sample_hash mapper (first_label up_labels "__name__"))
          ≡ some n)
        × Elem n.id (targets_of sample_hash first_label (λ _. 7) sample_router up_labels)
        × ((Storage.insert sample_hash first_label counting
              (servers n.id).storage
              up_labels
              (pos 1)
              5).1
            ≡ ok tt))
insert-primary_only_example =
    insert-primary_only sample_hash first_label counting (λ ls. ls) no_text "lost" servers (λ _. 7)
      (λ _. 8) (λ ids. ids) (λ ids. Perm.refl ids) (pos 4) (node_a ∷ node_b ∷ []) sample_router
      up_labels (pos 1) 5 (omega arith) mapper_accepted (λ ls. refl) nodes-Serves
