-- ===== src/Storage/Examples.antt =====
-- Runs of a node's storage, where a partition is the number of its samples.
use prom_sketch_distributed.Cluster.Partition.{
  assign_range, assign_nodes, check_assigned, new_partition_mapper, get_primary_node,
  get_partition_id,
}
use prom_sketch_distributed.Common.{
  ◌+ℤ◌, ◌-ℤ◌, ℕ, ◌+◌, ◌-◌, ◌*◌, ◌≤◌, ◌≡◌, refl, ◌≢◌, ◌↔◌, inl, true, false, none, some, List, [],
  ◌∷◌, arith, ◌==◌, if◌then◌else◌, ℤ, pos, negsuc, ok, err,
}
use prom_sketch_distributed.Insert.Router.{Label}
use prom_sketch_distributed.Insert.Router.Examples.{
  node_a, node_b, mapper, sample_hash, first_label, up_labels,
}
use prom_sketch_distributed.Storage.{
  Sketches, SketchConfig, Storage, not_owned, new_partitioner, owned_end, new_storage,
  get_partition, insert,
}
use prom_sketch_distributed.Storage.Accounting.{IsSound, insert_all, insert_all-IsSound}
use prom_sketch_distributed.Storage.Spec.{
  node_config, outside, Implements, start_partitions, number, spec_all,
}
use prom_sketch_distributed.Storage.Runs.{Keeps}
use prom_sketch_distributed.Storage.Reading.{series_results, read_answer, look_up, eval_with_labels}
use prom_sketch_distributed.Storage.Refinement.{insert_all-Implements}
use prom_sketch_distributed.Storage.Sharding.{Feeds, fed_none, fed, missed}
use prom_sketch_distributed.Storage.Racing.{Race, RaceSteps, start_race, racing_limit}
use prom_sketch_distributed.Storage.Monolith.{reads-same}
use prom_sketch_distributed.Storage.Ownership.{NotOwned, insert-primary_iff}
use prom_sketch_distributed.Targets.{match_wildcard, matches_target, matches}

abbrev pub counting : Sketches ℕ ℕ
counting = record {
  new_prom_sketches = 0;
  print_coverage = λ ps ls f. if ps == 0 then (negsuc 0, negsuc 0) else (pos 0, pos 1);
  new_sketch_cache_instance = λ ps ls f window. (ps, none);
  sketch_insert = λ ps ls t v. (ps + 1, none);
  look_up = λ ps ls f mint maxt. true;
  eval_with_labels = λ ps f ls x mint maxt cur. ((ls, (maxt, ps) ∷ []) ∷ [], []);
}

-- The first of two nodes with two partitions each, with room for one series.
abbrev pub config_a : SketchConfig
config_a = record {
  num_partitions = pos 4;
  targets = match_wildcard (record { match = "*"; window_size = none }) ∷ [];
  default_window_size = pos 1800;
  memory_limit = 100_000;
  config_start = pos 0;
  config_end = pos 2;
}

abbrev calls : List (List Label × ℤ × ℕ)
calls = (up_labels, pos 1, 5) ∷ ([], pos 2, 6) ∷ ([], pos 3, 7) ∷ []

insert_all-IsSound_example :
    IsSound (insert_all sample_hash first_label counting calls (new_storage counting config_a))
insert_all-IsSound_example = insert_all-IsSound sample_hash first_label counting config_a calls

pub mapper_accepted : new_partition_mapper (pos 4) (node_a ∷ node_b ∷ []) ≡ ok mapper
unfolding new_partition_mapper assign_nodes assign_range check_assigned ◌+ℤ◌ ◌-ℤ◌
mapper_accepted = refl

wildcard_matches :
    matches first_label config_a.targets up_labels
    ≡ some (record { match = "*"; window_size = none })
unfolding matches matches_target
wildcard_matches = refl

-- The partition of `up` is the second node's, so the first node refuses it.
insert-primary_iff_example :
    NotOwned counting
      (insert sample_hash first_label counting
        (new_storage counting config_a)
        up_labels
        (pos 1)
        5).1
    ↔ (get_primary_node mapper
          (get_partition_id sample_hash mapper (first_label up_labels "__name__"))
        ≢ some node_a)
unfolding new_storage new_partitioner
insert-primary_iff_example =
    insert-primary_iff sample_hash first_label counting (pos 4) (node_a ∷ node_b ∷ []) mapper node_a
      (new_storage counting config_a) up_labels (pos 1) 5
      (record { match = "*"; window_size = none }) mapper_accepted (inl refl) refl refl refl
      wildcard_matches

replica_run :
    (insert sample_hash first_label counting (new_storage counting config_a) up_labels (pos 1) 5).1
    ≡ err (not_owned (pos 2) (pos 0) (pos 2))
unfolding insert new_storage new_partitioner get_partition matches matches_target
replica_run = refl

-- The configuration of a storage with all four partitions and no limit.
abbrev config_all : SketchConfig
config_all = record config_a { memory_limit = 0; config_end = pos 0 }

insert_all-Implements_example :
    Implements config_all
      (new_partitioner (pos 4))
      (pos 0)
      (owned_end config_all)
      (spec_all sample_hash first_label counting config_all
        (new_partitioner (pos 4))
        calls
        (start_partitions counting config_all))
      (insert_all sample_hash first_label counting calls (new_storage counting config_all))
insert_all-Implements_example =
    insert_all-Implements sample_hash first_label counting config_all calls refl

-- The node with the partitions 2 and 3 was given the first sample only.
part_fed :
    Feeds sample_hash first_label counting
      (new_partitioner (pos 4))
      (pos 2)
      (pos 4)
      ((up_labels, pos 1, 5) ∷ [])
      calls
unfolding new_partitioner
part_fed = fed _ (missed _ refl (missed _ refl fed_none))

up_inside :
    outside (pos 2) (pos 4) (number sample_hash first_label (new_partitioner (pos 4)) up_labels)
    ≡ false
unfolding new_partitioner
up_inside = refl

-- A run in which every sample counts twice.
abbrev counting_twice : Sketches ℕ ℕ
counting_twice = record counting { sketch_insert = λ ps ls t v. (ps + 2, none) }

abbrev Twice : ℕ → ℕ → Type 0
Twice s t = t ≡ 2 * s

counting-Keeps : Keeps Twice counting counting_twice
counting-Keeps = record {
  made = refl;
  covered = λ s t ls r. let same : (t == 0) ≡ (s == 0) = ground (arith, r) in rw same refl;
  created = λ s t ls f w r. r;
  inserted = λ s t ls x v r. omega (arith, r);
}

abbrev part_read : Storage ℕ
part_read =
    insert_all sample_hash first_label counting ((up_labels, pos 1, 5) ∷ [])
      (new_storage counting (node_config config_all (pos 2) (pos 4)))

abbrev whole_read : Storage ℕ
whole_read =
    insert_all sample_hash first_label counting_twice calls (new_storage counting_twice config_all)

reads-same_example :
    (s : ℕ) × (t : ℕ) × Twice s t
    × (look_up sample_hash first_label counting part_read up_labels "avg_over_time" (pos 0) (pos 9)
        ≡ some true)
    × (look_up sample_hash first_label counting_twice whole_read up_labels "avg_over_time"
          (pos 0)
          (pos 9)
        ≡ some true)
    × (eval_with_labels sample_hash first_label counting
          (λ ls. ls)
          part_read
          "avg_over_time"
          up_labels
          0
          (pos 0)
          (pos 9)
          (pos 9)
        ≡ some (ok (record { labels = up_labels; samples = (pos 9, s) ∷ [] } ∷ [])))
    × (eval_with_labels sample_hash first_label counting_twice
          (λ ls. ls)
          whole_read
          "avg_over_time"
          up_labels
          0
          (pos 0)
          (pos 9)
          (pos 9)
        ≡ some (ok (record { labels = up_labels; samples = (pos 9, t) ∷ [] } ∷ [])))
unfolding read_answer series_results
reads-same_example =
    reads-same Twice counting counting_twice sample_hash first_label (λ ls. ls) config_all (pos 2)
      (pos 4) ((up_labels, pos 1, 5) ∷ []) calls "avg_over_time" up_labels 0 (pos 0) (pos 9) (pos 9)
      counting-Keeps refl refl refl refl part_fed up_inside

racing_limit_example :
    ((r : Race) → RaceSteps (start_race 3 0 65536) r → r.used ≤ 65536 + (3 - 1) * 65536)
    × RaceSteps (start_race 3 0 65536) (start_race 0 (65536 + (3 - 1) * 65536) 65536)
racing_limit_example =
    racing_limit 3 65536 0 (omega arith) (omega arith) (omega arith) (omega arith)
