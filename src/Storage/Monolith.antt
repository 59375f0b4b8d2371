-- ===== src/Storage/Monolith.antt =====
-- storage.go on one node of a cluster gives the answers of a storage that owns every partition.
use prom_sketch_distributed.Common.{
  ℕ, zero, suc, ◌%◌, ◌<◌, String, ◌≡◌, refl, sym, subst, true, false, some, List, arith, ℤ, pos,
  negsuc, ltb_ℤ,
}
use prom_sketch_distributed.Cluster.Partition.{to_uint64}
use prom_sketch_distributed.Insert.Router.{Label}
use prom_sketch_distributed.Storage.{
  Sketches, SketchConfig, Storage, new_partitioner, owned_end, new_storage,
}
use prom_sketch_distributed.Storage.Spec.{
  node_config, outside, Partitions, Implements, start_partitions, number, spec_all,
}
use prom_sketch_distributed.Storage.Reading.{read_answer, look_up, eval_with_labels}
use prom_sketch_distributed.Storage.Refinement.{insert_all-Implements}
use prom_sketch_distributed.Storage.Runs.{Keeps, all-kept}
use prom_sketch_distributed.Storage.Sharding.{
  look_up-Implements, eval_with_labels-Implements, Feeds, spec_all-Feeds, spec_all-node,
}
use prom_sketch_distributed.Storage.Accounting.{insert_all}

whole_range :
    (n : ℤ) (h : ℕ)
    → ltb_ℤ (pos 0) n ≡ true
    → outside (pos 0) n (h % to_uint64 (new_partitioner n)) ≡ false
unfolding new_partitioner
whole_range (pos zero) h positive = absurd (ground (arith, positive))
whole_range (pos (suc n)) h positive =
    let same : new_partitioner (pos (suc n)) ≡ pos (suc n) = ground arith in
    let below : h % suc n < suc n = omega arith in rw same (ground (arith, below))
whole_range (negsuc n) h positive = absurd (ground (arith, positive))

node_end :
    (cfg : SketchConfig) (a b : ℤ) (k : ℕ)
    → outside a b k ≡ false
    → owned_end (node_config cfg a b) ≡ b
node_end cfg a b k inside = ground (arith, inside)

same_range :
    {S : Type 0} (cfg : SketchConfig) (hashed : ℤ) (f : Partitions S) (s : Storage S)
    {a b a' b' : ℤ}
    → a ≡ a'
    → b ≡ b'
    → Implements cfg hashed a b f s
    → Implements cfg hashed a' b' f s
same_range cfg hashed f s p q w = rw (sym p, sym q) w

module _ {S V : Type 0} (xxhash : String → ℕ) (get : List Label → String → String)
    (lib : Sketches S V) where
  node-Implements :
      (cfg : SketchConfig) (a b : ℤ) (calls : List (List Label × ℤ × V)) (k : ℕ)
      → cfg.memory_limit ≡ 0
      → outside a b k ≡ false
      → Implements
          (node_config cfg a b)
          (new_partitioner cfg.num_partitions)
          a
          b
          (spec_all xxhash get lib cfg
            (new_partitioner cfg.num_partitions)
            calls
            (start_partitions lib cfg))
          (insert_all xxhash get lib calls (new_storage lib (node_config cfg a b)))
  node-Implements cfg a b calls k unlimited inside =
      rw (node_end cfg a b k inside, spec_all-node xxhash get lib cfg a b _ calls _) at
        (insert_all-Implements xxhash get lib (node_config cfg a b) calls unlimited)

  all-Implements :
      (cfg : SketchConfig) (calls : List (List Label × ℤ × V))
      → cfg.memory_limit ≡ 0
      → cfg.config_start ≡ pos 0
      → cfg.config_end ≡ pos 0
      → Implements cfg
          (new_partitioner cfg.num_partitions)
          (pos 0)
          cfg.num_partitions
          (spec_all xxhash get lib cfg
            (new_partitioner cfg.num_partitions)
            calls
            (start_partitions lib cfg))
          (insert_all xxhash get lib calls (new_storage lib cfg))
  all-Implements cfg calls unlimited start end =
      let ends : owned_end cfg ≡ cfg.num_partitions = rw (start, end) refl in
      same_range cfg _ _ _ start ends (insert_all-Implements xxhash get lib cfg calls unlimited)

-- Without a memory limit, a storage with one range of the partitions, which was given at least the
-- samples of its partitions, in the order in which they came, and the storage that owns all of a
-- positive number of partitions and was given all samples, each answer LookUp and EvalWithLabels for
-- a metric of the first one's partitions with the library's answer on one partition. These two are
-- related by every relation that the two runs of the library keep, each with its own random numbers,
-- and that goes with the same coverage.
pub reads-same :
    {S T V : Type 0} (R : S → T → Type 0) (mine : Sketches S V) (theirs : Sketches T V)
    (xxhash : String → ℕ) (get : List Label → String → String)
    (new_labels : List Label → List Label) (cfg : SketchConfig) (a b : ℤ)
    (ours all : List (List Label × ℤ × V)) (func_name : String) (lbls : List Label) (other_args : V)
    (mint maxt cur_time : ℤ)
    → Keeps R mine theirs
    → cfg.memory_limit ≡ 0
    → cfg.config_start ≡ pos 0
    → cfg.config_end ≡ pos 0
    → ltb_ℤ (pos 0) cfg.num_partitions ≡ true
    → Feeds xxhash get mine (new_partitioner cfg.num_partitions) a b ours all
    → outside a b (number xxhash get (new_partitioner cfg.num_partitions) lbls) ≡ false
    → let part = insert_all xxhash get mine ours (new_storage mine (node_config cfg a b)) in
      let whole = insert_all xxhash get theirs all (new_storage theirs cfg) in
      (s : S) × (t : T) × R s t
      × (look_up xxhash get mine part lbls func_name mint maxt
          ≡ some ((mine.look_up) s lbls func_name mint maxt))
      × (look_up xxhash get theirs whole lbls func_name mint maxt
          ≡ some ((theirs.look_up) t lbls func_name mint maxt))
      × (eval_with_labels xxhash get mine new_labels part func_name lbls other_args mint maxt
            cur_time
          ≡ some (
              read_answer new_labels func_name
                ((mine.eval_with_labels) s func_name lbls other_args mint maxt cur_time)))
      × (eval_with_labels xxhash get theirs new_labels whole func_name lbls other_args mint maxt
            cur_time
          ≡ some (
              read_answer new_labels func_name
                ((theirs.eval_with_labels) t func_name lbls other_args mint maxt cur_time)))
reads-same R mine theirs xxhash get new_labels cfg a b ours all func_name lbls other_args mint maxt
      cur_time keeps unlimited start end positive feeds inside =
    let hashed = new_partitioner cfg.num_partitions in
    let k = number xxhash get hashed lbls in
    let part = node-Implements xxhash get mine cfg a b ours k unlimited inside in
    let whole = all-Implements xxhash get theirs cfg all unlimited start end in
    let inside' = whole_range cfg.num_partitions (xxhash (get lbls "__name__")) positive in
    let same =
      spec_all-Feeds xxhash get mine cfg hashed a b feeds (start_partitions mine cfg)
        (start_partitions mine cfg) (λ j h. refl) k inside in
    let kept =
      all-kept R mine theirs keeps xxhash get cfg hashed all (start_partitions mine cfg)
        (start_partitions theirs cfg) (λ j. keeps.made) k in
    (
      spec_all xxhash get mine cfg hashed ours (start_partitions mine cfg) k,
      spec_all xxhash get theirs cfg hashed all (start_partitions theirs cfg) k,
      subst (λ s. R s (spec_all xxhash get theirs cfg hashed all (start_partitions theirs cfg) k))
          (sym same) kept,
      look_up-Implements xxhash get mine _ hashed a b _ _ lbls func_name mint maxt part inside,
      look_up-Implements xxhash get theirs _ hashed _ _ _ _ lbls func_name mint maxt whole inside',
      eval_with_labels-Implements xxhash get mine new_labels _ hashed a b _ _ func_name lbls
          other_args mint maxt cur_time part inside,
      eval_with_labels-Implements xxhash get theirs new_labels _ hashed _ _ _ _ func_name lbls
          other_args mint maxt cur_time whole inside',
    )
