-- ===== src/Insert/Batch/Examples.antt =====
-- Runs of BatchInsert on the two nodes of the examples of Insert.
use prom_sketch_distributed.Cluster.Health.{NodeHealth, HealthChecker, fresh_health}
use prom_sketch_distributed.Common.{
  lookup, ℕ, String, ◌≡◌, ◌≢◌, ◌↔◌, true, false, some, List, [], ◌∷◌, arith, All, pos, ok, is_ok,
}
use prom_sketch_distributed.Insert.Router.Examples.{node_a, sample_router, sample_hash, up_labels}
use prom_sketch_distributed.Insert.Batch.{
  TimeSeries, BatchReply, batch_error, group_series, batch_insert,
}
use prom_sketch_distributed.Insert.Batch.Verdict.{
  failed_group, batch_insert_fails_iff, batch_insert_unhealthy,
}
use mathlib.Core.List.Perm

abbrev one_series : List (TimeSeries ℕ)
one_series =
    record { labels = up_labels; samples = record { timestamp = pos 5; sample_value = 1 } ∷ [] }
    ∷ []

abbrev all_refuse : String → List (TimeSeries ℕ) → BatchReply
all_refuse id series = batch_error "refused"

batch_insert_fails_iff_example :
    (is_ok
        (batch_insert sample_hash
          (λ _ _. 7)
          (λ _. 8)
          (λ g. g)
          all_refuse
          sample_router
          one_series).1
      ≡ false)
    ↔ (((group_series sample_hash
            (λ _ _. 7)
            sample_router
            one_series
            sample_router.health_checker
            []).1
          ≢ [])
        × All
            (λ g. failed_group sample_router.clients all_refuse g ≡ true)
            (group_series sample_hash
              (λ _ _. 7)
              sample_router
              one_series
              sample_router.health_checker
              []).1)
batch_insert_fails_iff_example =
    batch_insert_fails_iff sample_hash (λ _ _. 7) (λ _. 8) (λ g. g) (λ g. Perm.refl g) all_refuse
      sample_router one_series

abbrev down_checker : HealthChecker
down_checker = record {
  nodes = ("a", record (fresh_health node_a 3 30) { healthy = false }) ∷ [];
  check_interval = 10;
  check_timeout = 5;
}

down_entries :
    (id : String) (nh : NodeHealth) → lookup id down_checker.nodes ≡ some nh → nh.healthy ≡ false
unfolding lookup
down_entries id nh e = ground arith

batch_insert_unhealthy_example :
    batch_insert sample_hash
      (λ _ _. 7)
      (λ _. 8)
      (λ g. g)
      all_refuse
      (record sample_router { health_checker = down_checker })
      one_series
    ≡ (record sample_router { health_checker = down_checker }, ok tt)
batch_insert_unhealthy_example =
    batch_insert_unhealthy sample_hash (λ _ _. 7) (λ _. 8) (λ g. g) (λ g. Perm.refl g) all_refuse
      (record sample_router { health_checker = down_checker }) one_series down_entries
