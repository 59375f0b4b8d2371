-- ===== src/Cluster/Breaker/Examples.antt =====
-- Runs of the breaker.
use prom_sketch_distributed.Common.{◌≡◌, refl, true, [], ◌∷◌, arith, All}
use prom_sketch_distributed.Cluster.Breaker.{
  state_closed, state_open, state_half_open, CircuitBreaker, new_circuit_breaker, allow,
  record_success, record_failure,
}
use prom_sketch_distributed.Cluster.Breaker.Transitions.{
  allows, fails, succeeds, resets, apply, apply_all, IsValid, apply_all-new-IsValid, Edge,
  apply-Edge, recovery, admit_all, allow_all, probing_admits_every, half_open_survives_failure,
}

abbrev tripped : CircuitBreaker
tripped = record {
  state = state_open;
  failures = 3;
  successes = 0;
  threshold = 3;
  timeout = 30;
  last_fail_time = 100;
}

abbrev probing : CircuitBreaker
probing = record tripped { state = state_half_open }

tripped_after_three :
    apply_all (new_circuit_breaker 3 30) (fails 20 ∷ fails 50 ∷ fails 100 ∷ []) ≡ tripped
unfolding apply_all apply new_circuit_breaker record_failure
tripped_after_three = refl

apply_all-new-IsValid_example :
    IsValid (apply_all (new_circuit_breaker 3 30) (fails 20 ∷ succeeds ∷ allows 30 ∷ resets ∷ []))
apply_all-new-IsValid_example =
    apply_all-new-IsValid 3 30 (fails 20 ∷ succeeds ∷ allows 30 ∷ resets ∷ []) (omega arith)

apply-Edge_example : Edge tripped (apply tripped (allows 140)) (allows 140)
apply-Edge_example = apply-Edge tripped (allows 140)

recovery_example :
    ((allow 140 tripped).1 ≡ true)
    × ((record_success (record_success (allow 140 tripped).0)).state ≡ state_closed)
    × ((record_success (record_success (allow 140 tripped).0)).failures ≡ 0)
    × ((record_success (allow 140 tripped).0).state ≡ state_half_open)
recovery_example = recovery 140 tripped refl (omega arith)

probing_admits_every_example :
    ((allow 140 tripped).0.state ≡ state_half_open)
    × All (λ admitted. admitted ≡ true) (admit_all tripped (140 ∷ 141 ∷ 142 ∷ []))
    × ((allow_all tripped (140 ∷ 141 ∷ 142 ∷ [])).state ≡ state_half_open)
probing_admits_every_example = probing_admits_every tripped 140 (141 ∷ 142 ∷ []) refl (omega arith)

half_open_survives_failure_example :
    ((record_failure 150 (record_success probing)).state ≡ state_half_open)
    × ((allow 151 (record_failure 150 (record_success probing))).1 ≡ true)
half_open_survives_failure_example =
    half_open_survives_failure probing 150 151 refl refl (omega arith)
