-- ===== src/Latency/Examples.antt =====
-- A tracker of the last three observations.
use prom_sketch_distributed.Common.{ℕ, ◌-◌, min, ◌≡◌, refl, List, [], ◌∷◌, arith, drop}
use prom_sketch_distributed.Latency.{new_quantile_tracker, observe, observed, get_count}
use prom_sketch_distributed.Latency.Window.{observe_all, observed-latest}
use mathlib.Core.List.{Perm}

abbrev latencies : List ℕ
latencies = 4 ∷ 8 ∷ 15 ∷ 16 ∷ []

observed-latest_example :
    let q = observe_all latencies (new_quantile_tracker 0 3) in
    Perm (observed q) (drop (4 - 3) latencies) × (get_count q ≡ min 3 4)
observed-latest_example = observed-latest 0 3 latencies (omega arith)

observed_run : observed (observe_all latencies (new_quantile_tracker 0 3)) ≡ 16 ∷ 8 ∷ 15 ∷ []
unfolding observe new_quantile_tracker observed
observed_run = refl
