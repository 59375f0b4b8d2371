-- ===== src/Forwarder/Examples.antt =====
-- A run of a forwarder with batches of two series and two attempts.
use prom_sketch_distributed.Common.{
  ℕ, ◌+◌, ◌%◌, ◌^◌, String, ◌≡◌, refl, Option, none, some, List, [], ◌∷◌, ◌++◌, ◌==◌, if◌then◌else◌,
}
use prom_sketch_distributed.Forwarder.{
  BackendConfig, new_forwarder, forward, trigger_flush, receive, flush, flush_pending, stop,
}
use prom_sketch_distributed.Forwarder.Conservation.{
  Event, forwarded, received, ticked, flushed, start_run, sent_by, steps, IsConserved,
  steps-IsConserved, stop_leaves_queue,
}

abbrev small : BackendConfig
small = record { batch_size = 2; max_retries = 2 }

-- The first attempt fails.
abbrev second_try : ℕ → Option String
second_try i = if i == 0 then some "timeout" else none

abbrev some_events : List (Event ℕ)
some_events =
    forwarded 7
    ∷ forwarded 8
    ∷ received
    ∷ forwarded 9
    ∷ received
    ∷ flushed (λ b. second_try)
    ∷ ticked
    ∷ []

steps-IsConserved_example : IsConserved (steps some_events (start_run small))
steps-IsConserved_example = steps-IsConserved small some_events

events_run : (steps some_events (start_run small)).settled ≡ 7 ∷ 8 ∷ []
unfolding new_forwarder forward receive trigger_flush flush_pending flush
events_run = refl

stop_leaves_queue_example :
    let r = steps some_events (start_run small) in
    let s = stop (λ b. second_try) r.forwarder in
    (s.metrics.samples_forwarded ≡ (r.sent + sent_by (λ b. second_try) r.forwarder) % 2 ^ 64)
    × (s.current_batch ≡ [])
    × (r.accepted ≡ (r.settled ++ (r.forwarder).current_batch) ++ s.batch_ch)
stop_leaves_queue_example = stop_leaves_queue small some_events (λ b. second_try)
