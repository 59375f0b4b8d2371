-- ===== src/Ingestion/Examples.antt =====
-- Runs of a pipeline in front of one storage, and of the tracker, with whole numbers for floats.
use prom_sketch_distributed.Common.{ℕ, ◌+◌, ◌/◌, ◌≡◌, refl, List, [], ◌∷◌, arith, length, pos}
use prom_sketch_distributed.Insert.Batch.{TimeSeries}
use prom_sketch_distributed.Insert.Router.Examples.{sample_hash, first_label, up_labels}
use prom_sketch_distributed.Storage.{new_storage}
use prom_sketch_distributed.Storage.Rows.{taken}
use prom_sketch_distributed.Storage.Accounting.{insert_all}
use prom_sketch_distributed.Storage.Examples.{counting, config_a}
use prom_sketch_distributed.Forwarder.{Forwarder, new_forwarder}
use prom_sketch_distributed.Ingestion.Stats.{
  Floats, new_tracker, start, stop, add_samples, push_rate, sum_rates, tick,
}
use prom_sketch_distributed.Ingestion.Events.{
  Event, started_at, added, ticked, stopped_now, step, reported, waiting_all, run, reported_all,
  IsSound,
}
use prom_sketch_distributed.Ingestion.Rates.{run-IsSound}
use prom_sketch_distributed.Ingestion.Counters.{
  all_calls, forward_all, queued_samples, IsWord, Counted,
}
use prom_sketch_distributed.Ingestion.Received.{receive-Counted}
use prom_sketch_distributed.Ingestion.{Pipeline, new_pipeline, receive}

abbrev whole_numbers : Floats ℕ
whole_numbers = record {
  of_uint64 = λ n. n;
  seconds = λ n. n / 1_000_000_000;
  plus = λ a b. a + b;
  quotient = λ a b. a / b;
  float_zero = 0;
}

-- Two seconds with three and with five samples, and a tick that comes at the same time as another.
abbrev events : List Event
events =
    started_at 1_000_000_000
    ∷ added 3
    ∷ ticked 2_000_000_000
    ∷ ticked 2_000_000_000
    ∷ added 5
    ∷ ticked 3_000_000_000
    ∷ stopped_now
    ∷ added 7
    ∷ ticked 4_000_000_000
    ∷ []

events_reported : reported_all whole_numbers events (new_tracker 0 (pos 0) (pos 10)) ≡ 8
unfolding reported step tick start stop add_samples new_tracker push_rate sum_rates
events_reported = refl

run-IsSound_example :
    IsSound whole_numbers
      (run whole_numbers events (new_tracker 0 (pos 0) (pos 10)))
      (reported_all whole_numbers events (new_tracker 0 (pos 0) (pos 10)))
      (waiting_all whole_numbers events (new_tracker 0 (pos 0) (pos 10)) 0)
run-IsSound_example = run-IsSound whole_numbers (pos 0) (pos 10) events

abbrev one_place : Forwarder (TimeSeries ℕ)
unfolding new_forwarder
one_place = new_forwarder (record { batch_size = 1; max_retries = 3 })

abbrev front : Pipeline ℕ ℕ ℕ
unfolding new_pipeline one_place
front = new_pipeline 0 (new_storage counting config_a) one_place

abbrev request : List (TimeSeries ℕ)
request =
    record { labels = up_labels; samples = record { timestamp = pos 1; sample_value = 5 } ∷ [] }
    ∷ record { labels = []; samples = record { timestamp = pos 2; sample_value = 6 } ∷ [] }
    ∷ []

front_words : IsWord front
unfolding front new_pipeline new_tracker
front_words = omega arith

receive-Counted_example :
    Counted
      (length (all_calls request))
      (taken sample_hash first_label counting (all_calls request) front.storage)
      (queued_samples request front.forwarder)
      (insert_all sample_hash first_label counting (all_calls request) front.storage)
      (forward_all request front.forwarder)
      front
      (receive sample_hash first_label counting front request)
receive-Counted_example = receive-Counted sample_hash first_label counting request front front_words
