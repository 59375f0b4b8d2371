-- ===== src/Ingestion/Events.antt =====
-- tracker.go: every row of the calls and ticks that a tracker sees, and what is to hold after it.
use prom_sketch_distributed.Common.{
  ℕ, ◌+◌, ◌%◌, ◌^◌, ◌≤◌, ◌≡◌, ◌≢◌, Bool, true, ◌&&◌, not, none, some, List, [], ◌∷◌, ltb,
  if◌then◌else◌, length, pos_part,
}
use prom_sketch_distributed.Ingestion.Stats.{Floats, Tracker, start, stop, add_samples, tick}

pub data Event : Type 0 where
  started_at : ℕ → Event
  added : ℕ → Event
  ticked : ℕ → Event
  stopped_now : Event

module _ {F : Type 0} (fl : Floats F) where
  abbrev pub running : Tracker F → Bool
  running t = t.started && not t.stopped

  -- The goroutine ticks from Start to Stop.
  unfoldable pub step : Event → Tracker F → Tracker F
  step (started_at now) t = start now t
  step (added n) t = add_samples n t
  step (ticked now) t = if running t then tick fl now t else t
  step stopped_now t = stop t

  -- The number of samples that a tick reports for the interval that ends with it.
  unfoldable pub reported : Event → Tracker F → ℕ
  reported (ticked now) t = elim t.last_time [
    | none ↦ 0
    | some last ↦
        if running t && ltb last now then (tick fl now t).snapshot.samples_in_interval else 0
  ]
  reported _ t = 0

  -- The number of samples that wait for a tick, of `p` that waited before: a tick that ends an interval
  -- leaves none.
  unfoldable pub waiting : Event → Tracker F → ℕ → ℕ
  waiting (added n) t p = p + n
  waiting (ticked now) t p = elim t.last_time [
    | none ↦ p
    | some last ↦ if running t && ltb last now then 0 else p
  ]
  waiting _ t p = p

  abbrev pub waiting_all : List Event → Tracker F → ℕ → ℕ
  waiting_all [] t p = p
  waiting_all (e ∷ es) t p = waiting_all es (step e t) (waiting e t p)

  abbrev pub run : List Event → Tracker F → Tracker F
  run [] t = t
  run (e ∷ es) t = run es (step e t)

  abbrev pub reported_all : List Event → Tracker F → ℕ
  reported_all [] t = 0
  reported_all (e ∷ es) t = reported e t + reported_all es (step e t)

  -- What holds of a tracker whose ticks have reported `n` samples so far, while `p` samples wait.
  pub record IsSound (t : Tracker F) (n p : ℕ) : Type 0 where
    pub positive : 1 ≤ pos_part t.window
    pub windowed : length t.rates ≤ pos_part t.window
    pub summed : n % 2 ^ 64 ≡ t.last_total
    pub totalled : (n + p) % 2 ^ 64 ≡ t.total_samples
    pub clocked : t.started ≡ true → t.last_time ≢ none
