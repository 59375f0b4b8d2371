-- ===== src/Ingestion/Stats.antt =====
-- internal/ingestion/stats/tracker.go. Floats are a parameter, `Floats`; the clock is in nanoseconds
-- and `none` is the zero time. The goroutine's ticks are steps of their own, and so is a call of
-- AddSamples; the locks are not modelled, and Stop's wait for the goroutine is none here.
use prom_sketch_distributed.Common.{
  ℕ, ◌+◌, ◌-◌, ◌%◌, ◌^◌, Bool, true, false, Option, none, some, List, [], ◌∷◌, ◌++◌, ltb, leb, ◌==◌,
  if◌then◌else◌, length, drop, ℤ, pos, ltb_ℤ, leb_ℤ, add_uint64,
}

-- What the tracker computes in floats: a number of samples, seconds from nanoseconds, a sum, a
-- quotient, and zero.
pub record Floats (F : Type 0) : Type 0 where
  pub of_uint64 : ℕ → F
  pub seconds : ℕ → F
  pub plus : F → F → F
  pub quotient : F → F → F
  pub float_zero : F

pub record Snapshot (F : Type 0) : Type 0 where
  pub snapshot_total : ℕ
  pub rate_per_sec : F
  pub avg_rate_per_sec : F
  pub samples_in_interval : ℕ
  pub interval_seconds : F
  pub snapshot_time : Option ℕ

pub record Tracker (F : Type 0) : Type 0 where
  pub total_samples : ℕ
  pub interval : ℤ
  pub window : ℤ
  pub snapshot : Snapshot F
  pub rates : List F
  pub last_time : Option ℕ
  pub last_total : ℕ
  pub started : Bool
  pub stopped : Bool

-- One second.
abbrev pub default_interval : ℤ
default_interval = pos 1_000_000_000

abbrev empty_snapshot : {F : Type 0} → F → ℕ → Option ℕ → Snapshot F
empty_snapshot zero_rate total now = record {
  snapshot_total = total;
  rate_per_sec = zero_rate;
  avg_rate_per_sec = zero_rate;
  samples_in_interval = 0;
  interval_seconds = zero_rate;
  snapshot_time = now;
}

-- Go's difference of two uint64.
abbrev pub sub_uint64 : ℕ → ℕ → ℕ
sub_uint64 a b = (a + 2 ^ 64 - b) % 2 ^ 64

module _ {F : Type 0} where
  unfoldable pub new_tracker : F → ℤ → ℤ → Tracker F
  new_tracker zero_rate interval window = record {
    total_samples = 0;
    interval = if leb_ℤ interval (pos 0) then default_interval else interval;
    window = if ltb_ℤ window (pos 1) then pos 1 else window;
    snapshot = empty_snapshot zero_rate 0 none;
    rates = [];
    last_time = none;
    last_total = 0;
    started = false;
    stopped = false;
  }

  -- A second call does nothing, after Stop too.
  unfoldable pub start : ℕ → Tracker F → Tracker F
  start now t = if t.started then t else record t {
    started = true;
    last_time = some now;
    snapshot = record (t.snapshot) { snapshot_time = some now };
  }

  unfoldable pub stop : Tracker F → Tracker F
  stop t = if t.started then record t { stopped = true } else t

  unfoldable pub add_samples : ℕ → Tracker F → Tracker F
  add_samples n t = if n == 0 then t else record t { total_samples = add_uint64 t.total_samples n }

  -- Snapshot, at the time `now`.
  unfoldable pub get_snapshot : ℕ → Tracker F → Snapshot F
  get_snapshot now t =
      let s : Snapshot F = record (t.snapshot) { snapshot_total = t.total_samples } in
      elim s.snapshot_time [ none ↦ record s { snapshot_time = some now } | some _ ↦ s ]

  -- The window of rates with one more: the oldest goes when there are too many.
  unfoldable pub push_rate : ℤ → F → List F → List F
  push_rate window rate rates =
      let more = rates ++ rate ∷ [] in
      if ltb_ℤ window (pos (length more)) then drop 1 more else more

  unfoldable pub sum_rates : Floats F → F → List F → F
  sum_rates fl acc [] = acc
  sum_rates fl acc (r ∷ rs) = sum_rates fl ((fl.plus) acc r) rs

  unfoldable pub tick : Floats F → ℕ → Tracker F → Tracker F
  unfolding push_rate sum_rates
  tick fl now t = elim t.last_time [
    | none ↦ record t {
      last_time = some now;
      last_total = t.total_samples;
      snapshot = empty_snapshot fl.float_zero t.total_samples (some now);
    }
    | some last ↦
        let interval_sec = (fl.seconds) (now - last) in
        let samples = sub_uint64 t.total_samples t.last_total in
        let rate = (fl.quotient) ((fl.of_uint64) samples) interval_sec in
        let rates' = push_rate t.window rate t.rates in
        let sum = sum_rates fl fl.float_zero rates' in
        let avg =
          if ltb 0 (length rates')
          then (fl.quotient) sum ((fl.of_uint64) (length rates'))
          else sum in
        if leb now last then t else record t {
          rates = rates';
          snapshot = record {
            snapshot_total = t.total_samples;
            rate_per_sec = rate;
            avg_rate_per_sec = avg;
            samples_in_interval = samples;
            interval_seconds = interval_sec;
            snapshot_time = some now;
          };
          last_time = some now;
          last_total = t.total_samples;
        }
  ]
