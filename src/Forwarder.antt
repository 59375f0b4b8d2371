-- ===== src/Forwarder.antt =====
-- internal/backend/forwarder.go. A series is of any type `A` (Forward's deep copy is the series
-- itself), and `A`s in a list are in the order in which they came. The answer of the backend to each
-- attempt of a batch is an argument. A flush is one step: the series that are forwarded while a batch
-- is being sent only join the queue. The batch
-- size is positive (with a channel without a buffer, a waiting worker would take the series). The backoff, the deadlines and the latency are not modelled.
pub mod Conservation
pub mod Retries
mod Examples
use prom_sketch_distributed.Common.{
  ℕ, zero, suc, ◌*◌, String, Bool, true, false, Option, none, some, List, [], ◌∷◌, ◌++◌, ltb, leb,
  if◌then◌else◌, length, Result, ok, err, add_uint64,
}

pub record BackendConfig : Type 0 where
  pub batch_size : ℕ
  pub max_retries : ℕ

pub record ForwarderMetrics : Type 0 where
  pub samples_forwarded : ℕ
  pub samples_dropped : ℕ
  pub batches_sent : ℕ
  pub batches_failed : ℕ

-- `batch_ch` is the channel's buffer, first in first out; `flush_ch` says whether its one place is
-- taken.
pub record Forwarder (A : Type 0) : Type 0 where
  pub config : BackendConfig
  pub batch_ch : List A
  pub flush_ch : Bool
  pub metrics : ForwarderMetrics
  pub current_batch : List A

pub data SendError : Type 0 where
  failed_after : ℕ → Option String → SendError

-- The loop over the attempts that are left; `write` answers an attempt by its number.
unfoldable pub send_attempts :
    ℕ → ℕ → (ℕ → Option String) → Option String → Result (Option String) (Unit {0})
send_attempts zero attempt write last_err = err last_err
send_attempts (suc left) attempt write last_err = elim (write attempt) [
  | none ↦ ok tt
  | some e ↦ send_attempts left (suc attempt) write (some e)
]

-- sendBatch
unfoldable pub send_batch : ℕ → (ℕ → Option String) → Result SendError (Unit {0})
unfolding send_attempts
send_batch max_retries write = elim (send_attempts max_retries 0 write none) [
  | ok _ ↦ ok tt
  | err e ↦ err (failed_after max_retries e)
]

-- The bookkeeping at the end of a flush of a batch with one series or more.
unfoldable pub settle_batch : Result SendError (Unit {0}) → ℕ → ForwarderMetrics → ForwarderMetrics
settle_batch (ok _) size m = record m {
  batches_sent = add_uint64 m.batches_sent 1;
  samples_forwarded = add_uint64 m.samples_forwarded size;
}
settle_batch (err _) size m = record m { batches_failed = add_uint64 m.batches_failed 1 }

module _ {A : Type 0} where
  unfoldable pub new_forwarder : BackendConfig → Forwarder A
  new_forwarder cfg = record {
    config = cfg;
    batch_ch = [];
    flush_ch = false;
    metrics = record {
      samples_forwarded = 0;
      samples_dropped = 0;
      batches_sent = 0;
      batches_failed = 0;
    };
    current_batch = [];
  }

  -- Forward: the forwarder, and whether the series was queued.
  unfoldable pub forward : Forwarder A → A → Forwarder A × Bool
  forward f ts =
      let m = f.metrics in
      if ltb (length f.batch_ch) (f.config.batch_size * 10)
      then (record f { batch_ch = f.batch_ch ++ ts ∷ [] }, true)
      else (
        record f { metrics = record m { samples_dropped = add_uint64 m.samples_dropped 1 } },
        false,
      )

  unfoldable pub trigger_flush : Forwarder A → Forwarder A
  trigger_flush f = record f { flush_ch = true }

  -- The worker's case for a series in the channel; with none there the case is not taken.
  unfoldable pub receive : Forwarder A → Forwarder A
  unfolding trigger_flush
  receive f = elim f.batch_ch [
    | [] ↦ f
    | ts ∷ rest ↦
        let batch = f.current_batch ++ ts ∷ [] in
        let f' : Forwarder A = record f { batch_ch = rest; current_batch = batch } in
        if leb f.config.batch_size (length batch) then trigger_flush f' else f'
  ]

  unfoldable pub flush : (List A → ℕ → Option String) → Forwarder A → Forwarder A
  unfolding settle_batch
  flush write f = elim f.current_batch [
    | [] ↦ f
    | ts ∷ rest ↦ record f {
      current_batch = [];
      metrics =
          settle_batch (send_batch f.config.max_retries (write (ts ∷ rest))) (length (ts ∷ rest))
            f.metrics;
    }
  ]

  -- The worker's case for a pending flush.
  unfoldable pub flush_pending : (List A → ℕ → Option String) → Forwarder A → Forwarder A
  flush_pending write f = if f.flush_ch then flush write (record f { flush_ch = false }) else f

  -- Stop, from the worker's side: the worker's last flush, after which it returns.
  unfoldable pub stop : (List A → ℕ → Option String) → Forwarder A → Forwarder A
  stop write f = flush write f
