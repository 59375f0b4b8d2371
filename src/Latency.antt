-- ===== src/Latency.antt =====
-- internal/pskquery/merger/quantile.go: the ring buffer of recent observations, of type `F`. Sorting
-- and the floating-point index of Quantile are not modelled, only which observations it is taken of.
pub mod Ring
pub mod Window
mod Examples
use prom_sketch_distributed.Common.{
  ℕ, zero, suc, ◌+◌, Bool, true, false, List, [], ◌∷◌, leb, if◌then◌else◌, length, take,
}

pub record QuantileTracker (F : Type 0) : Type 0 where
  pub buf : List F
  pub pos : ℕ
  pub full : Bool

module _ {F : Type 0} where
  abbrev pub filled : ℕ → F → List F
  filled zero x = []
  filled (suc n) x = x ∷ filled n x

  -- q.buf[i] = v
  abbrev pub store : ℕ → F → List F → List F
  store i v [] = []
  store zero v (x ∷ xs) = v ∷ xs
  store (suc i) v (x ∷ xs) = x ∷ store i v xs

  unfoldable pub new_quantile_tracker : F → ℕ → QuantileTracker F
  new_quantile_tracker zero_value size = record {
    buf = filled size zero_value;
    pos = 0;
    full = false;
  }

  unfoldable pub observe : F → QuantileTracker F → QuantileTracker F
  observe v q =
      let buf' = store q.pos v q.buf in
      if leb (length q.buf) (q.pos + 1)
      then record { buf = buf'; pos = 0; full = true }
      else record { buf = buf'; pos = q.pos + 1; full = q.full }

  -- What Quantile sorts, as it stands in the buffer.
  unfoldable pub observed : QuantileTracker F → List F
  observed q = if q.full then q.buf else take q.pos q.buf

  unfoldable pub get_count : QuantileTracker F → ℕ
  get_count q = if q.full then length q.buf else q.pos
