-- ===== src/Cluster/Breaker/Transitions.antt =====
-- circuit_breaker.go: the state machine over any sequence of calls.
use prom_sketch_distributed.Common.{
  ℕ, ◌+◌, ◌-◌, ◌≤◌, ◌<◌, ◌≡◌, refl, ◌↔◌, inl, inr, Bool, true, false, List, [], ◌∷◌, arith, ltb,
  leb, ltb→lt, leb→le, Bool-cases, length, All,
}
use prom_sketch_distributed.Cluster.Breaker.{
  State, state_closed, state_open, state_half_open, CircuitBreaker, new_circuit_breaker, allow,
  record_success, record_failure, reset,
}

-- The calls that other code makes on a breaker, with the time of each.
pub data Call : Type 0 where
  allows fails : ℕ → Call
  succeeds resets : Call

unfoldable pub apply : CircuitBreaker → Call → CircuitBreaker
apply cb (allows now) = (allow now cb).0
apply cb (fails now) = record_failure now cb
apply cb succeeds = record_success cb
apply cb resets = reset cb

unfoldable pub apply_all : CircuitBreaker → List Call → CircuitBreaker
apply_all cb [] = cb
apply_all cb (c ∷ cs) = apply_all (apply cb c) cs

-- A closed breaker has not yet counted as many failures as its threshold, and a half-open one has
-- seen at most one success.
pub record IsValid (cb : CircuitBreaker) : Type 0 where
  pub closed_failures : cb.state ≡ state_closed → cb.failures < cb.threshold
  pub half_open_successes : cb.state ≡ state_half_open → cb.successes < 2
  pub threshold_pos : 1 ≤ cb.threshold

new_circuit_breaker-IsValid :
    (threshold timeout : ℕ) → 1 ≤ threshold → IsValid (new_circuit_breaker threshold timeout)
unfolding new_circuit_breaker
new_circuit_breaker-IsValid threshold timeout h = ground arith

apply-IsValid : (cb : CircuitBreaker) (c : Call) → IsValid cb → IsValid (apply cb c)
unfolding apply allow record_failure record_success reset
apply-IsValid cb (allows now) v = ground arith
apply-IsValid cb (fails now) v = ground arith
apply-IsValid cb succeeds v = ground arith
apply-IsValid cb resets v = ground arith

apply_all-IsValid : (cb : CircuitBreaker) (cs : List Call) → IsValid cb → IsValid (apply_all cb cs)
unfolding apply_all
apply_all-IsValid cb [] v = v
apply_all-IsValid cb (c ∷ cs) v = apply_all-IsValid (apply cb c) cs (apply-IsValid cb c v)

-- After any calls on a new breaker with a positive threshold, a closed breaker has counted fewer
-- failures than its threshold, and a half-open one at most one success.
pub apply_all-new-IsValid :
    (threshold timeout : ℕ) (cs : List Call)
    → 1 ≤ threshold
    → IsValid (apply_all (new_circuit_breaker threshold timeout) cs)
apply_all-new-IsValid threshold timeout cs h =
    apply_all-IsValid _ cs (new_circuit_breaker-IsValid threshold timeout h)

-- The edges of the state machine, with what each needs.
pub data Edge (cb cb' : CircuitBreaker) : Call → Type 0 where
  keeps : {c : Call} → cb'.state ≡ cb.state → Edge cb cb' c
  opens :
      (now : ℕ) → cb.threshold ≤ cb.failures + 1 → cb'.state ≡ state_open → Edge cb cb' (fails now)
  probes :
      (now : ℕ)
      → cb.state ≡ state_open
      → cb.timeout < now - cb.last_fail_time
      → cb'.state ≡ state_half_open
      → Edge cb cb' (allows now)
  recovers :
      cb.state ≡ state_half_open
      → 1 ≤ cb.successes
      → cb'.state ≡ state_closed
      → Edge cb cb' succeeds
  closes : cb'.state ≡ state_closed → Edge cb cb' resets

allow-Edge :
    (now : ℕ) (cb : CircuitBreaker) (s : State)
    → cb.state ≡ s
    → Edge cb (allow now cb).0 (allows now)
unfolding allow
allow-Edge now cb state_closed e = keeps (ground arith)
allow-Edge now cb state_half_open e = keeps (ground arith)
allow-Edge now cb state_open e = elim (Bool-cases (ltb cb.timeout (now - cb.last_fail_time))) [
  | inl h ↦ probes now e (ltb→lt _ _ h) (ground arith)
  | inr h ↦ keeps (ground arith)
]

record_success-Edge :
    (cb : CircuitBreaker) (s : State) → cb.state ≡ s → Edge cb (record_success cb) succeeds
unfolding record_success
record_success-Edge cb state_closed e = keeps (ground arith)
record_success-Edge cb state_open e = keeps (ground arith)
record_success-Edge cb state_half_open e = elim (Bool-cases (leb 2 (cb.successes + 1))) [
  | inl h ↦ recovers e (ground arith) (ground arith)
  | inr h ↦ keeps (ground arith)
]

-- A call keeps the state or follows one of these edges: a failure that reaches the threshold opens,
-- a request after the timeout makes an open breaker half-open, a second success in the half-open
-- state closes it, and a reset closes it.
pub apply-Edge : (cb : CircuitBreaker) (c : Call) → Edge cb (apply cb c) c
unfolding apply allow record_failure record_success reset
apply-Edge cb (fails now) = elim (Bool-cases (leb cb.threshold (cb.failures + 1))) [
  | inl h ↦ opens now (leb→le _ _ h) (ground arith)
  | inr h ↦ keeps (ground arith)
]
apply-Edge cb resets = closes refl
apply-Edge cb (allows now) = allow-Edge now cb cb.state refl
apply-Edge cb succeeds = record_success-Edge cb cb.state refl

-- A request is refused exactly while the breaker is open and the timeout since the last failure has
-- not passed; a refused request changes nothing.
pub allow_refuses_iff :
    (now : ℕ) (cb : CircuitBreaker)
    → ((allow now cb).1 ≡ false)
      ↔ ((cb.state ≡ state_open) × (now - cb.last_fail_time ≤ cb.timeout) × ((allow now cb).0 ≡ cb))
unfolding allow
allow_refuses_iff now cb = ground arith

-- `n` failures in a row, at any times.
pub fail_at : CircuitBreaker → List ℕ → CircuitBreaker
fail_at cb [] = cb
fail_at cb (now ∷ times) = fail_at (record_failure now cb) times

fail_at_closed :
    (cb : CircuitBreaker) (times : List ℕ)
    → cb.state ≡ state_closed
    → cb.failures + length times < cb.threshold
    → (fail_at cb times).state ≡ state_closed
unfolding fail_at record_failure
fail_at_closed cb [] e h = e
fail_at_closed cb (now ∷ times) e h = ground (arith, fail_at_closed (record_failure now cb) times)

fail_at_open :
    (cb : CircuitBreaker) (times : List ℕ)
    → cb.state ≡ state_open
    → (fail_at cb times).state ≡ state_open
unfolding fail_at record_failure
fail_at_open cb [] e = e
fail_at_open cb (now ∷ times) e = ground (arith, fail_at_open (record_failure now cb) times)

fail_at_opens :
    (cb : CircuitBreaker) (times : List ℕ)
    → cb.failures < cb.threshold
    → cb.threshold ≤ cb.failures + length times
    → (fail_at cb times).state ≡ state_open
unfolding fail_at record_failure
fail_at_opens cb [] e h = absurd (omega arith)
fail_at_opens cb (now ∷ times) e h =
    ground (
      arith,
      fail_at_opens (record_failure now cb) times,
      fail_at_open (record_failure now cb) times,
    )

-- From a new breaker with a positive threshold, a row of failures opens the circuit exactly when
-- there are at least as many as the threshold.
pub fail_at_opens_iff :
    (threshold timeout : ℕ) (times : List ℕ)
    → 1 ≤ threshold
    → ((fail_at (new_circuit_breaker threshold timeout) times).state ≡ state_open)
      ↔ (threshold ≤ length times)
unfolding new_circuit_breaker
fail_at_opens_iff threshold timeout times h =
    let cb = new_circuit_breaker threshold timeout in
    (
      λ opened. elim (Bool-cases (leb threshold (length times))) [
        | inl enough ↦ leb→le _ _ enough
        | inr few ↦ absurd (ground (arith, fail_at_closed cb times refl))
      ],
      λ enough. fail_at_opens cb times h (omega arith),
    )

-- Once the timeout has passed, an open breaker closes after one admitted request and two successes,
-- with no failure counted.
pub recovery :
    (now : ℕ) (cb : CircuitBreaker)
    → cb.state ≡ state_open
    → cb.timeout < now - cb.last_fail_time
    → ((allow now cb).1 ≡ true)
      × ((record_success (record_success (allow now cb).0)).state ≡ state_closed)
      × ((record_success (record_success (allow now cb).0)).failures ≡ 0)
      × ((record_success (allow now cb).0).state ≡ state_half_open)
unfolding allow record_success
recovery now cb e h = ground arith

-- The answers to requests at these times.
pub admit_all : CircuitBreaker → List ℕ → List Bool
admit_all cb [] = []
admit_all cb (now ∷ times) = (allow now cb).1 ∷ admit_all (allow now cb).0 times

-- The breaker after them.
pub allow_all : CircuitBreaker → List ℕ → CircuitBreaker
allow_all cb [] = cb
allow_all cb (now ∷ times) = allow_all (allow now cb).0 times

half_open_admits_every :
    (cb : CircuitBreaker) (times : List ℕ)
    → cb.state ≡ state_half_open
    → All (λ admitted. admitted ≡ true) (admit_all cb times)
      × ((allow_all cb times).state ≡ state_half_open)
unfolding admit_all allow_all allow
half_open_admits_every cb [] e = (tt, e)
half_open_admits_every cb (now ∷ times) e =
    ground (arith, half_open_admits_every (allow now cb).0 times)

-- The first request after the timeout turns the breaker half-open, and all requests after it, until an
-- outcome is recorded, are admitted and leave the breaker half-open.
pub probing_admits_every :
    (cb : CircuitBreaker) (now : ℕ) (times : List ℕ)
    → cb.state ≡ state_open
    → cb.timeout < now - cb.last_fail_time
    → ((allow now cb).0.state ≡ state_half_open)
      × All (λ admitted. admitted ≡ true) (admit_all cb (now ∷ times))
      × ((allow_all cb (now ∷ times)).state ≡ state_half_open)
unfolding admit_all allow_all allow
probing_admits_every cb now times e h =
    ground (arith, half_open_admits_every (allow now cb).0 times)

-- With a threshold above one, a failure after the first success of the half-open state leaves the
-- breaker half-open, so it goes on admitting requests.
pub half_open_survives_failure :
    (cb : CircuitBreaker) (now later : ℕ)
    → cb.state ≡ state_half_open
    → cb.successes ≡ 0
    → 2 ≤ cb.threshold
    → ((record_failure now (record_success cb)).state ≡ state_half_open)
      × ((allow later (record_failure now (record_success cb))).1 ≡ true)
unfolding record_failure record_success allow
half_open_survives_failure cb now later e fresh h = ground arith
