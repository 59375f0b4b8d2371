-- ===== src/Storage/Racing.antt =====
-- storage.go, Insert, in goroutines that each bring a new series: the limit is checked before the
-- sketches are created, and the memory is counted after. Goroutines differ in nothing but where they
-- are, so a state says how many are at each place. The check is the one of Insert. createSketchInstance
-- passes over every error of the library, so each goroutine that is admitted counts its series.
use prom_sketch_distributed.Common.{
  ℕ, zero, suc, ◌+◌, ◌-◌, ◌*◌, ◌^◌, ◌≤◌, ◌<◌, ◌≡◌, refl, sym, subst, ◌⊎◌, inl, inr, Bool, true,
  false, arith, add_uint64,
}
use prom_sketch_distributed.Storage.{estimated_bytes_per_series, no_room}

-- `waiting` have not checked the limit, `admitted` have, and have not counted their memory.
pub record Race : Type 0 where
  pub waiting : ℕ
  pub admitted : ℕ
  pub rejected : ℕ
  pub used : ℕ
  pub limit : ℕ

abbrev pub refuses : Race → Bool
refuses r = no_room r.limit r.used

pub data RaceStep : Race → Race → Type 0 where
  check_passes :
      (r : Race) (w : ℕ)
      → r.waiting ≡ suc w
      → refuses r ≡ false
      → RaceStep r (record r { waiting = w; admitted = r.admitted + 1 })
  check_fails :
      (r : Race) (w : ℕ)
      → r.waiting ≡ suc w
      → refuses r ≡ true
      → RaceStep r (record r { waiting = w; rejected = r.rejected + 1 })
  counts :
      (r : Race) (a : ℕ)
      → r.admitted ≡ suc a
      → RaceStep r (record r { admitted = a; used = add_uint64 r.used estimated_bytes_per_series })

pub data RaceSteps : Race → Race → Type 0 where
  stays : (r : Race) → RaceSteps r r
  goes : {r s t : Race} → RaceStep r s → RaceSteps s t → RaceSteps r t

-- `n` goroutines at the start, with this much memory counted.
abbrev pub start_race : ℕ → ℕ → ℕ → Race
start_race n used limit = record {
  waiting = n;
  admitted = 0;
  rejected = 0;
  used = used;
  limit = limit;
}

-- What holds on the way, for `n` goroutines.
record IsBounded (n limit : ℕ) (r : Race) : Type 0 where
  same_limit : r.limit ≡ limit
  number : r.waiting + r.admitted ≤ n
  bounded :
      ((r.admitted ≡ 0) × (r.used ≤ limit))
      ⊎ (r.used + (r.admitted + r.waiting + 1) * 65536 ≤ limit + n * 65536)

no_wrap :
    (n limit : ℕ) (r : Race)
    → limit + n * 65536 < 2 ^ 64
    → IsBounded n limit r
    → 1 ≤ r.waiting + r.admitted
    → add_uint64 r.used estimated_bytes_per_series ≡ r.used + 65536
no_wrap n limit r small b busy = elim b.bounded [
  | inl (idle, low) ↦ omega (arith, small, b.number, busy, low)
  | inr high ↦ omega (arith, small, b.number, busy, high)
]

pass_bounded :
    (n limit : ℕ) (r : Race) (w : ℕ)
    → 0 < limit
    → limit + n * 65536 < 2 ^ 64
    → IsBounded n limit r
    → r.waiting ≡ suc w
    → refuses r ≡ false
    → r.used + (r.admitted + 1 + w + 1) * 65536 ≤ limit + n * 65536
pass_bounded n limit r w set small b e passes =
    let same = no_wrap n limit r small b (omega (arith, e)) in
    let room : r.used + 65536 ≤ limit = ground (arith, passes, same, set, b.same_limit) in
    omega (arith, room, b.number, e)

count_bounded :
    (n limit : ℕ) (r : Race) (a : ℕ)
    → limit + n * 65536 < 2 ^ 64
    → IsBounded n limit r
    → r.admitted ≡ suc a
    → ((a ≡ 0) × (add_uint64 r.used estimated_bytes_per_series ≤ limit))
      ⊎ (add_uint64 r.used estimated_bytes_per_series + (a + r.waiting + 1) * 65536
          ≤ limit + n * 65536)
count_bounded n limit r a small b e =
    let same = no_wrap n limit r small b (omega (arith, e)) in
    elim b.bounded [
      | inl (idle, low) ↦ absurd (omega (arith, idle, e))
      | inr high ↦ inr (omega (arith, same, high, e))
    ]

step-IsBounded :
    (n limit : ℕ) {r s : Race}
    → 0 < limit
    → limit + n * 65536 < 2 ^ 64
    → IsBounded n limit r
    → RaceStep r s
    → IsBounded n limit s
step-IsBounded n limit set small b (check_passes r w e passes) = record {
  same_limit = b.same_limit;
  number = omega (arith, b.number, e);
  bounded = inr (pass_bounded n limit r w set small b e passes);
}
step-IsBounded n limit set small b (check_fails r w e fails) = record {
  same_limit = b.same_limit;
  number = omega (arith, b.number, e);
  bounded = ground (arith, b.bounded, e);
}
step-IsBounded n limit set small b (counts r a e) = record {
  same_limit = b.same_limit;
  number = omega (arith, b.number, e);
  bounded = count_bounded n limit r a small b e;
}

steps-IsBounded :
    (n limit : ℕ) {r s : Race}
    → 0 < limit
    → limit + n * 65536 < 2 ^ 64
    → IsBounded n limit r
    → RaceSteps r s
    → IsBounded n limit s
steps-IsBounded n limit set small b (stays r) = b
steps-IsBounded n limit set small b (goes one rest) =
    steps-IsBounded n limit set small (step-IsBounded n limit set small b one) rest

-- The run in which `k` goroutines more check a limit of one series before the first counts.
all_check :
    (k a : ℕ)
    → RaceSteps
        (record (start_race k 0 65536) { admitted = a })
        (record (start_race 0 0 65536) { admitted = a + k })
all_check zero a = let same : a + 0 ≡ a = omega arith in rw same (stays _)
all_check (suc k) a =
    let same : a + suc k ≡ a + 1 + k = omega arith in
    rw same (goes (check_passes _ k refl (ground arith)) (all_check k (a + 1)))

all_count :
    (k used : ℕ)
    → used + k * 65536 < 2 ^ 64
    → RaceSteps
        (record (start_race 0 used 65536) { admitted = k })
        (start_race 0 (used + k * 65536) 65536)
all_count zero used small = let same : used + 0 * 65536 ≡ used = omega arith in rw same (stays _)
all_count (suc k) used small =
    let counted : add_uint64 used estimated_bytes_per_series ≡ used + 65536 =
      omega (arith, small) in
    let same : used + suc k * 65536 ≡ used + 65536 + k * 65536 = omega arith in
    rw same (
      goes (counts _ k refl) (
        subst
          (λ u.
            RaceSteps (record (start_race 0 u 65536) { admitted = k })
              (start_race 0 (used + 65536 + k * 65536) 65536))
          (sym counted) (all_count k (used + 65536) (omega (arith, small)))))

join : {r s t : Race} → RaceSteps r s → RaceSteps s t → RaceSteps r t
join (stays r) q = q
join (goes one p) q = goes one (join p q)

all_in :
    (n limit : ℕ)
    → 1 ≤ n
    → limit + n * 65536 < 2 ^ 64
    → RaceSteps (start_race n 0 65536) (start_race 0 (65536 + (n - 1) * 65536) 65536)
all_in n limit one small =
    let from_zero : 0 + n ≡ n = omega arith in
    let same : 65536 + (n - 1) * 65536 ≡ 0 + n * 65536 = omega (arith, one) in
    rw same (join (rw from_zero at (all_check n 0)) (all_count n 0 (omega (arith, small))))

-- With a limit that the memory counted keeps to at the start, and that leaves room for `n` series in
-- 64 bits, `n` goroutines that each bring a new series at once may count memory beyond it, by at most
-- what the other `n` - 1 series are counted with; and there is a run in which they do, with a limit
-- of one series and no memory counted before, in which all `n` are admitted.
pub racing_limit :
    (n limit used : ℕ)
    → 1 ≤ n
    → 0 < limit
    → used ≤ limit
    → limit + n * 65536 < 2 ^ 64
    → ((r : Race) → RaceSteps (start_race n used limit) r → r.used ≤ limit + (n - 1) * 65536)
      × RaceSteps (start_race n 0 65536) (start_race 0 (65536 + (n - 1) * 65536) 65536)
racing_limit n limit used one set low small = (
  λ r steps.
      let b =
        steps-IsBounded n limit set small
          (record { same_limit = refl; number = omega arith; bounded = inl (refl, low) }) steps in
      elim b.bounded [
        | inl (idle, under) ↦ omega (arith, under)
        | inr high ↦ omega (arith, high, one)
      ],
  all_in n limit one small,
)
