-- ===== src/Ingestion/Rates.antt =====
-- tracker.go: every row of the calls and ticks that a tracker sees.
use prom_sketch_distributed.Common.{
  ℕ, ◌+◌, ◌-◌, ◌≤◌, ◌≡◌, refl, sym, ◌∙◌, subst, inl, inr, Bool, true, false, ◌&&◌, some, List, [],
  ◌∷◌, ◌++◌, arith, ltb, leb, ◌==◌, if◌then◌else◌, Bool-cases, Option-cases, length, drop,
  length-append, ℤ, pos_part,
}
use prom_sketch_distributed.Ingestion.Events.{
  Event, started_at, added, ticked, stopped_now, running, step, reported, waiting, waiting_all, run,
  reported_all, IsSound,
}
use prom_sketch_distributed.Ingestion.Stats.{
  Floats, Tracker, new_tracker, start, stop, add_samples, push_rate, tick,
}

add_zero : (n : ℕ) → n + 0 ≡ n
add_zero n = omega arith

if_true : {A : Type 0} {b : Bool} (x y : A) → b ≡ true → (if b then x else y) ≡ x
if_true x y e = rw e refl

if_false : {A : Type 0} {b : Bool} (x y : A) → b ≡ false → (if b then x else y) ≡ y
if_false x y e = rw e refl

off_later : (b c : Bool) → b ≡ false → b && c ≡ false
off_later b c e = rw e refl

not_later : (a b : ℕ) → leb a b ≡ true → ltb b a ≡ false
not_later a b h = ground (arith, h)

is_later : (a b : ℕ) → leb a b ≡ false → ltb b a ≡ true
is_later a b h = ground (arith, h)

module _ {F : Type 0} (fl : Floats F) where
  length-drop_one : (xs : List F) → length (drop 1 xs) ≡ length xs - 1
  length-drop_one [] = omega arith
  length-drop_one (x ∷ xs) = omega arith

  length-push_rate :
      (w : ℤ) (rate : F) (rates : List F)
      → 1 ≤ pos_part w
      → length rates ≤ pos_part w
      → length (push_rate w rate rates) ≤ pos_part w
  unfolding push_rate
  length-push_rate w rate rates h k =
      ground (arith, length-append rates (rate ∷ []), length-drop_one (rates ++ rate ∷ []))

  tick-IsSound :
      (now last : ℕ) (t : Tracker F) (n p : ℕ)
      → IsSound fl t n p
      → t.last_time ≡ some last
      → leb now last ≡ false
      → IsSound fl (tick fl now t) (n + (tick fl now t).snapshot.samples_in_interval) 0
  unfolding tick
  tick-IsSound now last t n p w e later =
      rw (e, tick)
        (rw later (record {
          positive = w.positive;
          windowed = length-push_rate t.window _ t.rates w.positive w.windowed;
          summed = omega (arith, w.summed, w.totalled);
          totalled = omega (arith, w.summed, w.totalled);
          clocked = λ s h. cc;
        }))

  kept :
      (t u : Tracker F) (n m p q : ℕ)
      → IsSound fl t n p
      → u ≡ t
      → m ≡ 0
      → q ≡ p
      → IsSound fl u (n + m) q
  kept t u n m p q w e z same = rw (e, z, same, add_zero n) w

  tick_early :
      (now last : ℕ) (t : Tracker F)
      → t.last_time ≡ some last
      → leb now last ≡ true
      → tick fl now t ≡ t
  unfolding tick
  tick_early now last t e early = simp (tick, e, early)

  reported_off : (now : ℕ) (t : Tracker F) → running fl t ≡ false → reported fl (ticked now) t ≡ 0
  unfolding reported
  reported_off now t off = elim (Option-cases t.last_time) [
    | inl e ↦ rw (e, reported) refl
    | inr (last, e) ↦ rw (e, reported) (if_false _ _ (off_later _ _ off))
  ]

  reported_on :
      (now last : ℕ) (t : Tracker F)
      → t.last_time ≡ some last
      → running fl t ≡ true
      → reported fl (ticked now) t
        ≡ (if ltb last now then (tick fl now t).snapshot.samples_in_interval else 0)
  unfolding reported
  reported_on now last t e on = simp (reported, e, on)

  waiting_off :
      (now : ℕ) (t : Tracker F) (p : ℕ) → running fl t ≡ false → waiting fl (ticked now) t p ≡ p
  unfolding waiting
  waiting_off now t p off = elim (Option-cases t.last_time) [
    | inl e ↦ rw (e, waiting) refl
    | inr (last, e) ↦ rw (e, waiting) (if_false _ _ (off_later _ _ off))
  ]

  waiting_on :
      (now last : ℕ) (t : Tracker F) (p : ℕ)
      → t.last_time ≡ some last
      → running fl t ≡ true
      → waiting fl (ticked now) t p ≡ (if ltb last now then 0 else p)
  unfolding waiting
  waiting_on now last t p e on = simp (waiting, e, on)

  tick-running :
      (now last : ℕ) (t : Tracker F) (n p : ℕ)
      → IsSound fl t n p
      → running fl t ≡ true
      → t.last_time ≡ some last
      → IsSound fl (tick fl now t) (n + reported fl (ticked now) t) (waiting fl (ticked now) t p)
  tick-running now last t n p w on e = elim (Bool-cases (leb now last)) [
    | inl early ↦
        kept t _ n _ p _ w (tick_early now last t e early)
          (reported_on now last t e on ∙ if_false _ _ (not_later _ _ early))
          (waiting_on now last t p e on ∙ if_false _ _ (not_later _ _ early))
    | inr later ↦
        let same = reported_on now last t e on ∙ if_true _ _ (is_later _ _ later) in
        let none_left = waiting_on now last t p e on ∙ if_true _ _ (is_later _ _ later) in
        rw (same, none_left) (tick-IsSound now last t n p w e later)
  ]

  step-IsSound :
      (e : Event) (t : Tracker F) (n p : ℕ)
      → IsSound fl t n p
      → IsSound fl (step fl e t) (n + reported fl e t) (waiting fl e t p)
  unfolding step reported waiting start add_samples stop
  step-IsSound (started_at now) t n p w = elim (Bool-cases t.started) [
    | inl again ↦ kept t _ n 0 p p w (if_true _ _ again) refl refl
    | inr first ↦
        subst (λ u. IsSound fl u (n + 0) p) (sym (if_false _ _ first))
          (record {
            positive = w.positive;
            windowed = w.windowed;
            summed = omega (arith, w.summed);
            totalled = omega (arith, w.totalled);
            clocked = λ s h. cc;
          })
  ]
  step-IsSound (added k) t n p w = elim (Bool-cases (k == 0)) [
    | inl none_added ↦
        let nothing : k ≡ 0 = ground (arith, none_added) in
        kept t _ n 0 p (p + k) w (if_true _ _ none_added) refl (omega (arith, nothing))
    | inr some_added ↦
        subst (λ u. IsSound fl u (n + 0) (p + k)) (sym (if_false _ _ some_added))
          (record {
            positive = w.positive;
            windowed = w.windowed;
            summed = omega (arith, w.summed);
            totalled = omega (arith, w.totalled);
            clocked = w.clocked;
          })
  ]
  step-IsSound (ticked now) t n p w = elim (Bool-cases (running fl t)) [
    | inr off ↦
        kept t _ n _ p _ w (if_false _ _ off) (reported_off now t off) (waiting_off now t p off)
    | inl on ↦ elim (Option-cases t.last_time) [
      | inl e ↦ absurd (w.clocked (ground (arith, on)) e)
      | inr (last, e) ↦
          subst (λ u. IsSound fl u (n + reported fl (ticked now) t) (waiting fl (ticked now) t p))
            (sym (if_true _ _ on)) (tick-running now last t n p w on e)
    ]
  ]
  step-IsSound stopped_now t n p w = elim (Bool-cases t.started) [
    | inl on ↦
        subst (λ u. IsSound fl u (n + 0) p) (sym (if_true _ _ on))
          (record {
            positive = w.positive;
            windowed = w.windowed;
            summed = omega (arith, w.summed);
            totalled = omega (arith, w.totalled);
            clocked = w.clocked;
          })
    | inr off ↦ kept t _ n 0 p p w (if_false _ _ off) refl refl
  ]

  run-from :
      (es : List Event) (t : Tracker F) (n p : ℕ)
      → IsSound fl t n p
      → IsSound fl (run fl es t) (n + reported_all fl es t) (waiting_all fl es t p)
  run-from [] t n p w = kept t t n 0 p p w refl refl refl
  run-from (e ∷ es) t n p w =
      subst
        (λ m.
          IsSound fl (run fl es (step fl e t)) m
            (waiting_all fl es (step fl e t) (waiting fl e t p)))
        (omega arith)
        (run-from es (step fl e t) (n + reported fl e t) (waiting fl e t p)
          (step-IsSound e t n p w))

  -- Whatever the calls and ticks, and whatever the clock says, there are at most as many rates as the
  -- window asks for, and the samples that the ticks report for their intervals, with those that were
  -- added since the last tick that ended an interval, are the total, in 64 bits: no sample falls
  -- between two intervals, or into both.
  pub run-IsSound :
      (interval window : ℤ) (es : List Event)
      → let t = new_tracker fl.float_zero interval window in
        IsSound fl (run fl es t) (reported_all fl es t) (waiting_all fl es t 0)
  unfolding new_tracker
  run-IsSound interval window es =
      let t = new_tracker fl.float_zero interval window in
      subst (λ m. IsSound fl (run fl es t) m (waiting_all fl es t 0)) (omega arith)
        (run-from es t 0 0 (record {
          positive = ground arith;
          windowed = omega arith;
          summed = omega arith;
          totalled = omega arith;
          clocked = λ h. cc;
        }))
