-- ===== src/Forwarder/Conservation.antt =====
-- forwarder.go: no series is lost on its way but with a batch that fails, and the order is kept.
use prom_sketch_distributed.Common.{
  ℕ, ◌+◌, ◌*◌, ◌%◌, ◌^◌, ◌≤◌, ◌<◌, String, ◌≡◌, refl, sym, ap, ◌∙◌, subst, inl, inr, Bool, false,
  Option, List, [], ◌∷◌, ◌++◌, append_assoc, arith, ltb, leb, if◌then◌else◌, Bool-cases, length,
  length-append, List-cases, Result-cases, is_ok, add_uint64,
}
use prom_sketch_distributed.Forwarder.{
  BackendConfig, Forwarder, send_batch, settle_batch, new_forwarder, forward, trigger_flush,
  receive, flush, flush_pending, stop,
}

-- What can happen to a forwarder: a caller's Forward, the worker's case for a series, the timer, and
-- the worker's case for a pending flush, with the backend's answers.
pub data Event (A : Type 0) : Type 0 where
  forwarded : A → Event A
  received : Event A
  ticked : Event A
  flushed : (List A → ℕ → Option String) → Event A

-- A forwarder with what went in and what came out: the series that Forward queued, those of the
-- batches that were handed to the backend (sent or failed), and how many it dropped.
pub record Run (A : Type 0) : Type 0 where
  pub forwarder : Forwarder A
  pub accepted : List A
  pub settled : List A
  pub sent : ℕ
  pub dropped : ℕ

module _ {A : Type 0} where
  abbrev pub start_run : BackendConfig → Run A
  start_run cfg = record {
    forwarder = new_forwarder cfg;
    accepted = [];
    settled = [];
    sent = 0;
    dropped = 0;
  }

  -- How many series a flush sends.
  abbrev pub sent_by : (List A → ℕ → Option String) → Forwarder A → ℕ
  sent_by write f =
      if is_ok (send_batch f.config.max_retries (write f.current_batch))
      then length f.current_batch
      else 0

  abbrev pub step : Event A → Run A → Run A
  step (forwarded ts) r =
      if (forward r.forwarder ts).1
      then record r { forwarder = (forward r.forwarder ts).0; accepted = r.accepted ++ ts ∷ [] }
      else record r { forwarder = (forward r.forwarder ts).0; dropped = r.dropped + 1 }
  step received r = record r { forwarder = receive r.forwarder }
  step ticked r = record r { forwarder = trigger_flush r.forwarder }
  step (flushed write) r =
      if (r.forwarder).flush_ch
      then record r {
        forwarder = flush_pending write r.forwarder;
        settled = r.settled ++ (r.forwarder).current_batch;
        sent = r.sent + sent_by write r.forwarder;
      }
      else r

  abbrev pub steps : List (Event A) → Run A → Run A
  steps [] r = r
  steps (e ∷ es) r = steps es (step e r)

  -- In order: what is settled, then the batch, then the queue, and nothing else; the counters agree
  -- with what happened, in 64 bits; and the queue keeps to its capacity.
  pub record IsConserved (r : Run A) : Type 0 where
    pub ordered : r.accepted ≡ r.settled ++ ((r.forwarder).current_batch ++ (r.forwarder).batch_ch)
    pub counted_sent : (r.forwarder).metrics.samples_forwarded ≡ r.sent % 2 ^ 64
    pub counted_dropped : (r.forwarder).metrics.samples_dropped ≡ r.dropped % 2 ^ 64
    pub bounded : length (r.forwarder).batch_ch ≤ (r.forwarder).config.batch_size * 10

  forwarded-IsConserved : (ts : A) (r : Run A) → IsConserved r → IsConserved (step (forwarded ts) r)
  unfolding forward
  forwarded-IsConserved ts r w =
      let f = r.forwarder in
      elim (Bool-cases (ltb (length f.batch_ch) (f.config.batch_size * 10))) [
        | inl room ↦
            rw (room, forward)
              (record {
                ordered =
                    ap (λ all. all ++ ts ∷ []) w.ordered
                    ∙ append_assoc r.settled (f.current_batch ++ f.batch_ch) (ts ∷ [])
                    ∙ ap (λ rest. r.settled ++ rest)
                        (append_assoc f.current_batch f.batch_ch (ts ∷ []));
                counted_sent = w.counted_sent;
                counted_dropped = w.counted_dropped;
                bounded = ground (arith, room, length-append f.batch_ch (ts ∷ []));
              })
        | inr full ↦
            rw (full, forward)
              (record {
                ordered = w.ordered;
                counted_sent = w.counted_sent;
                counted_dropped = omega (arith, w.counted_dropped);
                bounded = w.bounded;
              })
      ]

  received-IsConserved : (r : Run A) → IsConserved r → IsConserved (step received r)
  unfolding receive trigger_flush
  received-IsConserved r w =
      let f = r.forwarder in
      elim (List-cases f.batch_ch) [
        | inl e ↦ rw (e, receive) w
        | inr (ts, rest, e) ↦
            let ordered =
              w.ordered
              ∙ ap (λ q. r.settled ++ (f.current_batch ++ q)) e
              ∙ ap (λ q. r.settled ++ q) (sym (append_assoc f.current_batch (ts ∷ []) rest)) in
            let bounded : length rest ≤ f.config.batch_size * 10 =
              omega (arith, w.bounded, ap (λ (q : List A). length q) e) in
            elim (Bool-cases (leb f.config.batch_size (length (f.current_batch ++ ts ∷ [])))) [
              | inl due ↦
                  rw (e, receive)
                    (rw due (record {
                      ordered = ordered;
                      counted_sent = w.counted_sent;
                      counted_dropped = w.counted_dropped;
                      bounded = bounded;
                    }))
              | inr early ↦
                  rw (e, receive)
                    (rw early (record {
                      ordered = ordered;
                      counted_sent = w.counted_sent;
                      counted_dropped = w.counted_dropped;
                      bounded = bounded;
                    }))
            ]
      ]

  flush-empties :
      (write : List A → ℕ → Option String) (f : Forwarder A)
      → ((flush write f).current_batch ≡ [])
        × ((flush write f).batch_ch ≡ f.batch_ch)
        × ((flush write f).config ≡ f.config)
        × ((flush write f).metrics.samples_dropped ≡ f.metrics.samples_dropped)
  unfolding flush settle_batch
  flush-empties write f = elim (List-cases f.current_batch) [
    | inl e ↦ rw (e, flush) (e, refl, refl, refl)
    | inr (ts, rest, e) ↦
        elim (Result-cases (send_batch f.config.max_retries (write (ts ∷ rest)))) [
          | inl (u, s) ↦ rw (e, flush) (rw s (refl, refl, refl, refl))
          | inr (x, s) ↦ rw (e, flush) (rw s (refl, refl, refl, refl))
        ]
  ]

  flush-counts :
      (write : List A → ℕ → Option String) (f : Forwarder A)
      → f.metrics.samples_forwarded < 2 ^ 64
      → (flush write f).metrics.samples_forwarded
        ≡ add_uint64 f.metrics.samples_forwarded (sent_by write f)
  unfolding flush settle_batch
  flush-counts write f word = elim (List-cases f.current_batch) [
    | inl e ↦
        let quiet : sent_by write f ≡ 0 = ground (arith, ap (λ (q : List A). length q) e) in
        let same : (flush write f).metrics.samples_forwarded ≡ f.metrics.samples_forwarded =
          rw (e, flush) refl in
        same ∙ omega (arith, word, quiet)
    | inr (ts, rest, e) ↦
        elim (Result-cases (send_batch f.config.max_retries (write (ts ∷ rest)))) [
          | inl (u, s) ↦ rw (e, flush) (rw s refl)
          | inr (x, s) ↦ rw (e, flush) (rw s (omega (arith, word)))
        ]
  ]

  flush-IsConserved :
      (write : List A → ℕ → Option String) (r : Run A)
      → IsConserved r
      → IsConserved (record r {
        forwarder = flush write r.forwarder;
        settled = r.settled ++ (r.forwarder).current_batch;
        sent = r.sent + sent_by write r.forwarder;
      })
  flush-IsConserved write r w =
      let f = r.forwarder in
      let (emptied, queue, cfg, dropped) = flush-empties write f in
      record {
        ordered =
            rw (emptied, queue)
              (w.ordered ∙ sym (append_assoc r.settled f.current_batch f.batch_ch));
        counted_sent =
            flush-counts write f (omega (arith, w.counted_sent)) ∙ omega (arith, w.counted_sent);
        counted_dropped = dropped ∙ w.counted_dropped;
        bounded = rw (queue, cfg) w.bounded;
      }

  flushed-IsConserved :
      (write : List A → ℕ → Option String) (r : Run A)
      → IsConserved r
      → IsConserved (step (flushed write) r)
  unfolding flush_pending
  flushed-IsConserved write r w =
      let f = r.forwarder in
      let lowered : Run A = record r { forwarder = record f { flush_ch = false } } in
      elim (Bool-cases f.flush_ch) [
        | inr idle ↦
            subst
              (λ (b : Bool). IsConserved (
                if b
                then record r {
                  forwarder = flush_pending write f;
                  settled = r.settled ++ f.current_batch;
                  sent = r.sent + sent_by write f;
                }
                else r))
              (sym idle) w
        | inl pending ↦
            rw (pending, flush_pending)
              (flush-IsConserved write lowered (record {
                ordered = w.ordered;
                counted_sent = w.counted_sent;
                counted_dropped = w.counted_dropped;
                bounded = w.bounded;
              }))
      ]

  step-IsConserved : (e : Event A) (r : Run A) → IsConserved r → IsConserved (step e r)
  unfolding trigger_flush
  step-IsConserved (forwarded ts) r w = forwarded-IsConserved ts r w
  step-IsConserved received r w = received-IsConserved r w
  step-IsConserved ticked r w = record {
    ordered = w.ordered;
    counted_sent = w.counted_sent;
    counted_dropped = w.counted_dropped;
    bounded = w.bounded;
  }
  step-IsConserved (flushed write) r w = flushed-IsConserved write r w

  steps-kept : (es : List (Event A)) (r : Run A) → IsConserved r → IsConserved (steps es r)
  steps-kept [] r w = w
  steps-kept (e ∷ es) r w = steps-kept es (step e r) (step-IsConserved e r w)

  -- After every row of events from a new forwarder, the queued series are, in their order, those
  -- handed to the backend, then the current batch, then the channel; the series counted as forwarded
  -- are those of the batches sent, and those counted as dropped are the ones refused, in 64 bits; and
  -- the channel holds at most ten batches.
  pub steps-IsConserved :
      (cfg : BackendConfig) (es : List (Event A)) → IsConserved (steps es (start_run cfg))
  unfolding new_forwarder
  steps-IsConserved cfg es = steps-kept es (start_run cfg) (record {
    ordered = refl;
    counted_sent = omega arith;
    counted_dropped = omega arith;
    bounded = omega arith;
  })

  -- When the worker stops, after any events, the series counted as forwarded are those of the batches
  -- that were sent and, if its sending succeeds, of the current batch, in 64 bits; the current batch
  -- is empty; and the queued series are, in their order, those handed to the backend, the batch
  -- that Stop handed to it, and those that stay in the channel.
  pub stop_leaves_queue :
      (cfg : BackendConfig) (es : List (Event A)) (write : List A → ℕ → Option String)
      → let r = steps es (start_run cfg) in
        let s = stop write r.forwarder in
        (s.metrics.samples_forwarded ≡ (r.sent + sent_by write r.forwarder) % 2 ^ 64)
        × (s.current_batch ≡ [])
        × (r.accepted ≡ (r.settled ++ (r.forwarder).current_batch) ++ s.batch_ch)
  unfolding stop
  stop_leaves_queue cfg es write =
      let r = steps es (start_run cfg) in
      let w = flush-IsConserved write r (steps-IsConserved cfg es) in
      let (emptied, queue, _, _) = flush-empties write r.forwarder in
      (
        w.counted_sent,
        emptied,
        rw (queue) (
            (steps-IsConserved cfg es).ordered
            ∙ sym (append_assoc r.settled (r.forwarder).current_batch (r.forwarder).batch_ch)),
      )
