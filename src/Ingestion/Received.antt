-- ===== src/Ingestion/Received.antt =====
-- pipeline.go: a call of Receive, by its samples and series.
use prom_sketch_distributed.Common.{
  ℕ, String, refl, sym, inl, inr, List, [], ◌∷◌, arith, if◌then◌else◌, length, length-append,
  Result-cases,
}
use prom_sketch_distributed.Insert.Router.{Label}
use prom_sketch_distributed.Insert.Batch.{Sample, TimeSeries}
use prom_sketch_distributed.Storage.{Sketches, insert}
use prom_sketch_distributed.Storage.Rows.{taken, taken-append}
use prom_sketch_distributed.Storage.Accounting.{insert_all}
use prom_sketch_distributed.Forwarder.{forward}
use prom_sketch_distributed.Ingestion.Stats.{add_samples}
use prom_sketch_distributed.Ingestion.{
  Pipeline, prompb_labels_to_labels, forward_series, process_sample, process_samples,
  process_time_series, receive,
}
use prom_sketch_distributed.Ingestion.Counters.{
  series_calls, all_calls, forward_all, queued_samples, length-calls, queued-cons, same_labels,
  IsWord, Counted, Counted-IsWord, Counted-trans, continued, Counted-cast, forward_series-Counted,
}

module _ {S V F : Type 0} (xxhash : String → ℕ) (get : List Label → String → String)
    (lib : Sketches S V) where
  process_sample-Counted :
      (lbls : List Label) (x : Sample V) (p : Pipeline S V F)
      → IsWord p
      → Counted 1
          (taken xxhash get lib ((lbls, x.timestamp, x.sample_value) ∷ []) p.storage)
          0
          (insert xxhash get lib p.storage lbls x.timestamp x.sample_value).0
          p.forwarder
          p
          (process_sample xxhash get lib lbls x p)
  unfolding process_sample add_samples
  process_sample-Counted lbls x p w =
      elim (Result-cases (insert xxhash get lib p.storage lbls x.timestamp x.sample_value).1) [
        | inl (u, e) ↦
            rw (e, process_sample)
              (record {
                stored_all = refl;
                queued = refl;
                counted = refl;
                taken_count = refl;
                queued_count = omega (arith, w.forwarded);
                no_error = refl;
                tracked = refl;
              })
        | inr (e', e) ↦
            rw (e, process_sample)
              (record {
                stored_all = refl;
                queued = refl;
                counted = refl;
                taken_count = omega (arith, w.inserted);
                queued_count = omega (arith, w.forwarded);
                no_error = refl;
                tracked = refl;
              })
      ]

  -- The counts of a first sample and of the rest.
  process_samples-Counted :
      (lbls : List Label) (xs : List (Sample V)) (p : Pipeline S V F)
      → IsWord p
      → Counted
          (length xs)
          (taken xxhash get lib (series_calls lbls xs) p.storage)
          0
          (insert_all xxhash get lib (series_calls lbls xs) p.storage)
          p.forwarder
          p
          (process_samples xxhash get lib lbls xs p)
  unfolding process_samples
  process_samples-Counted lbls [] p w = record {
    stored_all = refl;
    queued = refl;
    counted = omega (arith, w.received);
    taken_count = omega (arith, w.inserted);
    queued_count = omega (arith, w.forwarded);
    no_error = refl;
    tracked = omega (arith, w.tracked);
  }
  process_samples-Counted lbls (x ∷ xs) p w =
      let one = process_sample-Counted lbls x p w in
      let u = process_sample xxhash get lib lbls x p in
      let rest =
        continued (length xs) (taken xxhash get lib (series_calls lbls xs)) (λ f. 0)
          (insert_all xxhash get lib (series_calls lbls xs)) (λ f. f) one.stored_all one.queued
          (process_samples-Counted lbls xs u (Counted-IsWord 1 _ 0 _ _ p u one)) in
      let both =
        taken-append xxhash get lib ((lbls, x.timestamp, x.sample_value) ∷ [])
          (series_calls lbls xs) p.storage in
      Counted-cast (Counted-trans 1 _ 0 (length xs) _ 0 _ _ _ _ p u _ one rest) (omega arith)
        (sym both.0) (omega arith) refl

  -- A call of Receive inserts every sample of every series into the storage, in their order, and hands
  -- every series to the forwarder; it counts each sample as received, and in the tracker, those that
  -- the storage took as inserted, those of a series that found a place in the queue as forwarded, and
  -- no error, whatever the storage and the forwarder answered. The counters are 64-bit words.
  pub receive-Counted :
      (series : List (TimeSeries V)) (p : Pipeline S V F)
      → IsWord p
      → Counted
          (length (all_calls series))
          (taken xxhash get lib (all_calls series) p.storage)
          (queued_samples series p.forwarder)
          (insert_all xxhash get lib (all_calls series) p.storage)
          (forward_all series p.forwarder)
          p
          (receive xxhash get lib p series)
  unfolding receive process_time_series
  receive-Counted [] p w = record {
    stored_all = refl;
    queued = refl;
    counted = omega (arith, w.received);
    taken_count = omega (arith, w.inserted);
    queued_count = omega (arith, w.forwarded);
    no_error = refl;
    tracked = omega (arith, w.tracked);
  }
  receive-Counted (ts ∷ series) p w =
      let calls = series_calls ts.labels ts.samples in
      let u = process_samples xxhash get lib (prompb_labels_to_labels ts.labels) ts.samples p in
      let v = forward_series ts u in
      let first : Counted (length ts.samples) (taken xxhash get lib calls p.storage) 0
          (insert_all xxhash get lib calls p.storage) p.forwarder p u =
        rw (same_labels ts.labels) (process_samples-Counted ts.labels ts.samples p w) in
      let w' = Counted-IsWord _ _ _ _ _ p u first in
      let second =
        continued 0 (λ s. 0) (λ f. if (forward f ts).1 then length ts.samples else 0) (λ s. s)
          (λ f. (forward f ts).0) first.stored_all first.queued (forward_series-Counted ts u w') in
      let one = Counted-trans _ _ _ 0 0 _ _ _ _ _ p u v first second in
      let rest =
        continued (length (all_calls series)) (taken xxhash get lib (all_calls series))
          (queued_samples series) (insert_all xxhash get lib (all_calls series))
          (forward_all series) one.stored_all one.queued
          (receive-Counted series v (Counted-IsWord _ _ _ _ _ p v one)) in
      let (both, _, all) = taken-append xxhash get lib calls (all_calls series) p.storage in
      Counted-cast (Counted-trans _ _ _ _ _ _ _ _ _ _ p v _ one rest)
        (omega (arith, length-append calls (all_calls series), length-calls ts.labels ts.samples))
        (omega (arith, both)) (omega (arith, queued-cons ts series p.forwarder)) (sym all)
