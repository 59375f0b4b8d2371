-- ===== src/Ingestion/Counters.antt =====
-- pipeline.go: what a call of Receive leaves in the storage, in the queue and in the counters.
use prom_sketch_distributed.Common.{
  ℕ, ◌+◌, ◌^◌, ◌<◌, ◌≡◌, refl, sym, ap, ◌∙◌, subst, inl, inr, List, [], ◌∷◌, ◌++◌, arith,
  if◌then◌else◌, Bool-cases, length, ℤ, add_uint64,
}
use prom_sketch_distributed.Insert.Router.{Label}
use prom_sketch_distributed.Insert.Batch.{Sample, TimeSeries}
use prom_sketch_distributed.Storage.{Storage}
use prom_sketch_distributed.Forwarder.{Forwarder, forward}
use prom_sketch_distributed.Ingestion.{Pipeline, prompb_labels_to_labels, forward_series}

module _ {V : Type 0} where
  abbrev pub series_calls : List Label → List (Sample V) → List (List Label × ℤ × V)
  series_calls lbls [] = []
  series_calls lbls (x ∷ xs) = (lbls, x.timestamp, x.sample_value) ∷ series_calls lbls xs

  -- The samples of a request in the order of its series.
  abbrev pub all_calls : List (TimeSeries V) → List (List Label × ℤ × V)
  all_calls [] = []
  all_calls (ts ∷ series) = series_calls ts.labels ts.samples ++ all_calls series

  abbrev pub forward_all : List (TimeSeries V) → Forwarder (TimeSeries V) → Forwarder (TimeSeries V)
  forward_all [] f = f
  forward_all (ts ∷ series) f = forward_all series (forward f ts).0

  -- The number of samples of the series that the forwarder's queue took.
  abbrev pub queued_samples : List (TimeSeries V) → Forwarder (TimeSeries V) → ℕ
  queued_samples [] f = 0
  queued_samples (ts ∷ series) f =
      let rest = queued_samples series (forward f ts).0 in
      if (forward f ts).1 then length ts.samples + rest else rest

pub length-calls :
    {V : Type 0} (lbls : List Label) (xs : List (Sample V))
    → length (series_calls lbls xs) ≡ length xs
length-calls lbls [] = refl
length-calls lbls (x ∷ xs) = omega (arith, length-calls lbls xs)

pub queued-cons :
    {V : Type 0} (ts : TimeSeries V) (series : List (TimeSeries V)) (f : Forwarder (TimeSeries V))
    → queued_samples (ts ∷ series) f
      ≡ (if (forward f ts).1 then length ts.samples else 0) + queued_samples series (forward f ts).0
queued-cons ts series f = ground arith

pub same_labels : (ls : List Label) → prompb_labels_to_labels ls ≡ ls
unfolding prompb_labels_to_labels
same_labels [] = refl
same_labels (l ∷ ls) = ap (λ rest. l ∷ rest) (same_labels ls)

module _ {S V F : Type 0} where
  -- The counters are 64-bit words.
  pub record IsWord (p : Pipeline S V F) : Type 0 where
    pub received : p.metrics.total_samples_received < 2 ^ 64
    pub inserted : p.metrics.sketch_samples_inserted < 2 ^ 64
    pub forwarded : p.metrics.backend_samples_forwarded < 2 ^ 64
    pub tracked : p.ingest_stats.total_samples < 2 ^ 64

  -- A pipeline after `n` samples, `k` of which the storage took, and `q` of which were queued.
  pub record Counted (n k q : ℕ) (storage : Storage S) (fwd : Forwarder (TimeSeries V))
      (p p' : Pipeline S V F) : Type 0 where
    pub stored_all : p'.storage ≡ storage
    pub queued : p'.forwarder ≡ fwd
    pub counted : p'.metrics.total_samples_received ≡ add_uint64 p.metrics.total_samples_received n
    pub taken_count :
        p'.metrics.sketch_samples_inserted ≡ add_uint64 p.metrics.sketch_samples_inserted k
    pub queued_count :
        p'.metrics.backend_samples_forwarded ≡ add_uint64 p.metrics.backend_samples_forwarded q
    pub no_error : p'.metrics.errors ≡ p.metrics.errors
    pub tracked : p'.ingest_stats.total_samples ≡ add_uint64 p.ingest_stats.total_samples n

  pub Counted-IsWord :
      (n k q : ℕ) (storage : Storage S) (fwd : Forwarder (TimeSeries V)) (p p' : Pipeline S V F)
      → Counted n k q storage fwd p p'
      → IsWord p'
  Counted-IsWord n k q storage fwd p p' c = record {
    received = omega (arith, c.counted);
    inserted = omega (arith, c.taken_count);
    forwarded = omega (arith, c.queued_count);
    tracked = omega (arith, c.tracked);
  }

  pub Counted-trans :
      (n k q n' k' q' : ℕ) (st st' : Storage S) (f f' : Forwarder (TimeSeries V))
      (p u v : Pipeline S V F)
      → Counted n k q st f p u
      → Counted n' k' q' st' f' u v
      → Counted (n + n') (k + k') (q + q') st' f' p v
  Counted-trans n k q n' k' q' st st' f f' p u v a b = record {
    stored_all = b.stored_all;
    queued = b.queued;
    counted = omega (arith, a.counted, b.counted);
    taken_count = omega (arith, a.taken_count, b.taken_count);
    queued_count = omega (arith, a.queued_count, b.queued_count);
    no_error = b.no_error ∙ a.no_error;
    tracked = omega (arith, a.tracked, b.tracked);
  }

  -- The counts of what follows, in terms of the storage and the queue that it starts from.
  pub continued :
      (n : ℕ) (k : Storage S → ℕ) (q : Forwarder (TimeSeries V) → ℕ) (g : Storage S → Storage S)
      (h : Forwarder (TimeSeries V) → Forwarder (TimeSeries V)) {st : Storage S}
      {f : Forwarder (TimeSeries V)} {u v : Pipeline S V F}
      → u.storage ≡ st
      → u.forwarder ≡ f
      → Counted n (k u.storage) (q u.forwarder) (g u.storage) (h u.forwarder) u v
      → Counted n (k st) (q f) (g st) (h f) u v
  continued n k q g h {f = f} {u = u} {v = v} a b c =
      subst (λ s. Counted n (k s) (q f) (g s) (h f) u v) a
        (subst (λ x. Counted n (k u.storage) (q x) (g u.storage) (h x) u v) b c)

  pub Counted-cast :
      {n n' k k' q q' : ℕ} {st st' : Storage S} {f : Forwarder (TimeSeries V)}
      {p u : Pipeline S V F}
      → Counted n k q st f p u
      → n ≡ n'
      → k ≡ k'
      → q ≡ q'
      → st ≡ st'
      → Counted n' k' q' st' f p u
  Counted-cast h a b c d = rw (sym a, sym b, sym c, sym d) h

  pub forward_series-Counted :
      (ts : TimeSeries V) (p : Pipeline S V F)
      → IsWord p
      → Counted 0 0
          (if (forward p.forwarder ts).1 then length ts.samples else 0)
          p.storage
          (forward p.forwarder ts).0
          p
          (forward_series ts p)
  unfolding forward_series
  forward_series-Counted ts p w = elim (Bool-cases (forward p.forwarder ts).1) [
    | inl place ↦
        rw (place, forward_series)
          (record {
            stored_all = refl;
            queued = refl;
            counted = omega (arith, w.received);
            taken_count = omega (arith, w.inserted);
            queued_count = refl;
            no_error = refl;
            tracked = omega (arith, w.tracked);
          })
    | inr no_place ↦
        rw (no_place, forward_series)
          (record {
            stored_all = refl;
            queued = refl;
            counted = omega (arith, w.received);
            taken_count = omega (arith, w.inserted);
            queued_count = omega (arith, w.forwarded);
            no_error = refl;
            tracked = omega (arith, w.tracked);
          })
  ]
