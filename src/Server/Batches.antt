-- ===== src/Server/Batches.antt =====
-- grpc.go, BatchInsert, against the row of inserts that its two loops make.
use prom_sketch_distributed.Common.{
  ℕ, ◌+◌, String, ◌≡◌, refl, ◌∙◌, ◌≢◌, ◌↔◌, inl, inr, Option, none, some, List, [], ◌∷◌, ◌++◌,
  arith, ltb, if◌then◌else◌, Bool-cases, length, ℤ, Result, ok, err, is_ok,
}
use prom_sketch_distributed.Insert.Router.{Label}
use prom_sketch_distributed.Insert.Batch.{Sample, TimeSeries}
use prom_sketch_distributed.Storage.{
  Sketches, Storage, StorageError, not_owned, memory_limit_exceeded, insert_failed, eval_failed,
  index_out_of_range, insert,
}
use prom_sketch_distributed.Storage.Rows.{taken, refused, taken-refused, taken-append}
use prom_sketch_distributed.Storage.Accounting.{
  IsSound, insert-IsSound, insert_all, insert_all-kept,
}
use prom_sketch_distributed.Server.{
  SketchServer, BatchInsertResponse, pb_labels_to_prom_labels, tally, insert_samples, insert_series,
  handle_batch_insert,
}
use prom_sketch_distributed.Storage.Bounds.{insert-in_range}

module _ {V : Type 0} (new_labels : List Label → List Label) where
  abbrev pub calls_for : List Label → List (Sample V) → List (List Label × ℤ × V)
  calls_for lbls [] = []
  calls_for lbls (x ∷ xs) = (lbls, x.timestamp, x.sample_value) ∷ calls_for lbls xs

  -- The samples of a batch in the order of its series.
  abbrev pub calls_of : List (TimeSeries V) → List (List Label × ℤ × V)
  calls_of [] = []
  calls_of (ts ∷ series) =
      calls_for (pb_labels_to_prom_labels new_labels ts.labels) ts.samples ++ calls_of series

same_outcome :
    {S : Type 0} (s : Storage S) {i i' f f' : ℕ}
    → i ≡ i'
    → f ≡ f'
    → ◌≡◌ {A = Option (Storage S × ℕ × ℕ)} (some (s, i, f)) (some (s, i', f'))
same_outcome s p q = rw (p, q) refl

module _ {S V : Type 0} (xxhash : String → ℕ) (get : List Label → String → String)
    (lib : Sketches S V) where
  module _ (new_labels : List Label → List Label) (error_text : StorageError → String) where
    tally-taken :
        (r : Result StorageError (Unit {0})) (i f : ℕ)
        → r ≢ err index_out_of_range
        → tally r (i, f) ≡ some (if is_ok r then (i + 1, f) else (i, f + 1))
    unfolding tally
    tally-taken (ok u) i f h = refl
    tally-taken (err index_out_of_range) i f h = absurd (h refl)
    tally-taken (err (not_owned p start end)) i f h = refl
    tally-taken (err (memory_limit_exceeded used limit)) i f h = refl
    tally-taken (err (insert_failed e)) i f h = refl
    tally-taken (err (eval_failed g e)) i f h = refl

    insert_samples-step :
        (lbls : List Label) (x : Sample V) (xs : List (Sample V)) (s : Storage S) (i f i' f' : ℕ)
        → tally (insert xxhash get lib s lbls x.timestamp x.sample_value).1 (i, f) ≡ some (i', f')
        → insert_samples xxhash get lib new_labels error_text lbls (x ∷ xs) (s, i, f)
          ≡ insert_samples xxhash get lib new_labels error_text lbls xs
              ((insert xxhash get lib s lbls x.timestamp x.sample_value).0, i', f')
    unfolding insert_samples
    insert_samples-step lbls x xs s i f i' f' e = rw (e, insert_samples) refl

    insert_samples-taken :
        (lbls : List Label) (xs : List (Sample V)) (s : Storage S) (i f : ℕ)
        → IsSound s
        → insert_samples xxhash get lib new_labels error_text lbls xs (s, i, f)
          ≡ some (
            insert_all xxhash get lib (calls_for new_labels lbls xs) s,
            i + taken xxhash get lib (calls_for new_labels lbls xs) s,
            f + refused xxhash get lib (calls_for new_labels lbls xs) s,
          )
    unfolding insert_samples
    insert_samples-taken lbls [] s i f w = same_outcome s (omega arith) (omega arith)
    insert_samples-taken lbls (x ∷ xs) s i f w =
        let r = insert xxhash get lib s lbls x.timestamp x.sample_value in
        let counted =
          tally-taken r.1 i f
            (insert-in_range xxhash get lib s lbls x.timestamp x.sample_value w) in
        let w' = insert-IsSound xxhash get lib s lbls x.timestamp x.sample_value w in
        elim (Bool-cases (is_ok r.1)) [
          | inl good ↦
              insert_samples-step lbls x xs s i f (i + 1) f (rw good at counted)
              ∙ rw good (
                  insert_samples-taken lbls xs r.0 (i + 1) f w'
                  ∙ same_outcome _ (omega arith) (omega arith))
          | inr bad ↦
              insert_samples-step lbls x xs s i f i (f + 1) (rw bad at counted)
              ∙ rw bad (
                  insert_samples-taken lbls xs r.0 i (f + 1) w'
                  ∙ same_outcome _ (omega arith) (omega arith))
        ]

    insert_series-taken :
        (series : List (TimeSeries V)) (s : Storage S) (i f : ℕ)
        → IsSound s
        → insert_series xxhash get lib new_labels error_text series (s, i, f)
          ≡ some (
            insert_all xxhash get lib (calls_of new_labels series) s,
            i + taken xxhash get lib (calls_of new_labels series) s,
            f + refused xxhash get lib (calls_of new_labels series) s,
          )
    unfolding insert_series
    insert_series-taken [] s i f w = same_outcome s (omega arith) (omega arith)
    insert_series-taken (ts ∷ series) s i f w =
        let lbls = pb_labels_to_prom_labels new_labels ts.labels in
        let calls = calls_for new_labels lbls ts.samples in
        let (a, b, c) = taken-append xxhash get lib calls (calls_of new_labels series) s in
        rw (insert_samples-taken lbls ts.samples s i f w, insert_series)
          (insert_series-taken series (insert_all xxhash get lib calls s)
              (i + taken xxhash get lib calls s) (f + refused xxhash get lib calls s)
              (insert_all-kept xxhash get lib calls s w)
            ∙ rw (a, b, c) (same_outcome _ (omega arith) (omega arith)))

    -- The storage's invariant is enough for a batch to be answered: the storage is then as after the
    -- inserts of its samples in their order, the response counts each sample once, as inserted if
    -- the storage took it and as failed if not, and it has an error exactly when one failed.
    pub handle_batch_insert-insert_all :
        (s : SketchServer S) (series : List (TimeSeries V))
        → IsSound s.storage
        → let calls = calls_of new_labels series in
          (response : BatchInsertResponse) × (handle_batch_insert xxhash get lib new_labels
              error_text s series
            ≡ some (record s { storage = insert_all xxhash get lib calls s.storage }, response))
          × (response.inserted ≡ taken xxhash get lib calls s.storage)
          × (response.inserted + response.failed ≡ length calls)
          × ((response.failed_text ≡ none) ↔ (response.failed ≡ 0))
    unfolding handle_batch_insert
    handle_batch_insert-insert_all s series w =
        let calls = calls_of new_labels series in
        let f = 0 + refused xxhash get lib calls s.storage in
        (
          record {
            inserted = 0 + taken xxhash get lib calls s.storage;
            failed = f;
            failed_text = if ltb 0 f then some f else none;
          },
          rw (insert_series-taken series s.storage 0 0 w, handle_batch_insert) refl,
          omega arith,
          omega (arith, taken-refused xxhash get lib calls s.storage),
          ground arith,
        )
