-- ===== src/Backfill/Chunks.antt =====
-- backfill.go: the chunks that a backfill goes through, and what its checkpoint says at the end.
use prom_sketch_distributed.Common.{
  ℕ, zero, suc, ◌+◌, ◌*◌, ◌≤◌, ◌<◌, String, ◌≡◌, refl, sym, inl, inr, true, false, List, [], ◌∷◌,
  arith, ltb, if◌then◌else◌, Bool-cases, length, Result,
}
use prom_sketch_distributed.Backfill.{
  LabelMap, Chunk, BackfillCheckpoint, chunk_duration, total_chunks, backfill_series,
  backfill_chunk, run_chunks,
}

-- The chunks lie end to end from `a` to `b`, and none is empty or longer than an hour.
abbrev pub Tiles : ℕ → ℕ → List Chunk → Type 0
Tiles a b [] = b ≤ a
Tiles a b ((start, end) ∷ rest) =
    (start ≡ a) × (start < end) × (end ≤ b) × (end ≤ start + chunk_duration) × Tiles end b rest

total_chunks-next :
    (a b : ℕ) → a + chunk_duration < b → total_chunks a b ≡ total_chunks (a + chunk_duration) b + 1
unfolding total_chunks
total_chunks-next a b h = ground arith

total_chunks-one : (a b : ℕ) → a < b → b ≤ a + chunk_duration → total_chunks a b ≡ 1
unfolding total_chunks
total_chunks-one a b h k = ground arith

total_chunks-none : (a b : ℕ) → b ≤ a → total_chunks a b ≡ 0
unfolding total_chunks
total_chunks-none a b h = ground arith

module _ {R E : Type 0} (query_range : String → ℕ → ℕ → ℕ → Result E R)
    (convert_and_send : R → LabelMap → Result E ℕ) where
  abbrev pub samples_of : List LabelMap → List Chunk → ℕ
  samples_of series [] = 0
  samples_of series ((start, end) ∷ rest) =
      backfill_series query_range convert_and_send series start end 0 + samples_of series rest

  -- The checkpoint after a chunk.
  abbrev pub after_chunk : BackfillCheckpoint → ℕ → BackfillCheckpoint
  after_chunk cp current =
      let next = current + chunk_duration in
      let chunk_end = if ltb cp.end_time next then cp.end_time else next in
      record cp {
        total_samples =
            cp.total_samples
            + backfill_series query_range convert_and_send cp.series current chunk_end 0;
        last_chunk_end = chunk_end;
        chunks_completed = cp.chunks_completed + 1;
      }

  abbrev pub chunk_at : BackfillCheckpoint → ℕ → Chunk
  chunk_at cp current =
      let next = current + chunk_duration in
      (current, if ltb cp.end_time next then cp.end_time else next)

  pub run_chunks-step :
      (fuel : ℕ) (cp : BackfillCheckpoint) (current : ℕ)
      → current < cp.end_time
      → run_chunks query_range convert_and_send (suc fuel) cp current ≡ (
          let (cp', rest) =
            run_chunks query_range convert_and_send fuel
              (after_chunk cp current)
              (current + chunk_duration) in
          (cp', chunk_at cp current ∷ rest))
  unfolding run_chunks backfill_chunk
  run_chunks-step fuel cp current h =
      let before : ltb current cp.end_time ≡ true = ground (arith, h) in
      rw (before, run_chunks) refl

  pub run_chunks-zero :
      (cp : BackfillCheckpoint) (current : ℕ)
      → run_chunks query_range convert_and_send zero cp current ≡ (cp, [])
  unfolding run_chunks
  run_chunks-zero cp current = refl

  pub run_chunks-done :
      (fuel : ℕ) (cp : BackfillCheckpoint) (current : ℕ)
      → cp.end_time ≤ current
      → run_chunks query_range convert_and_send fuel cp current ≡ (cp, [])
  unfolding run_chunks
  run_chunks-done zero cp current h = refl
  run_chunks-done (suc fuel) cp current h =
      let past : ltb current cp.end_time ≡ false = ground (arith, h) in rw (past, run_chunks) refl

  -- A run from `current` that has gone to the end.
  pub record Complete (cp : BackfillCheckpoint) (current : ℕ) (r : BackfillCheckpoint × List Chunk)
      : Type 0 where
    pub tiled : Tiles current cp.end_time r.1
    pub hours : length r.1 ≡ total_chunks current cp.end_time
    pub completed : r.0.chunks_completed ≡ cp.chunks_completed + length r.1
    pub summed : r.0.total_samples ≡ cp.total_samples + samples_of cp.series r.1
    pub reached : current < cp.end_time → r.0.last_chunk_end ≡ cp.end_time
    pub no_errors : r.0.total_errors ≡ cp.total_errors

  done-Complete :
      (cp : BackfillCheckpoint) (current : ℕ) → cp.end_time ≤ current → Complete cp current (cp, [])
  done-Complete cp current h = record {
    tiled = h;
    hours = sym (total_chunks-none current cp.end_time h);
    completed = omega arith;
    summed = omega arith;
    reached = λ k. absurd (omega (arith, h, k));
    no_errors = refl;
  }

  last-Complete :
      (cp : BackfillCheckpoint) (current : ℕ)
      → current < cp.end_time
      → cp.end_time ≤ current + chunk_duration
      → Complete cp current (after_chunk cp current, chunk_at cp current ∷ [])
  last-Complete cp current h k =
      let cut : (if ltb cp.end_time (current + chunk_duration)
            then cp.end_time
            else current + chunk_duration)
          ≡ cp.end_time =
        ground (arith, k) in
      record {
        tiled = rw cut (refl, h, omega arith, k, omega arith);
        hours = sym (total_chunks-one current cp.end_time h k);
        completed = omega arith;
        summed = omega arith;
        reached = λ _. cut;
        no_errors = refl;
      }

  next-Complete :
      (cp : BackfillCheckpoint) (current : ℕ) (r : BackfillCheckpoint × List Chunk)
      → current + chunk_duration < cp.end_time
      → Complete (after_chunk cp current) (current + chunk_duration) r
      → Complete cp current (r.0, chunk_at cp current ∷ r.1)
  next-Complete cp current r h w =
      let whole : (if ltb cp.end_time (current + chunk_duration)
            then cp.end_time
            else current + chunk_duration)
          ≡ current + chunk_duration =
        ground (arith, h) in
      record {
        tiled = rw whole (refl, omega arith, omega (arith, h), omega arith, w.tiled);
        hours = omega (arith, w.hours, total_chunks-next current cp.end_time h);
        completed = omega (arith, w.completed);
        summed = omega (arith, w.summed);
        reached = λ _. w.reached h;
        no_errors = w.no_errors;
      }

  -- With one round for each hour that is left, the loop goes to the end: the chunks lie end to end
  -- from where it starts to the end of the backfill, none empty or longer than an hour, as many as
  -- the hours between the two, a last part of an hour counted as one; the checkpoint counts each of
  -- them and the samples that they sent, says that the end is reached if the loop starts before it,
  -- and counts no error, whatever the backend and the target answered.
  pub run_chunks-Complete :
      (fuel : ℕ) (cp : BackfillCheckpoint) (current : ℕ)
      → cp.end_time ≤ current + fuel * chunk_duration
      → Complete cp current (run_chunks query_range convert_and_send fuel cp current)
  run_chunks-Complete zero cp current h =
      rw (run_chunks-done zero cp current (omega (arith, h)))
        (done-Complete cp current (omega (arith, h)))
  run_chunks-Complete (suc fuel) cp current h =
      let next = current + chunk_duration in
      elim (Bool-cases (ltb current cp.end_time)) [
        | inr past ↦
            rw (run_chunks-done (suc fuel) cp current (ground (arith, past)))
              (done-Complete cp current (ground (arith, past)))
        | inl before ↦
            let h' : current < cp.end_time = ground (arith, before) in
            rw (run_chunks-step fuel cp current h') (elim (Bool-cases (ltb next cp.end_time)) [
              | inl more ↦
                  next-Complete cp current _ (ground (arith, more))
                    (run_chunks-Complete fuel (after_chunk cp current) next (omega (arith, h)))
              | inr last ↦
                  rw (run_chunks-done fuel (after_chunk cp current) next (ground (arith, last)))
                    (last-Complete cp current h' (ground (arith, last)))
            ])
      ]
