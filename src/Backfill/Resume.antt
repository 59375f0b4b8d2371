-- ===== src/Backfill/Resume.antt =====
-- backfill.go: a backfill that is stopped between two chunks, and resumed from its checkpoint.
use prom_sketch_distributed.Common.{
  ℕ, zero, suc, ◌+◌, ◌≤◌, ◌<◌, String, ◌≡◌, refl, sym, ◌∙◌, ◌⊎◌, inl, inr, List, ◌++◌, arith, ltb,
  Bool-cases, Result,
}
use prom_sketch_distributed.Backfill.{
  LabelMap, Chunk, BackfillCheckpoint, chunk_duration, run_chunks,
}
use prom_sketch_distributed.Backfill.Chunks.{
  after_chunk, run_chunks-step, run_chunks-zero, run_chunks-done,
}

module _ {R E : Type 0} (query_range : String → ℕ → ℕ → ℕ → Result E R)
    (convert_and_send : R → LabelMap → Result E ℕ) where
  abbrev pub run : ℕ → BackfillCheckpoint → ℕ → BackfillCheckpoint × List Chunk
  run = run_chunks query_range convert_and_send

  -- Where the loop is, by the checkpoint: at the end of the last chunk, or past the end.
  At : BackfillCheckpoint → ℕ → Type 0
  At cp current =
      (current ≡ cp.last_chunk_end) ⊎ ((cp.end_time ≤ current) × (cp.end_time ≤ cp.last_chunk_end))

  past_last :
      (cp : BackfillCheckpoint) (current : ℕ)
      → At cp current
      → cp.end_time ≤ current
      → cp.end_time ≤ cp.last_chunk_end
  unfolding At
  past_last cp current (inl same) past = omega (arith, same, past)
  past_last cp current (inr (_, over)) past = over

  run-At :
      (m : ℕ) (cp : BackfillCheckpoint) (current : ℕ)
      → At cp current
      → run m cp current ≡ run m cp cp.last_chunk_end
  unfolding At
  run-At m cp current (inl same) = rw same refl
  run-At m cp current (inr (past, over)) =
      run_chunks-done query_range convert_and_send m cp current past
      ∙ sym (run_chunks-done query_range convert_and_send m cp cp.last_chunk_end over)

  -- The loop after one chunk.
  after_chunk-At :
      (cp : BackfillCheckpoint) (current : ℕ)
      → current < cp.end_time
      → At (after_chunk query_range convert_and_send cp current) (current + chunk_duration)
  unfolding At
  after_chunk-At cp current h = elim (Bool-cases (ltb cp.end_time (current + chunk_duration))) [
    | inl cut ↦ inr (ground (arith, cut), rw cut (omega arith))
    | inr whole ↦ inl (rw whole refl)
  ]

  resumed :
      (k m : ℕ) (cp : BackfillCheckpoint) (current : ℕ)
      → At cp current
      → run (k + m) cp current ≡ (
          let (cp', before) = run k cp current in
          let (cp'', after) = run m cp' cp'.last_chunk_end in (cp'', before ++ after))
  resumed zero m cp current h =
      let none_left : zero + m ≡ m = omega arith in
      rw (none_left, run_chunks-zero query_range convert_and_send cp current)
        (run-At m cp current h)
  resumed (suc k) m cp current h =
      let more : suc k + m ≡ suc (k + m) = omega arith in
      rw more (elim (Bool-cases (ltb current cp.end_time)) [
        | inr past ↦
            let over : cp.end_time ≤ current = ground (arith, past) in
            let last = past_last cp current h over in
            rw
              (
                run_chunks-done query_range convert_and_send (suc (k + m)) cp current over,
                run_chunks-done query_range convert_and_send (suc k) cp current over,
                run_chunks-done query_range convert_and_send m cp cp.last_chunk_end last,
              )
              refl
        | inl before ↦
            let h' : current < cp.end_time = ground (arith, before) in
            let next = current + chunk_duration in
            let cp' = after_chunk query_range convert_and_send cp current in
            rw
              (
                run_chunks-step query_range convert_and_send (k + m) cp current h',
                run_chunks-step query_range convert_and_send k cp current h',
                resumed k m cp' next (after_chunk-At cp current h'),
              )
              refl
      ])

  -- A backfill that is stopped after any number of chunks and resumed from its checkpoint goes
  -- through the same chunks as one that is not stopped, and ends with the same checkpoint.
  pub resume-same :
      (k m : ℕ) (cp : BackfillCheckpoint)
      → run (k + m) cp cp.last_chunk_end ≡ (
          let (cp', before) = run k cp cp.last_chunk_end in
          let (cp'', after) = run m cp' cp'.last_chunk_end in (cp'', before ++ after))
  unfolding At
  resume-same k m cp = resumed k m cp cp.last_chunk_end (inl refl)
