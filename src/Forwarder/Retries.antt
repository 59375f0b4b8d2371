-- ===== src/Forwarder/Retries.antt =====
-- forwarder.go: sendBatch.
use prom_sketch_distributed.Common.{
  ℕ, zero, suc, ◌+◌, ◌≤◌, ◌<◌, String, ◌≡◌, refl, sym, ap, ◌∙◌, ◌↔◌, inl, inr, Option, none, some,
  arith, ◌==◌, ==_iff, Bool-cases, Option-cases, Result, ok, err, Result-cases,
}
use prom_sketch_distributed.Forwarder.{SendError, failed_after, send_attempts, send_batch}

later_index :
    (write : ℕ → Option String) (attempt i : ℕ) (x : String)
    → write attempt ≡ some x
    → attempt ≤ i
    → write i ≡ none
    → suc attempt ≤ i
later_index write attempt i x e low w = elim (Bool-cases (attempt == i)) [
  | inl q ↦
      let same : attempt ≡ i = (==_iff attempt i).0 q in
      (let clash : none ≡ some x = sym w ∙ ap write (sym same) ∙ e in cc)
  | inr q ↦ ground (arith, low, q)
]

attempts_iff :
    (write : ℕ → Option String) (left attempt : ℕ) (last_err : Option String)
    → (send_attempts left attempt write last_err ≡ ok tt)
      ↔ ((i : ℕ) × (attempt ≤ i) × (i < attempt + left) × (write i ≡ none))
unfolding send_attempts
attempts_iff write zero attempt last_err =
    (λ h. cc, λ (i, low, high, w). absurd (omega (arith, low, high)))
attempts_iff write (suc left) attempt last_err = elim (Option-cases (write attempt)) [
  | inl e ↦ (λ h. (attempt, omega arith, omega arith, e), λ h. rw (e, send_attempts) refl)
  | inr (x, e) ↦
      let later = attempts_iff write left (suc attempt) (some x) in
      (
        λ h.
            let (i, low, high, w) = later.0 (rw (e, send_attempts) at h) in
            (i, omega (arith, low), omega (arith, high), w),
        λ (i, low, high, w).
            rw (e, send_attempts)
              (later.1 (i, later_index write attempt i x e low w, omega (arith, high), w)),
      )
]

-- A batch is sent exactly when one of the attempts that the configuration allows succeeds; so with
-- no attempt allowed no batch ever is.
pub send_batch_iff :
    (max_retries : ℕ) (write : ℕ → Option String)
    → (send_batch max_retries write ≡ ok tt) ↔ ((i : ℕ) × (i < max_retries) × (write i ≡ none))
unfolding send_batch
send_batch_iff max_retries write =
    let all = attempts_iff write max_retries 0 none in
    elim (Result-cases (send_attempts max_retries 0 write none)) [
      | inl (u, e) ↦ (
        λ h. let (i, _, high, w) = all.0 e in (i, omega (arith, high), w),
        λ h. rw (e, send_batch) refl,
      )
      | inr (x, e) ↦ (
        λ h.
            let h' : ◌≡◌ {A = Result SendError (Unit {0})} (err (failed_after max_retries x))
                (ok tt) =
              rw (e, send_batch) at h in
            cc,
        λ (i, high, w). let h' = all.1 (i, omega arith, omega (arith, high), w) in cc,
      )
    ]
