-- ===== src/Latency/Window.antt =====
-- quantile.go: the observations that a quantile is taken of.
use prom_sketch_distributed.Common.{
  ℕ, zero, suc, ◌+◌, ◌-◌, ◌≤◌, ◌<◌, min, ◌≡◌, refl, sym, ap, ◌∙◌, subst, ◌⊎◌, inl, inr, true, false,
  List, [], ◌∷◌, ◌++◌, append-nil, append_assoc, arith, leb, Bool-cases, length, take, drop,
  take-append-drop, length-append,
}
use prom_sketch_distributed.Latency.{
  QuantileTracker, filled, new_quantile_tracker, observe, observed, get_count,
}
use prom_sketch_distributed.Latency.Ring.{
  window, length-store, drop_all, drop-append, drop_one, observe-window,
}
use mathlib.Core.List.{Perm, perm_append_comm}
use mathlib.Core.List.Perm

module _ {F : Type 0} where
  -- The ring holds the latest observations of all those that it has seen.
  pub record Holds (size : ℕ) (seen : List F) (q : QuantileTracker F) : Type 0 where
    pub sized : length q.buf ≡ size
    pub inside : q.pos < size
    pub latest : window q ≡ drop (length seen - size) seen
    pub phase :
        ((q.full ≡ true) × (size ≤ length seen)) ⊎ ((q.full ≡ false) × (length seen ≡ q.pos))

  observe-sized :
      (v : F) (q : QuantileTracker F)
      → q.pos < length q.buf
      → (length (observe v q).buf ≡ length q.buf) × ((observe v q).pos < length q.buf)
  unfolding observe
  observe-sized v q h = elim (Bool-cases (leb (length q.buf) (q.pos + 1))) [
    | inl due ↦ rw (due, observe) (length-store q.pos v q.buf, omega (arith, h))
    | inr early ↦ rw (early, observe) (length-store q.pos v q.buf, ground (arith, early))
  ]

  observe-phase :
      (size : ℕ) (seen : List F) (v : F) (q : QuantileTracker F)
      → Holds size seen q
      → (((observe v q).full ≡ true) × (size ≤ length (seen ++ v ∷ [])))
        ⊎ (((observe v q).full ≡ false) × (length (seen ++ v ∷ []) ≡ (observe v q).pos))
  unfolding observe
  observe-phase size seen v q w = elim (Bool-cases (leb (length q.buf) (q.pos + 1))) [
    | inl due ↦
        rw (due, observe)
          (inl (
            refl,
            elim w.phase [
              | inl (f, l) ↦ omega (arith, l, length-append seen (v ∷ []))
              | inr (f, l) ↦ ground (arith, l, due, w.sized, length-append seen (v ∷ []))
            ],
          ))
    | inr early ↦
        rw (early, observe)
          (elim w.phase [
            | inl (f, l) ↦ inl (f, omega (arith, l, length-append seen (v ∷ [])))
            | inr (f, l) ↦ inr (f, omega (arith, l, length-append seen (v ∷ [])))
          ])
  ]

  observe-latest :
      (size : ℕ) (seen : List F) (v : F) (q : QuantileTracker F)
      → Holds size seen q
      → q.pos < length q.buf
      → window (observe v q) ≡ drop (length (seen ++ v ∷ []) - size) (seen ++ v ∷ [])
  observe-latest size seen v q w inside =
      let k = length seen - size in
      let longer = length-append seen (v ∷ []) in
      elim w.phase [
        | inl (f, l) ↦
            let slid : window (observe v q) ≡ drop 1 (window q) ++ v ∷ [] =
              observe-window v q inside ∙ rw f refl in
            let start : suc k ≡ length (seen ++ v ∷ []) - size = omega (arith, l, longer) in
            slid
            ∙ ap (λ (t : List F). drop 1 t ++ v ∷ []) w.latest
            ∙ ap (λ (t : List F). t ++ v ∷ []) (drop_one k seen)
            ∙ sym (drop-append (suc k) seen (v ∷ []) (omega (arith, l, w.inside)))
            ∙ ap (λ (n : ℕ). drop n (seen ++ v ∷ [])) start
        | inr (f, l) ↦
            let joined : window (observe v q) ≡ window q ++ v ∷ [] =
              observe-window v q inside ∙ rw f refl in
            let start : k ≡ length (seen ++ v ∷ []) - size = omega (arith, l, longer, w.inside) in
            joined
            ∙ ap (λ (t : List F). t ++ v ∷ []) w.latest
            ∙ sym (drop-append k seen (v ∷ []) (omega arith))
            ∙ ap (λ (n : ℕ). drop n (seen ++ v ∷ [])) start
      ]

  observe-Holds :
      (size : ℕ) (seen : List F) (v : F) (q : QuantileTracker F)
      → Holds size seen q
      → Holds size (seen ++ v ∷ []) (observe v q)
  observe-Holds size seen v q w =
      let inside : q.pos < length q.buf = omega (arith, w.inside, w.sized) in
      let (kept, within) = observe-sized v q inside in
      record {
        sized = kept ∙ w.sized;
        inside = omega (arith, within, w.sized);
        latest = observe-latest size seen v q w inside;
        phase = observe-phase size seen v q w;
      }

  abbrev pub observe_all : List F → QuantileTracker F → QuantileTracker F
  observe_all [] q = q
  observe_all (v ∷ vs) q = observe_all vs (observe v q)

  observe_all-from :
      (size : ℕ) (seen vs : List F) (q : QuantileTracker F)
      → Holds size seen q
      → Holds size (seen ++ vs) (observe_all vs q)
  observe_all-from size seen [] q w = rw (append-nil seen) w
  observe_all-from size seen (v ∷ vs) q w =
      subst (λ (t : List F). Holds size t (observe_all vs (observe v q)))
        (append_assoc seen (v ∷ []) vs)
        (observe_all-from size (seen ++ v ∷ []) vs (observe v q) (observe-Holds size seen v q w))

  length-filled : (n : ℕ) (x : F) → length (filled n x) ≡ n
  length-filled zero x = refl
  length-filled (suc n) x = ap (λ (k : ℕ). suc k) (length-filled n x)

  observed-Holds :
      (size : ℕ) (seen : List F) (q : QuantileTracker F)
      → Holds size seen q
      → Perm (observed q) (drop (length seen - size) seen) × (get_count q ≡ min size (length seen))
  unfolding observed get_count
  observed-Holds size seen q w = elim w.phase [
    | inl (whole, l) ↦
        let turned : drop q.pos q.buf ++ take q.pos q.buf ≡ drop (length seen - size) seen =
          sym (rw whole refl) ∙ w.latest in
        (
          subst (λ (t : List F). Perm (observed q) t) turned
              (rw whole (
                subst (λ (t : List F). Perm t (drop q.pos q.buf ++ take q.pos q.buf))
                  (take-append-drop q.pos q.buf)
                  (perm_append_comm (take q.pos q.buf) (drop q.pos q.buf)))),
          rw whole (omega (arith, l, w.sized)),
        )
    | inr (part, l) ↦ (
      subst (λ (t : List F). Perm (observed q) t) w.latest (rw part (Perm.refl (take q.pos q.buf))),
      rw part (omega (arith, l, w.inside)),
    )
  ]

  -- After any observations, a tracker with a positive window size holds the latest ones: those that
  -- Quantile sorts are the last `size` observations, up to their order, and Count is their number.
  pub observed-latest :
      (zero_value : F) (size : ℕ) (vs : List F)
      → 0 < size
      → let q = observe_all vs (new_quantile_tracker zero_value size) in
        Perm (observed q) (drop (length vs - size) vs) × (get_count q ≡ min size (length vs))
  unfolding new_quantile_tracker observed get_count
  observed-latest zero_value size vs h =
      let q = observe_all vs (new_quantile_tracker zero_value size) in
      let w : Holds size vs q =
        observe_all-from size [] vs (new_quantile_tracker zero_value size) (record {
          sized = length-filled size zero_value;
          inside = h;
          latest = sym (drop_all (0 - size) [] (omega arith));
          phase = inr (refl, refl);
        }) in
      observed-Holds size vs q w
