-- ===== src/Latency/Ring.antt =====
-- quantile.go: one observation in the ring buffer.
use prom_sketch_distributed.Common.{
  ℕ, zero, suc, ◌+◌, ◌-◌, ◌≤◌, ◌<◌, ◌≡◌, refl, sym, ap, ◌∙◌, inl, inr, List, [], ◌∷◌, ◌++◌,
  append-nil, append_assoc, arith, leb, if◌then◌else◌, Bool-cases, length, take, drop,
}
use prom_sketch_distributed.Latency.{QuantileTracker, store, observe}

module _ {F : Type 0} where
  -- The observations in the order in which they came.
  abbrev pub window : QuantileTracker F → List F
  window q = if q.full then drop q.pos q.buf ++ take q.pos q.buf else take q.pos q.buf

  pub length-store : (i : ℕ) (v : F) (xs : List F) → length (store i v xs) ≡ length xs
  length-store i v [] = refl
  length-store zero v (x ∷ xs) = refl
  length-store (suc i) v (x ∷ xs) = ap (λ (n : ℕ). suc n) (length-store i v xs)

  -- Storing at i puts v between the elements before i and those after it.
  take-store :
      (i : ℕ) (v : F) (xs : List F)
      → i < length xs
      → take (suc i) (store i v xs) ≡ take i xs ++ v ∷ []
  take-store i v [] h = absurd (omega (arith, h))
  take-store zero v (x ∷ xs) h = refl
  take-store (suc i) v (x ∷ xs) h = ap (λ t. x ∷ t) (take-store i v xs (omega (arith, h)))

  drop-store :
      (i : ℕ) (v : F) (xs : List F)
      → i < length xs
      → drop (suc i) (store i v xs) ≡ drop 1 (drop i xs)
  drop-store i v [] h = absurd (omega (arith, h))
  drop-store zero v (x ∷ xs) h = refl
  drop-store (suc i) v (x ∷ xs) h = drop-store i v xs (omega (arith, h))

  take_all : (n : ℕ) (xs : List F) → length xs ≤ n → take n xs ≡ xs
  take_all zero [] h = refl
  take_all (suc n) [] h = refl
  take_all zero (x ∷ xs) h = absurd (omega (arith, h))
  take_all (suc n) (x ∷ xs) h = ap (λ t. x ∷ t) (take_all n xs (omega (arith, h)))

  pub drop_all : (n : ℕ) (xs : List F) → length xs ≤ n → drop n xs ≡ []
  drop_all zero [] h = refl
  drop_all (suc n) [] h = refl
  drop_all zero (x ∷ xs) h = absurd (omega (arith, h))
  drop_all (suc n) (x ∷ xs) h = drop_all n xs (omega (arith, h))

  pub drop-append : (n : ℕ) (xs ys : List F) → n ≤ length xs → drop n (xs ++ ys) ≡ drop n xs ++ ys
  drop-append zero xs ys h = refl
  drop-append (suc n) [] ys h = absurd (omega (arith, h))
  drop-append (suc n) (x ∷ xs) ys h = drop-append n xs ys (omega (arith, h))

  length-drop : (n : ℕ) (xs : List F) → length (drop n xs) ≡ length xs - n
  length-drop zero xs = omega arith
  length-drop (suc n) [] = omega arith
  length-drop (suc n) (x ∷ xs) = length-drop n xs ∙ omega arith

  pub drop_one : (k : ℕ) (xs : List F) → drop 1 (drop k xs) ≡ drop (suc k) xs
  drop_one zero xs = refl
  drop_one (suc k) [] = refl
  drop_one (suc k) (x ∷ xs) = drop_one k xs

  -- The buffer at the end of a round.
  store_last :
      (i : ℕ) (v : F) (xs : List F) → length xs ≡ suc i → store i v xs ≡ take i xs ++ v ∷ []
  store_last i v xs h =
      sym (take_all (suc i) (store i v xs) (omega (arith, h, length-store i v xs)))
      ∙ take-store i v xs (omega (arith, h))

  -- The whole of a full ring, after the oldest observation has made room for `v`.
  slide :
      (i : ℕ) (v : F) (xs : List F)
      → i < length xs
      → drop 1 (drop i xs) ++ (take i xs ++ v ∷ []) ≡ drop 1 (drop i xs ++ take i xs) ++ v ∷ []
  slide i v xs h =
      sym (append_assoc (drop 1 (drop i xs)) (take i xs) (v ∷ []))
      ∙ ap (λ (t : List F). t ++ v ∷ [])
          (sym (drop-append 1 (drop i xs) (take i xs) (omega (arith, h, length-drop i xs))))

  -- An observation joins the window at its end; if the ring was full, the oldest one leaves.
  pub observe-window :
      (v : F) (q : QuantileTracker F)
      → q.pos < length q.buf
      → window (observe v q) ≡ (if q.full then drop 1 (window q) else window q) ++ v ∷ []
  unfolding observe
  observe-window v q h =
      let i = q.pos in
      let xs = q.buf in
      let next : q.pos + 1 ≡ suc q.pos = omega arith in
      elim (Bool-cases (leb (length q.buf) (q.pos + 1))) [
        | inr early ↦ elim (Bool-cases q.full) [
          | inr part ↦ rw (early, observe) (rw (part, next) (take-store i v xs h))
          | inl whole ↦
              rw (early, observe)
                (rw (whole, next) (rw (drop-store i v xs h, take-store i v xs h) (slide i v xs h)))
        ]
        | inl due ↦
            let ends : length q.buf ≡ suc q.pos = ground (arith, due, h) in
            let stored = append-nil (store i v xs) ∙ store_last i v xs ends in
            elim (Bool-cases q.full) [
              | inr part ↦ rw (due, observe) (rw part stored)
              | inl whole ↦
                  let gone : drop 1 (drop q.pos q.buf) ≡ [] =
                    sym (drop-store i v xs h)
                    ∙ drop_all (suc i) (store i v xs) (omega (arith, ends, length-store i v xs)) in
                  rw (due, observe)
                    (rw whole (
                      stored
                      ∙ ap (λ (t : List F). t ++ (take i xs ++ v ∷ [])) (sym gone)
                      ∙ slide i v xs h))
            ]
      ]
