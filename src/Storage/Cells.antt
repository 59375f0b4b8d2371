-- ===== src/Storage/Cells.antt =====
-- The partitions of a node's range in its list of partitions, by their index.
use prom_sketch_distributed.Common.{
  ◌-ℤ◌, ℕ, zero, suc, ◌<◌, ◌≡◌, refl, ◌≢◌, false, some, List, [], ◌∷◌, arith, get_elem?, ℤ, pos,
  pos_part,
}
use prom_sketch_distributed.Storage.{replicate, set_at}
use prom_sketch_distributed.Storage.Spec.{outside}

module _ {S : Type 0} where
  pub set_at-same :
      (i : ℕ) (x y : S) (xs : List S)
      → get_elem? xs i ≡ some y
      → get_elem? (set_at i x xs) i ≡ some x
  set_at-same i x y [] h = cc
  set_at-same zero x y (z ∷ xs) h = refl
  set_at-same (suc i) x y (z ∷ xs) h = set_at-same i x y xs h

  pub set_at-other :
      (i j : ℕ) (x : S) (xs : List S) → i ≢ j → get_elem? (set_at i x xs) j ≡ get_elem? xs j
  set_at-other i j x [] h = refl
  set_at-other zero zero x (z ∷ xs) h = absurd (h refl)
  set_at-other zero (suc j) x (z ∷ xs) h = refl
  set_at-other (suc i) zero x (z ∷ xs) h = refl
  set_at-other (suc i) (suc j) x (z ∷ xs) h = set_at-other i j x xs (λ e. h (omega (arith, e)))

  pub replicate-get : (n i : ℕ) (x : S) → i < n → get_elem? (replicate n x) i ≡ some x
  replicate-get zero i x h = absurd (omega (arith, h))
  replicate-get (suc n) zero x h = refl
  replicate-get (suc n) (suc i) x h = replicate-get n i x (omega (arith, h))

pub other_index :
    (a b : ℤ) (k j : ℕ)
    → outside a b k ≡ false
    → outside a b j ≡ false
    → k ≢ j
    → pos_part (pos k -ℤ a) ≢ pos_part (pos j -ℤ a)
unfolding ◌-ℤ◌
other_index a b k j hk hj h e = h (ground (arith, hk, hj, e))

pub inside_index :
    (a b : ℤ) (k : ℕ) → outside a b k ≡ false → pos_part (pos k -ℤ a) < pos_part (b -ℤ a)
unfolding ◌-ℤ◌
inside_index a b k h = ground (arith, h)
