-- ===== src/Common/Counts.antt =====
-- How many elements of a list pass a test, and Go's 64-bit counters.
use prom_sketch_distributed.Common.Tests.{if◌then◌else◌, Bool-cases}
use prom_sketch_distributed.Common.Lists.{length, All, Elem}
use mathlib.Core.Logic.{∥∥₁_elim}
use mathlib.Core.List.{Perm, Permᴰ}
use native.Mathlib.Nat.{ℕ_set}
use Prim.Native.Nat.{ℕ, ◌+◌, ◌%◌, ◌^◌, ◌≤◌}
use mathlib.Core.Path.{◌≡◌, refl, ap, ◌∙◌}
use mathlib.Core.Logic.{inl, inr, ◌↔◌}
use mathlib.Core.Bool.{Bool, true}
use mathlib.Core.List.{List, [], ◌∷◌, ◌++◌}
use native.Mathlib.Omega.{arith}

-- atomic.AddUint64
abbrev pub add_uint64 : ℕ → ℕ → ℕ
add_uint64 a b = (a + b) % 2 ^ 64

module _ {A : Type 0} where
  unfoldable pub count : (A → Bool) → List A → ℕ
  count p [] = 0
  count p (x ∷ xs) = if p x then count p xs + 1 else count p xs

  permᴰ-count : (p : A → Bool) {xs ys : List A} → Permᴰ xs ys → count p xs ≡ count p ys
  unfolding count
  permᴰ-count p Permᴰ.nil = refl
  permᴰ-count p (Permᴰ.cons e r) = ground (arith, ap p e, permᴰ-count p r)
  permᴰ-count p (Permᴰ.swap e f) = ground (arith, ap p e, ap p f)
  permᴰ-count p (Permᴰ.trans r s) = permᴰ-count p r ∙ permᴰ-count p s

  -- A count does not depend on the order.
  pub perm-count : (p : A → Bool) {xs ys : List A} → Perm xs ys → count p xs ≡ count p ys
  perm-count p r = ∥∥₁_elim r (ℕ_set _ _) (permᴰ-count p)

  pub count-true : (xs : List A) → count (λ _. true) xs ≡ length xs
  unfolding count
  count-true [] = refl
  count-true (x ∷ xs) = omega (arith, count-true xs)

  pub count_pos : (p : A → Bool) (xs : List A) → 1 ≤ count p xs → (a : A) × Elem a xs × (p a ≡ true)
  unfolding count
  count_pos p [] h = absurd (omega arith)
  count_pos p (x ∷ xs) h = elim (Bool-cases (p x)) [
    | inl e ↦ (x, inl refl, e)
    | inr e ↦ let (a, m, q) = count_pos p xs (ground arith) in (a, inr m, q)
  ]

  pub Elem-count : (p : A → Bool) (xs : List A) (a : A) → Elem a xs → p a ≡ true → 1 ≤ count p xs
  unfolding count
  Elem-count p [] a m e = absurd m
  Elem-count p (x ∷ xs) a (inl same) e = ground (arith, ap p same)
  Elem-count p (x ∷ xs) a (inr m) e = ground (arith, Elem-count p xs a m e)

  pub count-append : (p : A → Bool) (xs ys : List A) → count p (xs ++ ys) ≡ count p xs + count p ys
  unfolding count
  count-append p [] ys = omega arith
  count-append p (x ∷ xs) ys = ground (arith, count-append p xs ys)

pub perm-length : {A : Type 0} {xs ys : List A} → Perm xs ys → length xs ≡ length ys
perm-length {xs = xs} {ys = ys} r =
    omega (arith, count-true xs, count-true ys, perm-count (λ _. true) r)

module _ {A : Type 0} (p : A → Bool) where
  pub count-le-length : (xs : List A) → count p xs ≤ length xs
  unfolding count
  count-le-length [] = omega arith
  count-le-length (x ∷ xs) = ground (arith, count-le-length xs)

  pub count-eq-length : (xs : List A) → (count p xs ≡ length xs) ↔ All (λ x. p x ≡ true) xs
  unfolding count
  count-eq-length [] = (λ h. tt, λ h. refl)
  count-eq-length (x ∷ xs) = (
    λ h. ground (arith, count-eq-length xs, count-le-length xs),
    λ h. ground (arith, (count-eq-length xs).1 h.1),
  )
