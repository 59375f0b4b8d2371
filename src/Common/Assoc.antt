-- ===== src/Common/Assoc.antt =====
-- Go's maps with string keys: association lists with one entry for each key that `put` has added.
use prom_sketch_distributed.Common.Tests.{if◌then◌else◌}
use Prim.Native.String.{String}
use mathlib.Core.Path.{◌≡◌, refl}
use mathlib.Core.Option.{Option, none, some}
use mathlib.Core.Option
use mathlib.Core.List.{List, [], ◌∷◌}
use native.Mathlib.Omega.{arith}
use text.Mathlib.Text.{◌==◌}
use text.Mathlib.TextEquality.{eq_iff}

module _ {ℓ} {V : Type ℓ} where
  -- v, ok := m[k]
  unfoldable pub lookup : String → List (String × V) → Option V
  lookup k [] = none
  lookup k ((j, v) ∷ m) = if k == j then some v else lookup k m

  -- m[k] = v
  unfoldable pub put : String → V → List (String × V) → List (String × V)
  put k v [] = (k, v) ∷ []
  put k v ((j, w) ∷ m) = if k == j then (j, v) ∷ m else (j, w) ∷ put k v m

  -- A change of the object that a map of pointers holds under `k`; nothing for a missing key.
  unfoldable pub adjust : String → (V → V) → List (String × V) → List (String × V)
  adjust k f [] = []
  adjust k f ((j, w) ∷ m) = if k == j then (j, f w) ∷ m else (j, w) ∷ adjust k f m

  pub lookup-put :
      (k j : String) (v : V) (m : List (String × V))
      → lookup j (put k v m) ≡ (if j == k then some v else lookup j m)
  unfolding lookup put
  lookup-put k j v [] = refl
  lookup-put k j v ((i, w) ∷ m) =
      ground (arith, eq_iff k i, eq_iff j i, eq_iff j k, lookup-put k j v m)

  pub lookup-adjust :
      (k j : String) (f : V → V) (m : List (String × V))
      → lookup j (adjust k f m) ≡ (if j == k then Option.map f (lookup j m) else lookup j m)
  unfolding lookup adjust
  lookup-adjust k j f [] = ground arith
  lookup-adjust k j f ((i, w) ∷ m) =
      ground (arith, eq_iff k i, eq_iff j i, eq_iff j k, lookup-adjust k j f m)
