-- ===== src/Storage/Rows.antt =====
-- storage.go: how many of a row of inserts are taken, and rows one after the other.
use prom_sketch_distributed.Common.{
  ℕ, ◌+◌, String, ◌≡◌, refl, List, [], ◌∷◌, ◌++◌, arith, if◌then◌else◌, length, ℤ, is_ok,
}
use prom_sketch_distributed.Insert.Router.{Label}
use prom_sketch_distributed.Storage.{Sketches, Storage, insert}
use prom_sketch_distributed.Storage.Accounting.{insert_all}

module _ {S V : Type 0} (xxhash : String → ℕ) (get : List Label → String → String)
    (lib : Sketches S V) where
  -- How many of a row of inserts the storage takes.
  abbrev pub taken : List (List Label × ℤ × V) → Storage S → ℕ
  taken [] s = 0
  taken ((lbls, timestamp, value) ∷ rest) s =
      let (s', r) = insert xxhash get lib s lbls timestamp value in
      let n = taken rest s' in if is_ok r then n + 1 else n

  abbrev pub refused : List (List Label × ℤ × V) → Storage S → ℕ
  refused [] s = 0
  refused ((lbls, timestamp, value) ∷ rest) s =
      let (s', r) = insert xxhash get lib s lbls timestamp value in
      let n = refused rest s' in if is_ok r then n else n + 1

  pub taken-refused :
      (calls : List (List Label × ℤ × V)) (s : Storage S)
      → taken calls s + refused calls s ≡ length calls
  taken-refused [] s = refl
  taken-refused ((lbls, timestamp, value) ∷ rest) s =
      ground (arith, taken-refused rest (insert xxhash get lib s lbls timestamp value).0)

  pub taken-append :
      (xs ys : List (List Label × ℤ × V)) (s : Storage S)
      → (taken (xs ++ ys) s ≡ taken xs s + taken ys (insert_all xxhash get lib xs s))
        × (refused (xs ++ ys) s ≡ refused xs s + refused ys (insert_all xxhash get lib xs s))
        × (insert_all xxhash get lib (xs ++ ys) s
            ≡ insert_all xxhash get lib ys (insert_all xxhash get lib xs s))
  taken-append [] ys s = (omega arith, omega arith, refl)
  taken-append ((lbls, timestamp, value) ∷ xs) ys s =
      let (a, b, c) = taken-append xs ys (insert xxhash get lib s lbls timestamp value).0 in
      (ground (arith, a), ground (arith, b), c)
