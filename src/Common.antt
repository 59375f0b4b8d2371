-- ===== src/Common.antt =====
-- What the modules of the development share: the libraries' names, passed on, and the children's.
mod Tests
mod Lists
mod Int
mod Outcome
mod Assoc
mod Counts
pub use Tests.*
pub use Lists.*
pub use Int.*
pub use Outcome.*
pub use Assoc.*
pub use Counts.*
unfoldable pub use Counts.{count}
unfoldable pub use Assoc.{lookup, put, adjust}
unfoldable pub use Int.{◌+ℤ◌, ◌-ℤ◌}
pub use Prim.Native.Nat.{ℕ, zero, suc, ◌+◌, ◌-◌, ◌*◌, ◌/◌, ◌%◌, ◌^◌, ◌≤◌, ◌<◌, min}
pub use Prim.Native.String.{String}
pub use mathlib.Core.Path.{◌≡◌, refl, sym, ap, ◌∙◌, subst}
pub use mathlib.Core.Logic.{◌≢◌, ◌↔◌, ◌⊎◌, inl, inr}
pub use mathlib.Core.Bool.{Bool, true, false, ◌&&◌, ◌||◌, not}
pub use mathlib.Core.Option.{Option, none, some, map as map_option}
pub use mathlib.Core.List.{List, [], ◌∷◌, ◌++◌, map, append-nil, append_assoc}
pub use native.Mathlib.Omega.{arith}
pub use text.Mathlib.Text.{◌==◌ as str_eq}
pub use text.Mathlib.TextEquality.{eq_iff}
