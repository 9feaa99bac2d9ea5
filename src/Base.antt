-- ===== src/Base.antt =====
-- What the components share: numbers, texts and lists of the libraries passed on, Boolean tests,
-- JavaScript's `Map` as an association list, and the outcome of code that may throw.
mod Tests
mod Lists
mod Dicts
mod Texts
pub mod Keys
pub mod Options
pub mod Results
pub use Tests.*
pub use Lists.*
unfoldable pub use Texts.*
unfoldable pub use Dicts.*
pub use Prim.Native.Nat.{ℕ, zero, suc, ◌+◌, ◌-◌, ◌*◌, ◌/◌, ◌%◌, ◌≤◌, ◌<◌, max, min}
pub use Prim.Native.String.{String}
pub use mathlib.Core.Path.{◌≡◌, refl, sym, ap, ◌∙◌, subst}
pub use mathlib.Core.Logic.{◌≢◌, ◌↔◌, ◌⊎◌, inl, inr}
pub use mathlib.Core.Bool.{Bool, true, false, not, ◌&&◌, ◌||◌}
pub use mathlib.Core.Option.{Option, none, some}
pub use mathlib.Core.List.{List, [], ◌∷◌, ◌++◌, map}
pub use native.Mathlib.Omega.{arith}
pub use text.Mathlib.TextEquality.{eq_iff}
