-- ===== src/Base.antt =====
-- The names that every module shares: the libraries', passed on, and those of the children.
-- `Base.Tests` has Boolean tests and the conditional, `Base.Lists` lists and predicates on them,
-- `Base.Strings` Python's `str` as a list of code points.
mod Tests
mod Lists
mod Strings
pub use Tests.*
pub use Lists.*
pub use Strings.*
pub use Prim.Native.Nat.{ℕ, zero, suc, ◌+◌, ◌-◌, ◌*◌, ◌/◌, ◌%◌, ◌^◌, ◌≤◌, ◌<◌, max}
pub use mathlib.Core.Path.{◌≡◌, refl, sym, ap, ◌∙◌}
pub use mathlib.Core.Logic.{◌≢◌, ◌↔◌, ◌⊎◌, inl, inr}
pub use mathlib.Core.Bool.{Bool, true, false, not, ◌&&◌, ◌||◌}
pub use mathlib.Core.Option.{Option, none, some}
pub use mathlib.Core.List.{List, [], ◌∷◌, ◌++◌, map, reverse, append-nil}
pub use native.Mathlib.Omega.{arith}
