-- ===== src/Base.antt =====
-- The names that every module shares: the libraries', passed on, Boolean tests on native numbers,
-- lists measured by native numbers, Python texts and the result of code that may raise.
mod Tests
mod Lists
mod Count
pub mod Text
pub mod Decimal
pub mod Json
pub use Tests.*
pub use Lists.*
pub use Count.*
pub use Prim.Native.Nat.{ℕ, zero, suc, ◌+◌, ◌-◌, ◌*◌, ◌/◌, ◌%◌, ◌^◌, ◌≤◌, ◌<◌}
pub use mathlib.Core.Path.{◌≡◌, refl, sym, ap, ap₂, ◌∙◌, subst}
pub use mathlib.Core.Logic.{◌≢◌, ◌↔◌, ◌⊎◌, inl, inr}
pub use mathlib.Core.Bool.{Bool, true, false, not, ◌&&◌, ◌||◌}
pub use mathlib.Core.Option.{Option, none, some}
pub use mathlib.Core.List.{List, [], ◌∷◌, ◌++◌, map, append-nil, append_assoc}
pub use native.Mathlib.Omega.{arith}
