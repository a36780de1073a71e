-- ===== src/Base.antt =====
-- The names that all modules share: the library's, passed on, and those of the children below
-- (tests, lists, integers, results with a panic, Go maps and slices).
mod Tests
mod Lists
pub mod Int
pub mod Outcome
pub mod GoMap
pub mod Bytes
pub mod Fallible
pub mod Text
pub mod Slice
pub use Tests.*
pub use Lists.*
pub use Prim.Native.Nat.{ℕ, zero, suc, ◌+◌, ◌-◌, ◌*◌, ◌/◌, ◌%◌, ◌^◌, ◌≤◌, ◌<◌}
pub use mathlib.Core.Path.{◌≡◌, refl, sym, ap, ◌∙◌, subst}
pub use mathlib.Core.Logic.{◌≢◌, ◌↔◌, ◌⊎◌, inl, inr}
pub use mathlib.Core.Bool.{Bool, true, false, not, ◌&&◌, ◌||◌}
pub use mathlib.Core.Option.{Option, none, some}
pub use mathlib.Core.List.{List, [], ◌∷◌, ◌++◌, map}
pub use native.Mathlib.Omega.{arith}
