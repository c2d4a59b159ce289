-- ===== src/Common.antt =====
-- The names that the other modules share: the libraries', passed on, with tests, lists and integers.
mod Tests
mod Lists
mod Loops
mod Members
pub mod Int
pub use Tests.*
pub use Lists.*
pub use Members.*
pub use Loops.{for_range_inv}
unfoldable pub use Loops.{for_range}
pub use Prim.Native.Nat.{ℕ, zero, suc, ◌+◌, ◌-◌, ◌*◌, ◌/◌, ◌%◌, ◌^◌, ◌≤◌, ◌<◌, min}
pub use mathlib.Core.Path.{◌≡◌, refl, sym, ap, subst, fun_ext, ◌∙◌}
pub use mathlib.Core.Logic.{◌≢◌, ◌↔◌, ◌⊎◌, inl, inr}
pub use mathlib.Core.Bool.{Bool, true, false, not, ◌&&◌, ◌||◌}
pub use mathlib.Core.Option.{Option, none, some}
pub use mathlib.Core.List.{List, [], ◌∷◌, ◌++◌, map}
pub use native.Mathlib.Omega.{arith}
