-- ===== src/Common.antt =====
-- What the models of the components share: library names passed on, tests on numbers, C's signed
-- integers with the errno values that the code returns, and lists.
mod Tests
mod Int
mod Lists
mod Text
mod Strtol
pub use Tests.*
pub use Int.*
pub use Lists.*
unfoldable pub use Text.*
unfoldable pub use Strtol.*
pub use Prim.Native.Nat.{ℕ, zero, suc, ◌+◌, ◌-◌, ◌*◌, ◌/◌, ◌%◌, ◌^◌, ◌≤◌, ◌<◌}
pub use mathlib.Core.Path.{◌≡◌, refl, sym, ap, ◌∙◌}
pub use mathlib.Core.Logic.{◌≢◌, ◌↔◌, ◌⊎◌, inl, inr}
pub use mathlib.Core.Bool.{Bool, true, false, not, ◌&&◌, ◌||◌}
pub use mathlib.Core.Option.{Option, none, some}
pub use mathlib.Core.List.{List, [], ◌∷◌, ◌++◌, map}
pub use native.Mathlib.Omega.{arith}
