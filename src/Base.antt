-- ===== src/Base.antt =====
-- The names that all modules share: the libraries', passed on, Boolean tests, lists and bit laws.
mod Tests
mod Lists
mod Options
pub mod Bits
pub mod Word
pub mod Int
pub mod Bytes
pub use Tests.*
pub use Options.*
pub use Prim.Native.Nat.{ℕ, zero, suc, ◌+◌, ◌-◌, ◌*◌, ◌/◌, ◌%◌, ◌^◌, ◌≤◌, ◌<◌}
pub use Prim.Native.Nat.{bit_and, bit_or}
pub use mathlib.Core.Path.{◌≡◌, refl, sym, ap, ◌∙◌}
pub use mathlib.Core.Logic.{◌≢◌, ◌↔◌, ◌⊎◌, inl, inr}
pub use mathlib.Core.Bool.{Bool, true, false, not, ◌&&◌, ◌||◌}
pub use mathlib.Core.Option.{Option, none, some}
pub use mathlib.Core.List.{List, [], ◌∷◌, ◌++◌, map}
pub use native.Mathlib.Omega.{arith}
pub use Lists.{length, get_elem?, get_or, drop, take, length-append, drop-append, take-append}
pub use Lists.{get_elem?-drop, get_elem?-take, get_elem?-take-behind}
unfoldable pub use Lists.{update}
