-- ===== src/Common.antt =====
-- Shared vocabulary of the development: library names passed on, Boolean tests on the native
-- numbers, lists measured by them, bytes and the signed integers that `int` and `qint64` stand for.
mod Tests
mod Lists
mod Integers
mod ByteArrays
pub mod Digits
pub mod Sets
pub use Tests.*
pub use Lists.*
unfoldable pub use Integers.*
unfoldable pub use ByteArrays.*
pub use Prim.Native.Nat.{ℕ, zero, suc, ◌+◌, ◌-◌, ◌*◌, ◌/◌, ◌%◌, ◌^◌, ◌≤◌, ◌<◌, min, max}
pub use mathlib.Core.Path.{◌≡◌, refl, sym, ap, ap₂, ◌∙◌, subst}
pub use mathlib.Core.Logic.{◌≢◌, ◌↔◌, ◌⊎◌, inl, inr}
pub use mathlib.Core.Bool.{Bool, true, false, not, ◌&&◌, ◌||◌}
pub use mathlib.Core.Option.{Option, none, some}
pub use mathlib.Core.List.{List, [], ◌∷◌, ◌++◌, map, append-nil, append_assoc}
pub use native.Mathlib.Omega.{arith}
