-- ===== src/Base.antt =====
-- The names that every other module shares: the libraries', passed on, and those of the children
-- (Boolean tests, lists over the native numbers, signed results).
mod Tests
mod Lists
mod Int
mod Bits
mod Results
mod Texts
pub use Tests.*
pub use Lists.*
pub use Int.*
pub use Bits.*
pub use Results.*
pub use Texts.*
pub use Prim.Native.Nat.{ℕ, zero, suc, ◌+◌, ◌-◌, ◌*◌, ◌/◌, ◌%◌, ◌^◌, ◌≤◌, ◌<◌, bit_and, bit_or, min}
pub use mathlib.Core.Path.{◌≡◌, refl, sym, ap, ◌∙◌}
pub use mathlib.Core.Logic.{◌≢◌, ◌↔◌, ◌⊎◌, inl, inr}
pub use mathlib.Core.Bool.{Bool, true, false, not, ◌&&◌, ◌||◌}
pub use mathlib.Core.Option.{Option, none, some}
pub use mathlib.Core.List.{List, [], ◌∷◌, ◌++◌, map}
pub use native.Mathlib.Omega.{arith}
