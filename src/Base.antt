-- ===== src/Base.antt =====
-- What the modules share: names of the libraries, passed on, and those of the children: Boolean
-- tests, lists over the native numbers, texts, results with errors, signed integers.
mod Tests
mod Lists
mod Texts
mod Results
pub mod Int
pub mod Strings
pub use Tests.*
pub use Lists.*
pub use Texts.*
unfoldable pub use Texts.{◌=t◌}
pub use Results.*
pub use Prim.Native.Nat.{
  ℕ, zero, suc, ◌+◌, ◌-◌, ◌*◌, ◌/◌, ◌%◌, ◌^◌, ◌≤◌, ◌<◌, min, max, bit_and, bit_or,
}
pub use mathlib.Core.Path.{◌≡◌, refl, sym, ap, ap₂, ◌∙◌, subst}
pub use mathlib.Core.Logic.{◌≢◌, ◌↔◌, ◌⊎◌, inl, inr}
pub use mathlib.Core.Bool.{Bool, true, false, ◌&&◌, ◌||◌, not}
pub use mathlib.Core.Option.{Option, none, some}
pub use mathlib.Core.List.{List, [], ◌∷◌, ◌++◌, map}
pub use native.Mathlib.Omega.{arith}
