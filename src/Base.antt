-- ===== src/Base.antt =====
-- Names that the other modules share: the libraries', passed on, and those of the children.
mod Bools
mod Lists
mod Ints
mod Text
mod Dicts
mod Strings
mod Decimal
mod Clock
mod Sort
mod Errors
pub use Prim.Native.Nat.{ℕ, zero, suc, ◌+◌, ◌-◌, ◌*◌, ◌/◌, ◌%◌, ◌^◌, ◌≤◌, ◌<◌, min, max}
pub use Prim.Native.String.{String}
pub use mathlib.Core.Path.{◌≡◌, refl, sym, ap, subst, ◌∙◌}
pub use mathlib.Core.Logic.{◌≢◌, ◌↔◌, ◌⊎◌, inl, inr}
pub use mathlib.Core.Bool.{Bool, true, false, not, ◌&&◌, ◌||◌}
pub use mathlib.Core.Option.{Option, none, some}
pub use mathlib.Core.List.{List, [], ◌∷◌, ◌++◌, map}
pub use native.Mathlib.Omega.{arith}
unfoldable pub use Bools.*
unfoldable pub use Lists.*
unfoldable pub use Ints.*
unfoldable pub use Text.*
unfoldable pub use Strings.*
unfoldable pub use Dicts.*
unfoldable pub use Sort.*
unfoldable pub use Errors.*
unfoldable pub use Decimal.*
unfoldable pub use Clock.*
