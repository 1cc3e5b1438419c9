-- ===== src/Prelude.antt =====
-- The names that every module shares: the libraries', passed on, and those of the children:
-- Boolean tests, equality as an interface, integers of the machine, maps, lists and texts.
mod Tests
mod Lists
mod Equality
mod Int
mod Maps
mod Text
mod Trim
mod Search
mod Decimal
mod Values
pub use Tests.*
unfoldable pub use Lists.*
pub use Equality.*
unfoldable pub use Int.*
unfoldable pub use Maps.*
unfoldable pub use Text.*
unfoldable pub use Trim.*
unfoldable pub use Search.*
unfoldable pub use Decimal.*
unfoldable pub use Values.*
pub use Prim.Native.Nat.{ℕ, zero, suc, ◌+◌, ◌-◌, ◌*◌, ◌/◌, ◌%◌, ◌^◌, ◌≤◌, ◌<◌}
pub use Prim.Native.String.{String}
pub use mathlib.Core.Path.{◌≡◌, refl, sym, ap, ◌∙◌, subst}
pub use mathlib.Core.Logic.{◌≢◌, ◌↔◌, ◌⊎◌, inl, inr}
pub use mathlib.Core.Bool.{Bool, true, false, not, ◌&&◌, ◌||◌}
pub use mathlib.Core.Option.{Option, none, some}
pub use mathlib.Core.List.{List, [], ◌∷◌, ◌++◌, map}
pub use native.Mathlib.Omega.{arith}
