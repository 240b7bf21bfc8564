-- ===== src/Base.antt =====
-- The names that the other modules share: the libraries', passed on, and those of the children.
mod Tests
mod Lists
mod Int
mod Names
mod Maps
mod MapLaws
mod TableLists
mod Grouping
mod Floats
mod Doubles
mod Thousandths
pub use Tests.*
pub use Lists.*
pub use Int.*
unfoldable pub use Names.*
unfoldable pub use Maps.*
pub use MapLaws.*
pub use TableLists.*
unfoldable pub use Grouping.*
pub use Floats.*
unfoldable pub use Doubles.*
pub use Thousandths.*
pub use Prim.Native.Nat.{ℕ, zero, suc, ◌+◌, ◌-◌, ◌*◌, ◌/◌, ◌%◌, ◌≤◌, ◌<◌, min, max}
pub use Prim.Native.String.{String}
pub use mathlib.Core.Path.{◌≡◌, refl, sym, ap, ◌∙◌, subst}
pub use mathlib.Core.Logic.{◌≢◌, ◌↔◌, ◌⊎◌, inl, inr}
pub use mathlib.Core.Bool.{Bool, true, false, not, ◌&&◌, ◌||◌}
pub use mathlib.Core.Option.{Option, none, some}
pub use mathlib.Core.List.{List, [], ◌∷◌, ◌++◌, map}
pub use native.Mathlib.Omega.{arith}
