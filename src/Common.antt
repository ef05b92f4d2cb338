-- ===== src/Common.antt =====
-- Shared notation, the library names that every module uses, and children: Boolean tests and
-- equality, arrays, objects used as dictionaries, and texts.
mod Tests
mod Lists
mod Arrays
mod Objects
mod Texts
mod Numerals
pub use Tests.*
pub use Lists.*
unfoldable pub use Numerals.*
pub use Texts.*
pub use Arrays.*
unfoldable pub use Objects.*
pub use Prim.Native.Nat.{ℕ, zero, suc, ◌+◌, ◌-◌, ◌*◌, ◌/◌, ◌%◌, ◌≤◌, ◌<◌, min, max}
pub use Prim.Native.String.{String}
pub use mathlib.Core.Path.{◌≡◌, refl, sym, ap, ap₂, ◌∙◌, subst, subst₂}
pub use mathlib.Core.Logic.{◌≢◌, ◌↔◌, ◌⊎◌, inl, inr}
pub use mathlib.Core.Bool.{Bool, true, false, not, ◌&&◌, ◌||◌}
pub use mathlib.Core.Option.{Option, none, some}
pub use mathlib.Core.List.{List, [], ◌∷◌, ◌++◌, map, append-nil, append_assoc, map-append}
pub use native.Mathlib.Omega.{arith}
pub use text.Mathlib.TextEquality.{eq_iff}
