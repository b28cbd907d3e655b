-- ===== src/Common.antt =====
-- Names that the modules share: the libraries', passed on, and those of the children.
mod Tests
mod Results
mod Texts
pub mod Decimals
pub mod Fields
pub mod Scans
pub mod Numerals
pub mod Words
mod Paths
mod Process
pub mod Dicts
pub mod Int
unfoldable pub use Tests.*
pub use Results.*
unfoldable pub use Texts.*
unfoldable pub use Fields.*
unfoldable pub use Scans.*
unfoldable pub use Paths.*
unfoldable pub use Decimals.*
pub use Process.*
pub use Prim.Native.Nat.{
  ℕ, zero, suc, ◌+◌, ◌-◌, ◌*◌, ◌/◌, ◌%◌, ◌^◌, ◌≤◌, ◌<◌, pred, min, max, compare,
}
pub use Prim.Native.String.{String, ◌++◌ as ◌<>◌, len, slice}
pub use Prim.Native.Char.{Char, code}
pub use mathlib.Core.Path.{◌≡◌, refl, sym, ap, ◌∙◌, subst, fun_ext}
pub use mathlib.Core.Logic.{◌≢◌, ◌↔◌, ◌⊎◌, inl, inr}
pub use mathlib.Core.Bool.{Bool, true, false, not, ◌&&◌, ◌||◌}
pub use mathlib.Core.Option.{Option, none, some}
pub use mathlib.Core.List.{List, [], ◌∷◌, ◌++◌, map}
pub use native.Mathlib.Omega.{arith}
pub use text.Mathlib.Text.{◌==◌, starts_with}
pub use text.Mathlib.TextEquality.{eq_iff}
pub use text.Mathlib.TextPositions.{eq_refl}
