-- ===== src/Base.antt =====
-- The names that the modules of this library share: the libraries' own, passed on, and four
-- children: tests on numbers and options, lists measured by native numbers, native texts, and texts as
-- lists of code points.
mod Tests
mod Lists
mod Texts
mod Chars
pub use Tests.*
pub use Lists.*
pub use Texts.*
pub use Chars.*
unfoldable pub use Texts.{show}
unfoldable pub use Chars.{digits}
pub use Prim.Native.Nat.{ℕ, zero, suc, ◌+◌, ◌-◌, ◌*◌, ◌/◌, ◌%◌, ◌^◌, ◌≤◌, ◌<◌}
pub use Prim.Native.String.{String}
pub use mathlib.Core.Path.{◌≡◌, refl, sym, ap, ◌∙◌}
pub use mathlib.Core.Logic.{◌≢◌, ◌↔◌, ◌⊎◌, inl, inr}
pub use mathlib.Core.Bool.{Bool, true, false, not, ◌&&◌, ◌||◌}
pub use mathlib.Core.Option.{Option, none, some}
pub use mathlib.Core.List.{List, [], ◌∷◌, ◌++◌, map}
pub use native.Mathlib.Omega.{arith}
pub use text.Mathlib.TextEquality.{eq_iff}
