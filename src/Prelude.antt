-- ===== src/Prelude.antt =====
-- The names that the other modules share: the libraries', passed on, and those of the children.
mod Tests
mod Lists
mod Dicts
mod Decimal
mod Numerals
mod Texts
pub use Tests.*
unfoldable pub use Lists.*
pub use Dicts.*
pub use Texts.{strip, before_space, after_space, words, lower_is, between}
unfoldable pub use Texts.{is_space}
unfoldable pub use Decimal.{decimal, decimal_from, digit}
unfoldable pub use Numerals.{int}
pub use Numerals.{Signed, plus, minus, int-decimal, below_ten}
pub use Prim.Native.Nat.{ℕ, zero, suc, ◌+◌, ◌-◌, ◌≤◌, ◌<◌}
pub use Prim.Native.String.{String}
pub use mathlib.Core.Path.{◌≡◌, refl, sym, ap, ◌∙◌, subst}
pub use mathlib.Core.Logic.{◌≢◌, ◌↔◌, ◌⊎◌, inl, inr}
pub use mathlib.Core.Bool.{Bool, true, false, not, ◌&&◌, ◌||◌}
pub use mathlib.Core.Option.{Option, none, some}
pub use mathlib.Core.List.{List, [], ◌∷◌, ◌++◌, map}
pub use native.Mathlib.Omega.{arith}
pub use text.Mathlib.TextEquality.{eq_iff}
