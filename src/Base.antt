-- ===== src/Base.antt =====
-- The names that the other modules share: those of the libraries that they use, passed on, and
-- those of the children (tests, lists, results, texts, numbers and their digits).
mod Tests
mod Lists
mod Results
mod Texts
mod Numbers
mod Decimal
pub use Tests.*
pub use Lists.*
pub use Results.*
pub use Numbers.*
unfoldable pub use Decimal.{decimal}
unfoldable pub use Texts.{Text, codes, text_eq, starts_with, ends_with, lstrip, rstrip, strip, utf8}
pub use Texts.{
  is_space, any, contains_char, join, is_surrogate, utf8_bytes, encode, text_eq_sound, text_eq_refl,
  text_eq_iff,
}
pub use Prim.Native.Nat.{ℕ, zero, suc, ◌+◌, ◌-◌, ◌*◌, ◌/◌, ◌%◌, ◌^◌, ◌≤◌, ◌<◌}
pub use Prim.Native.String.{String}
pub use mathlib.Core.Path.{◌≡◌, refl, sym, ap, ◌∙◌, subst}
pub use mathlib.Core.Logic.{◌≢◌, ◌↔◌, ◌⊎◌, inl, inr}
pub use mathlib.Core.Bool.{Bool, true, false, not, ◌&&◌, ◌||◌}
pub use mathlib.Core.Option.{Option, none, some}
pub use mathlib.Core.List.{List, [], ◌∷◌, ◌++◌, map}
pub use native.Mathlib.Omega.{arith}
pub use text.Mathlib.Text.{◌==◌ as str_eq}
pub use text.Mathlib.TextEquality.{eq_iff}
