-- ===== src/Base.antt =====
-- What the modules share: library names passed on, Boolean tests on numbers, lists measured by
-- native numbers, texts (Go strings, by their code points) and association lists (Go maps).
mod Tests
mod Lists
mod Strings
mod Maps
mod TextLaws
mod Decimal
mod Atoi
mod Sort
pub use Tests.*
pub use Lists.*
pub use Strings.*
unfoldable pub use Strings.{
  same, contains_text, has_prefix, trim_left, trim_right, index, split, join, trim_space,
}
pub use Maps.*
unfoldable pub use Maps.{lookup, insert}
pub use Sort.*
unfoldable pub use Sort.{text_le, insert_sorted, sort}
unfoldable pub use Decimal.{decimal}
pub use Atoi.{Parsed, number, too_large, no_number, is_digit, digits_onto, in_range, digits}
unfoldable pub use Atoi.{atoi}
pub use TextLaws.*
pub use Prim.Native.Nat.{ℕ, zero, suc, ◌+◌, ◌-◌, ◌*◌, ◌/◌, ◌%◌, ◌^◌, ◌≤◌, ◌<◌}
pub use Prim.Native.String.{String}
pub use mathlib.Core.Path.{◌≡◌, refl, sym, ap, subst, ◌∙◌, ◌≡⟨◌⟩◌, ◌∎}
pub use mathlib.Core.Logic.{◌≢◌, ◌↔◌, ◌⊎◌, inl, inr}
pub use mathlib.Core.Bool.{Bool, true, false, not, ◌&&◌, ◌||◌}
pub use mathlib.Core.Option.{Option, none, some}
pub use mathlib.Core.List.{List, [], ◌∷◌, ◌++◌, map, reverse, append_assoc, append-nil}
pub use native.Mathlib.Omega.{arith}
