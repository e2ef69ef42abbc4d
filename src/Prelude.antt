-- ===== src/Prelude.antt =====
-- The names that every module shares: the libraries', passed on, and those of the children.
mod Tests
mod Lists
mod Classes
mod Maps
mod Ranges
mod Texts
mod Ascii
pub use Tests.*
pub use Lists.*
pub use Classes.*
pub use Maps.*
pub use Ranges.*
pub use Texts.*
pub use Ascii.*
unfoldable pub use Lists.{select, any, all}
unfoldable pub use Texts.{has_prefix, trim_prefix}
unfoldable pub use Ascii.{
  to_lower_byte, to_upper_byte, to_lower, equal_fold, has_suffix, trim_suffix, last_index, contains,
  digits, itoa,
}
unfoldable pub use Classes.{text_beq}
unfoldable pub use Maps.{lookup, insert, delete, retain, find_entry}
pub use Prim.Native.Nat.{ℕ, zero, suc, ◌+◌, ◌-◌, ◌*◌, ◌/◌, ◌%◌, ◌^◌, ◌≤◌, ◌<◌, min}
pub use mathlib.Core.Path.{◌≡◌, refl, sym, ap, subst, ◌∙◌}
pub use mathlib.Core.Logic.{◌≢◌, ◌↔◌, ◌⊎◌, inl, inr}
pub use mathlib.Core.Bool.{Bool, true, false, not, ◌&&◌, ◌||◌}
pub use mathlib.Core.Option.{Option, none, some}
pub use mathlib.Core.List.{List, [], ◌∷◌, ◌++◌, map, append_assoc, append-nil}
pub use native.Mathlib.Omega.{arith}
