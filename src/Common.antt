-- ===== src/Common.antt =====
-- The names that the other modules share: the libraries', passed on, and those of the children.
pub mod Tests
pub mod Lists
pub mod Strings
pub mod Trimming
pub mod Maps
pub mod Int
pub use Tests.*
pub use Lists.*
pub use Int.*
unfoldable pub use Strings.{
  Text, codes, text_eq, is_empty, is_space, trim_left, trim_space, byte_len, to_lower,
}
unfoldable pub use Maps.{Dict, lookup, insert, erase, keys}
pub use Strings.{text_eq_iff, text_eq_refl}
pub use Trimming.{trim_space-trim_space}
pub use Maps.{lookup-insert, lookup-erase}
pub use Prim.Native.Nat.{ℕ, zero, suc, ◌+◌, ◌-◌, ◌*◌, ◌/◌, ◌%◌, ◌^◌, ◌≤◌, ◌<◌, min, max}
pub use mathlib.Core.Path.{◌≡◌, refl, sym, ap, ◌∙◌, subst, fun_ext}
pub use mathlib.Core.Logic.{◌≢◌, ◌↔◌, ◌⊎◌, inl, inr}
pub use mathlib.Core.Bool.{Bool, true, false, not, ◌&&◌, ◌||◌}
pub use mathlib.Core.Option.{Option, none, some}
pub use mathlib.Core.List.{List, [], ◌∷◌, ◌++◌, map, reverse, append-nil, append_assoc}
pub use native.Mathlib.Omega.{arith}
