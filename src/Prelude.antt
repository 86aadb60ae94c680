-- ===== src/Prelude.antt =====
-- Names that the other modules share: the libraries', passed on, and those of the children.
mod Tests
mod Equality
mod Lists
mod Texts
pub mod Dict
pub mod Outcome
pub mod Ensures
pub use Tests.*
pub use Equality.{Eq, ◌==◌, contains, is_none, is_some, Bool-cases, Option-cases}
unfoldable pub use Equality.{option_eq, bool_eq}
pub use Lists.{length, length-append, All, All-append}
unfoldable pub use Lists.{take, drop}
pub use Texts.{Text, text, text_beq, same_text}
unfoldable pub use Texts.{text_eq, nat_eq, utf8_length}
pub use Prim.Native.Nat.{ℕ, zero, suc, ◌+◌, ◌-◌, ◌*◌, ◌/◌, ◌%◌, ◌^◌, ◌≤◌, ◌<◌}
pub use Prim.Native.String.{String}
pub use mathlib.Core.Path.{◌≡◌, refl, sym, ap, ◌∙◌, subst}
pub use mathlib.Core.Logic.{◌≢◌, ◌↔◌, ◌⊎◌, inl, inr}
pub use mathlib.Core.Bool.{Bool, true, false, not, ◌&&◌, ◌||◌}
pub use mathlib.Core.Option.{Option, none, some}
pub use mathlib.Core.List.{List, [], ◌∷◌, ◌++◌, map}
pub use native.Mathlib.Omega.{arith}
unfoldable pub use native.Mathlib.Decide.{ℕ_discrete}
