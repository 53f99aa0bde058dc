-- ===== src/Prelude.antt =====
-- The names that the modules share: the libraries' names passed on, the conditional and the
-- equality interface (Prelude/Tests), measured lists (Prelude/Lists), texts as UTF-16 code units
-- (Prelude/Texts) and the result type of code that throws (Prelude/Outcome).
mod Tests
mod Lists
mod Texts
mod Outcome
pub use Tests.*
unfoldable pub use Lists.{
  any, all, keep, find, is_nil, tally, update_where, contains, duplicate_free,
}
pub use Lists.*
unfoldable pub use Texts.{text_eq, lit, starts_with, trim_start, trim_end, trim, split_on}
pub use Texts.*
pub use Outcome.*
pub use Prim.Native.Nat.{ℕ, zero, suc, ◌+◌, ◌-◌, ◌*◌, ◌/◌, ◌%◌, ◌≤◌, ◌<◌}
pub use mathlib.Core.Path.{◌≡◌, refl, sym, ap, ◌∙◌, subst}
pub use mathlib.Core.Logic.{◌≢◌, ◌↔◌, ◌⊎◌, inl, inr}
pub use mathlib.Core.Bool.{Bool, true, false, not, ◌&&◌, ◌||◌}
pub use mathlib.Core.Option.{Option, none, some}
pub use mathlib.Core.List.{List, [], ◌∷◌, ◌++◌, map}
pub use native.Mathlib.Omega.{arith}
