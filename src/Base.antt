-- ===== src/Base.antt =====
-- The names that the other modules share: library names passed on, Boolean tests on numbers,
-- lists and texts, results of fallible code, and actions on a state.
mod Tests
mod Lists
mod Texts
mod Results
mod Lengths
mod Integers
pub use Tests.*
pub use Lists.*
unfoldable pub use Texts.{text_eq, codes, is_space, is_blank}
pub use Results.*
pub use Lengths.*
pub use Integers.*
pub use Prim.Native.Nat.{ℕ, zero, suc, ◌+◌, ◌-◌, ◌*◌, ◌/◌, ◌%◌, ◌^◌, ◌≤◌, ◌<◌}
pub use mathlib.Core.Path.{◌≡◌, refl, sym, ap, ◌∙◌}
pub use mathlib.Core.Logic.{◌≢◌, ◌↔◌, ◌⊎◌, inl, inr}
pub use mathlib.Core.Bool.{Bool, true, false, not, ◌&&◌, ◌||◌}
pub use mathlib.Core.Option.{Option, none, some}
pub use mathlib.Core.List.{List, [], ◌∷◌, ◌++◌, map}
pub use native.Mathlib.Omega.{arith}
pub use Prim.Native.String.{String}
pub use text.Mathlib.TextEquality.{eq_iff}
pub use text.Mathlib.TextPositions.{eq_refl}
