-- ===== src/Common.antt =====
-- The names that every module shares: those of the libraries, passed on, the Boolean tests of
-- Common/Tests, the lists of Common/Lists, Common/Keyed and Common/Sorting, the signed integers of
-- Common/Int, the results of Common/Results and the texts of Common/Strings.
mod Tests
mod Lists
mod Int
mod Results
mod Strings
mod Keyed
mod Sorting
pub use Tests.*
pub use Lists.*
pub use Keyed.*
unfoldable pub use Sorting.*
pub use Int.*
pub use Results.*
unfoldable pub use Strings.*
pub use Prim.Native.Nat.{ℕ, zero, suc, ◌+◌, ◌-◌, ◌*◌, ◌/◌, ◌%◌, ◌^◌, ◌≤◌, ◌<◌, min, max}
pub use Prim.Native.String.{String, ◌++◌ as ◌<>◌}
pub use mathlib.Core.Path.{◌≡◌, refl, sym, ap, subst, ◌∙◌}
pub use mathlib.Core.Logic.{◌≢◌, ◌↔◌, ◌⊎◌, inl, inr}
pub use mathlib.Core.Bool.{Bool, true, false, not, ◌&&◌, ◌||◌}
pub use mathlib.Core.Option.{Option, none, some}
pub use mathlib.Core.List.{List, [], ◌∷◌, ◌++◌, map, reverse, append-nil, append_assoc}
pub use native.Mathlib.Omega.{arith}
pub use text.Mathlib.TextEquality.{eq_iff}
