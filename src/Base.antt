-- ===== src/Base.antt =====
-- The names that the other modules share: the libraries' names, passed on, Boolean tests on
-- numbers, lists measured by native numbers, results, and Go strings as lists of bytes with the
-- functions of package `strings` that the program calls.
pub mod Tests
pub mod Lists
pub mod Results
pub mod Text
mod TextTests
pub mod Filepath
pub mod Int
pub use Tests.{ltb, leb, ◌==◌, if◌then◌else◌, ltb→lt, leb→le, ==_iff, Bool-cases, &&_split}
unfoldable pub use Lists.{filter}
unfoldable pub use Results.{map_err}
pub use Lists.{
  filter_yes, filter_no, length, get_elem?, take, drop, All, length-append, length-drop,
  drop-append, drop-drop, take-append-drop, All-append, Among, All-Among, take-append, length-take,
  take-take, take-all,
}
pub use Results.{Result, ok, err, ◌>>=◌, ◌>>◌, guard, Option-cases, Result-cases}
pub use Prim.Native.Nat.{ℕ, zero, suc, ◌+◌, ◌-◌, ◌*◌, ◌/◌, ◌%◌, ◌^◌, ◌≤◌, ◌<◌}
pub use mathlib.Core.Path.{◌≡◌, refl, sym, ap, ◌∙◌}
pub use mathlib.Core.Logic.{◌≢◌, ◌↔◌, ◌⊎◌, inl, inr}
pub use mathlib.Core.Bool.{Bool, true, false, not, ◌&&◌, ◌||◌}
pub use mathlib.Core.Option.{Option, none, some}
pub use mathlib.Core.List.{List, [], ◌∷◌, ◌++◌, map, append-nil, append_assoc}
pub use native.Mathlib.Omega.{arith}
