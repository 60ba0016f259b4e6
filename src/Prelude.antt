-- ===== src/Prelude.antt =====
-- Names that the other modules share: library names passed on, and those of the children.
mod Tests
mod Lists
pub mod Results
pub mod Keys
pub mod Dict
pub mod Int
pub mod Sorting
pub mod Steps
pub mod Texts
pub use Tests.*
pub use Lists.*
pub use Results.{Error, Result, ok, raise, raise_if}
pub use Keys.{Key, test_cases, test_self, test-ne, nat_key, string_key, pair_key, ◌==◌}
pub use Prim.Native.Nat.{ℕ, zero, suc, ◌+◌, ◌-◌, ◌*◌, ◌/◌, ◌%◌, ◌≤◌, ◌<◌}
pub use Prim.Native.String.{String}
pub use mathlib.Core.Path.{◌≡◌, refl, sym, ap, subst, ◌∙◌}
pub use mathlib.Core.Logic.{◌≢◌, ◌↔◌, ◌⊎◌, inl, inr}
pub use mathlib.Core.Bool.{Bool, true, false, not, ◌&&◌, ◌||◌}
pub use mathlib.Core.Option.{Option, none, some}
pub use mathlib.Core.List.{List, [], ◌∷◌, ◌++◌, map}
pub use native.Mathlib.Omega.{arith}
