-- ===== src/Base.antt =====
-- What the other modules share: library names passed on, tests on numbers, byte strings, and the
-- results of fallible code.
mod Tests
mod Lists
mod Results
mod Keys
mod Integers
pub mod Map
pub use Tests.*
unfoldable pub use Lists.{get_elem?}
pub use Lists.*
pub use Results.*
pub use Keys.*
pub use Integers.*
pub use Prim.Native.Nat.{ℕ, zero, suc, ◌+◌, ◌-◌, ◌*◌, ◌/◌, ◌%◌, ◌^◌, ◌≤◌, ◌<◌, min}
pub use mathlib.Core.Path.{◌≡◌, refl, sym, ap, ◌∙◌, subst}
pub use mathlib.Core.Logic.{◌≢◌, ◌↔◌, ◌⊎◌, inl, inr}
pub use mathlib.Core.Bool.{Bool, true, false, not, ◌&&◌, ◌||◌}
pub use mathlib.Core.Option.{Option, none, some}
pub use mathlib.Core.List.{List, [], ◌∷◌, ◌++◌, map, append-nil, append_assoc}
pub use native.Mathlib.Omega.{arith}
