-- ===== src/Prelude.antt =====
-- The names that the other modules share: those of the libraries, Boolean tests on the native
-- numbers, vectors as lists, and the outcomes of a C++ call.
mod Tests
mod Vectors
pub mod Integers
pub mod Outcome
pub mod Xor
pub mod Pigeonhole
pub use Tests.*
unfoldable pub use Vectors.{resize}
pub use Vectors.*
pub use Prim.Native.Nat.{ℕ, zero, suc, ◌+◌, ◌-◌, ◌*◌, ◌/◌, ◌%◌, ◌^◌, ◌≤◌, ◌<◌}
pub use mathlib.Core.Path.{◌≡◌, refl, sym, ap, ap₂, subst, ◌∙◌}
pub use mathlib.Core.Logic.{◌≢◌, ◌↔◌, ◌⊎◌, inl, inr}
pub use mathlib.Core.Bool.{Bool, true, false, not, ◌&&◌, ◌||◌}
pub use mathlib.Core.Option.{Option, none, some}
pub use mathlib.Core.List.{List, [], ◌∷◌, ◌++◌, map, foldl}
pub use native.Mathlib.Omega.{arith}
