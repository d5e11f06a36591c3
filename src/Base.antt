-- ===== src/Base.antt =====
-- The names that the modules of the kernel share: the library's, passed on, and those of the
-- children (tests on numbers, C arrays as lists, 32-bit words).
mod Tests
mod Lists
mod Words
mod Tables
mod Tabulate
pub use Tests.*
pub use Lists.*
pub use Words.*
unfoldable pub use Tables.*
pub use Tabulate.*
pub use Prim.Native.Nat.{ℕ, zero, suc, ◌+◌, ◌-◌, ◌*◌, ◌/◌, ◌%◌, ◌^◌, ◌≤◌, ◌<◌}
pub use mathlib.Core.Path.{◌≡◌, refl, sym, ap, ◌∙◌}
pub use mathlib.Core.Logic.{◌≢◌, ◌⊎◌, inl, inr}
pub use mathlib.Core.Bool.{Bool, true, false, not, ◌&&◌, ◌||◌}
pub use mathlib.Core.Option.{Option, none, some}
pub use mathlib.Core.List.{List, [], ◌∷◌, ◌++◌, map}
pub use native.Mathlib.Omega.{arith}
