-- ===== src/Base.antt =====
-- The names that every module shares: those of the libraries, passed on, Boolean tests on numbers,
-- lists indexed by native numbers, and the bits of machine words.
mod Tests
mod Lists
mod Words
mod Bytes
mod Text
pub mod Int
pub use Tests.*
pub use Lists.*
unfoldable pub use Words.*
unfoldable pub use Bytes.*
pub use Text.*
pub use Prim.Native.Nat.{ℕ, zero, suc, ◌+◌, ◌-◌, ◌*◌, ◌/◌, ◌%◌, ◌^◌, ◌≤◌, ◌<◌, min}
pub use mathlib.Core.Path.{◌≡◌, refl, sym, ap, ap₂, ◌∙◌}
pub use mathlib.Core.Logic.{◌≢◌, ◌↔◌, ◌⊎◌, inl, inr}
pub use mathlib.Core.Bool.{Bool, true, false, not, ◌&&◌, ◌||◌}
pub use mathlib.Core.Option.{Option, none, some}
pub use mathlib.Core.List.{List, [], ◌∷◌, ◌++◌, map}
pub use mathlib.Core.List.{append_assoc, append-nil}
pub use native.Mathlib.Omega.{arith}
