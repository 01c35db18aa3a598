-- ===== src/Base.antt =====
-- The names that every part shares: the library's, passed on, and those of the children below.
mod Compare
mod Lists
mod Bytes
mod Reads
pub mod Int
mod Overflow
mod Text
mod Net
unfoldable pub use Compare.*
unfoldable pub use Overflow.*
pub use Text.*
pub use Net.*
pub use Lists.*
pub use Reads.*
unfoldable pub use Bytes.*
pub use Prim.Native.Nat.{ℕ, zero, suc, ◌+◌, ◌-◌, ◌*◌, ◌/◌, ◌%◌, ◌^◌, ◌≤◌, ◌<◌, min}
pub use mathlib.Core.Path.{◌≡◌, refl, sym, ap, ap₂, subst, ◌∙◌}
pub use mathlib.Core.Logic.{◌≢◌, ◌↔◌, ◌⊎◌, inl, inr}
pub use mathlib.Core.Bool.{Bool, true, false, not, ◌&&◌, ◌||◌}
pub use mathlib.Core.Option.{Option, none, some}
pub use mathlib.Core.List.{List, [], ◌∷◌, ◌++◌, map}
pub use native.Mathlib.Omega.{arith}
