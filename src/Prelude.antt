-- ===== src/Prelude.antt =====
-- The names that the other modules share: the libraries', passed on, and those of eight children.
mod Tests
mod Lists
mod Texts
mod Decimals
mod Maps
mod Sets
mod Sorts
mod Orders
pub use Tests.*
pub use Lists.*
unfoldable pub use Texts.*
unfoldable pub use Decimals.*
unfoldable pub use Maps.*
unfoldable pub use Sets.*
unfoldable pub use Sorts.*
unfoldable pub use Orders.*
pub use Prim.Native.Nat.{ℕ, zero, suc, ◌+◌, ◌-◌, ◌*◌, ◌/◌, ◌%◌, ◌^◌, ◌≤◌, ◌<◌, min, max}
pub use mathlib.Core.Path.{◌≡◌, refl, sym, ap, ◌∙◌}
pub use mathlib.Core.Logic.{◌≢◌, ◌↔◌, ◌⊎◌, inl, inr}
pub use mathlib.Core.Bool.{Bool, true, false, not, ◌&&◌, ◌||◌}
pub use mathlib.Core.Option.{Option, none, some}
pub use mathlib.Core.List.{List, [], ◌∷◌, ◌++◌, map, append_assoc, append-nil}
pub use native.Mathlib.Omega.{arith}
