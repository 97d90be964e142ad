-- ===== src/Shared.antt =====
-- The names that the other modules share: the library's, passed on, and those of the children.
-- It models no code of its own.
mod Tests
mod Lists
pub mod Maps
pub mod MapOrder
pub mod Every
pub mod Cells
pub use Tests.*
pub use Lists.{
  length, get_elem?, length-append, of_holds_below, codes, take, drop, take_between, drop_between,
  take-take-append, drop-take-append, take-append-drop,
}
unfoldable pub use Lists.{holds_below}
pub use Prim.Native.Nat.{ℕ, zero, suc, ◌+◌, ◌-◌, ◌*◌, ◌/◌, ◌%◌, ◌^◌, ◌≤◌, ◌<◌}
pub use mathlib.Core.Path.{◌≡◌, refl, sym, ap, ◌∙◌}
pub use mathlib.Core.Logic.{◌≢◌, ◌↔◌, ◌⊎◌, inl, inr}
pub use mathlib.Core.Bool.{Bool, true, false, not, ◌&&◌, ◌||◌}
pub use mathlib.Core.Option.{Option, none, some}
pub use mathlib.Core.List.{List, [], ◌∷◌, ◌++◌, map, append_assoc, append-nil}
pub use native.Mathlib.Omega.{arith}
