-- ===== src/Prelude.antt =====
-- The names that the other modules share.
mod Tests
mod Words
pub mod Result
pub mod Maps
pub mod Counts
pub mod Checked
pub mod Indexes
pub mod Text
mod Lists
pub use Tests.*
pub use Words.*
unfoldable pub use Lists.*
pub use Maps.{Map, Unique}
pub use Counts.{is_empty}
pub use Prim.Native.Nat.{ℕ, zero, suc, ◌+◌, ◌-◌, ◌*◌, ◌/◌, ◌%◌, ◌^◌, ◌≤◌, ◌<◌, min, max}
pub use Prim.Native.String.{String}
pub use mathlib.Core.Path.{◌≡◌, refl, sym, ap, ◌∙◌, subst}
pub use mathlib.Core.Logic.{◌≢◌, ◌↔◌, ◌⊎◌, inl, inr}
pub use mathlib.Core.Bool.{Bool, true, false, not, ◌&&◌, ◌||◌}
pub use mathlib.Core.Option.{Option, none, some}
pub use mathlib.Core.List.{List, [], ◌∷◌, ◌++◌, map}
pub use native.Mathlib.Omega.{arith}
