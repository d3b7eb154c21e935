-- ===== src/Common.antt =====
-- The names that the other modules share: the libraries' names, Boolean tests on the native numbers,
-- the tables of the database as lists, and the monad of the service methods.
mod Tests
mod Rows
mod RowLaws
mod Action
mod ActionLaws
mod Pages
mod Counts
pub mod Text
pub use Tests.*
pub use Rows.*
pub use RowLaws.*
pub use Action.*
pub use ActionLaws.*
pub use Pages.*
pub use Counts.*
unfoldable pub use Pages.{newest_first}
pub use Prim.Native.Nat.{ℕ, zero, suc, ◌+◌, ◌-◌, ◌*◌, ◌/◌, ◌%◌, ◌^◌, ◌≤◌, ◌<◌}
pub use Prim.Native.String.{String}
pub use mathlib.Core.Path.{◌≡◌, refl, sym, ap, ◌∙◌}
pub use mathlib.Core.Logic.{◌≢◌, ◌↔◌, ◌⊎◌, inl, inr}
pub use mathlib.Core.Bool.{Bool, true, false, ◌&&◌, ◌||◌, not}
pub use mathlib.Core.Option.{Option, none, some}
pub use mathlib.Core.List.{List, [], ◌∷◌, ◌++◌, map}
pub use native.Mathlib.Omega.{arith}
pub use text.Mathlib.Text.{◌==◌}
pub use text.Mathlib.TextEquality.{eq_iff}
pub use text.Mathlib.TextPositions.{eq_refl}
