-- ===== src/Base.antt =====
-- The names that the other modules share: the libraries', passed on, and those of the children.
mod Tests
mod Lists
mod Sets
mod Sort
mod Dicts
mod Results
mod Slices
mod Tables
pub mod Exec
pub use Tests.*
pub use Lists.*
unfoldable pub use Sets.*
unfoldable pub use Sort.*
unfoldable pub use Dicts.*
pub use Results.*
pub use Slices.*
unfoldable pub use Tables.*
pub use Prim.Native.Nat.{ℕ, zero, suc, ◌+◌, ◌-◌, ◌*◌, ◌/◌, ◌%◌, ◌^◌, ◌≤◌, ◌<◌}
pub use mathlib.Core.Path.{◌≡◌, refl, sym, ap, ◌∙◌, subst}
pub use mathlib.Core.Logic.{◌≢◌, ◌↔◌, ◌⊎◌, inl, inr}
pub use mathlib.Core.Bool.{Bool, true, false, not, ◌&&◌, ◌||◌}
pub use mathlib.Core.Option.{Option, none, some}
pub use mathlib.Core.List.{List, [], ◌∷◌, ◌++◌, map}
pub use native.Mathlib.Omega.{arith}
