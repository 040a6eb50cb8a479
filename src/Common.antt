-- ===== src/Common.antt =====
-- The names that the other modules share: the libraries', passed on, and those of the children.
pub mod Tests
pub mod Lists
pub mod Unique
pub mod Texts
pub mod Members
pub mod Sets
pub mod Ranges
pub mod Counts
pub mod Groups
pub mod Sorted
pub mod Ordered
pub mod Pieces
pub mod Results
pub mod Times
pub use Tests.*
pub use Lists.*
pub use Unique.*
unfoldable pub use Texts.*
pub use Members.*
pub use Sets.*
pub use Ranges.*
pub use Counts.*
pub use Groups.*
pub use Sorted.*
pub use Ordered.*
pub use Pieces.*
pub use Results.*
unfoldable pub use Times.*
pub use Prim.Native.Nat.{ℕ, zero, suc, ◌+◌, ◌-◌, ◌*◌, ◌/◌, ◌%◌, ◌^◌, ◌≤◌, ◌<◌}
pub use mathlib.Core.Path.{◌≡◌, refl, sym, ap, subst, ◌∙◌}
pub use mathlib.Core.Logic.{◌≢◌, ◌↔◌, ◌⊎◌, inl, inr}
pub use mathlib.Core.Bool.{Bool, true, false, not, ◌&&◌, ◌||◌}
pub use mathlib.Core.Option.{Option, none, some}
pub use mathlib.Core.List.{List, [], ◌∷◌, ◌++◌, map, Memᴰ}
pub use native.Mathlib.Omega.{arith}
