-- ===== src/Base.antt =====
-- The names that the other modules share: the libraries', passed on, and those of the children.
pub mod Tests
pub mod Texts
pub mod Maps
pub mod Lists
pub mod Keys
pub mod Sorting
pub mod Ints
pub mod Decimals
pub mod Int64
pub use Tests.*
unfoldable pub use Texts.*
unfoldable pub use Maps.*
unfoldable pub use Lists.*
unfoldable pub use Keys.*
unfoldable pub use Sorting.*
pub use Ints.*
unfoldable pub use Decimals.*
unfoldable pub use Int64.*
pub use Prim.Native.Nat.{ℕ, zero, suc, ◌+◌, ◌-◌, ◌*◌, ◌/◌, ◌%◌, ◌^◌, ◌≤◌, ◌<◌, min}
pub use mathlib.Core.Path.{◌≡◌, refl, sym, ap, subst, subst₂, ◌∙◌}
pub use mathlib.Core.Logic.{◌≢◌, ◌↔◌, ◌⊎◌, inl, inr}
unfoldable pub use mathlib.Core.Logic.{ite}
pub use mathlib.Core.Bool.{Bool, true, false, not, ◌&&◌, ◌||◌}
pub use mathlib.Core.Option.{Option, none, some}
pub use mathlib.Core.List.{List, [], ◌∷◌, ◌++◌, map}
pub use native.Mathlib.Omega.{arith}
unfoldable pub use native.Mathlib.Decide.{ℕ_discrete}
