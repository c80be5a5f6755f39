-- ===== src/Base.antt =====
-- Names that every other module shares: the libraries' passed on, Boolean tests, lists, maps, text.
mod Tests
mod Lists
mod Texts
mod Maps
mod Methods
mod Rosters
pub use Tests.*
pub use Lists.*
unfoldable pub use Texts.*
pub use Maps.*
pub use Methods.*
pub use Rosters.*
pub use Prim.Native.Nat.{ℕ, zero, suc, pred, ◌+◌, ◌-◌, ◌*◌, ◌/◌, ◌%◌, ◌≤◌, ◌<◌}
pub use mathlib.Core.Path.{◌≡◌, refl, sym, ap, subst, ◌∙◌}
pub use mathlib.Core.Logic.{◌≢◌, ◌↔◌, ◌⊎◌, inl, inr}
pub use mathlib.Core.Bool.{Bool, true, false, not, ◌&&◌, ◌||◌}
pub use mathlib.Core.Option.{Option, none, some}
pub use mathlib.Core.List.{List, [], ◌∷◌, ◌++◌, map, append-nil, append_assoc}
pub use native.Mathlib.Omega.{arith}
