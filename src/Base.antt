-- ===== src/Base.antt =====
-- The names that the other modules share: the libraries', passed on, and those of the children
-- (Boolean tests and texts, lists, association lists for Go's maps).
mod Tests
mod Lists
mod Maps
mod Spaces
pub mod Sort
mod Results
pub use Tests.*
pub use Lists.*
pub use Maps.*
pub use Spaces.*
pub use Sort.*
pub use Results.*
unfoldable pub use Tests.{bytes, ◌==◌}
unfoldable pub use Lists.{contains, collect}
unfoldable pub use Maps.{lookup, insert, overlay, last_lookup}
unfoldable pub use Spaces.{trim_left, trim_right, cut_equals, digits, decimal}
unfoldable pub use Sort.{text_leb, insert_by, sort_by}
pub use Prim.Native.Nat.{ℕ, zero, suc, ◌+◌, ◌-◌, ◌≤◌, ◌<◌}
pub use mathlib.Core.Path.{◌≡◌, refl, sym, ap, ◌∙◌}
pub use mathlib.Core.Logic.{◌≢◌, ◌↔◌, ◌⊎◌, inl, inr}
pub use mathlib.Core.Bool.{Bool, true, false, ◌&&◌, ◌||◌, not}
pub use mathlib.Core.Option.{Option, none, some}
pub use mathlib.Core.List.{List, [], ◌∷◌, ◌++◌, map, append-nil, append_assoc}
pub use native.Mathlib.Omega.{arith}
