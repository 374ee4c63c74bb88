-- ===== src/Base.antt =====
-- Names that every part of the development shares: the library's, passed on, and those of five
-- children (Boolean tests, lists, maps, text, and the effect monad of the services).
mod Tests
mod Lists
mod Maps
mod Text
mod Effects
unfoldable pub use Tests.*
unfoldable pub use Lists.*
unfoldable pub use Maps.*
unfoldable pub use Text.*
unfoldable pub use Effects.*
pub use Prim.Native.Nat.{ℕ, zero, suc, ◌+◌, ◌-◌, ◌*◌, ◌/◌, ◌%◌, ◌^◌, ◌≤◌, ◌<◌, min}
pub use Prim.Native.String.{String, ◌++◌ as ◌<>◌}
pub use mathlib.Core.Path.{◌≡◌, refl, sym, ap, subst, ◌∙◌}
pub use mathlib.Core.Logic.{◌≢◌, ◌↔◌, ◌⊎◌, inl, inr}
pub use mathlib.Core.Bool.{Bool, true, false, not, ◌&&◌, ◌||◌}
pub use mathlib.Core.Option.{Option, none, some}
pub use mathlib.Core.List.{List, [], ◌∷◌, ◌++◌, map, Memᴰ}
pub use native.Mathlib.Omega.{arith}
pub use text.Mathlib.Text.{◌==◌}
pub use text.Mathlib.TextEquality.{eq_iff}
pub use text.Mathlib.TextPositions.{eq_refl}
