-- ===== src/Base.antt =====
-- What every other module shares: library names passed on, Boolean tests on native numbers,
-- Go's slices, strings, maps, 64-bit integers and floats.
mod Tests
mod Lists
mod Bytes
pub mod Int
pub mod Decimal
pub mod Spaces
pub mod Map
pub mod IntMap
pub mod Float
pub mod Containers
pub use Tests.*
pub use Lists.*
unfoldable pub use Bytes.{text_eq}
pub use Bytes.{Text, codes, text_eq_iff, text_eq_refl}
pub use Prim.Native.Nat.{ℕ, zero, suc, ◌+◌, ◌-◌, ◌*◌, ◌/◌, ◌%◌, ◌^◌, ◌≤◌, ◌<◌}
pub use mathlib.Core.Path.{◌≡◌, refl, sym, ap, ◌∙◌}
pub use mathlib.Core.Logic.{◌≢◌, ◌↔◌, ◌⊎◌, inl, inr}
pub use mathlib.Core.Bool.{Bool, true, false, not, ◌&&◌, ◌||◌}
pub use mathlib.Core.Option.{Option, none, some}
pub use mathlib.Core.List.{List, [], ◌∷◌, ◌++◌, map}
pub use native.Mathlib.Omega.{arith}
