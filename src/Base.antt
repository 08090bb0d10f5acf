-- ===== src/Base.antt =====
-- What every component shares: library names passed on, Boolean tests, errors as values, text.
mod Tests
pub mod Decimal
pub mod Ints
pub mod Keys
pub mod Lists
pub mod Order
pub mod Results
pub mod Text
pub mod Sorting
pub mod Split
pub mod Suffix
pub use Tests.*
pub use Prim.Native.Nat.{ℕ, zero, suc, ◌+◌, ◌-◌, ◌*◌, ◌/◌, ◌%◌, ◌^◌, ◌≤◌, ◌<◌}
pub use Prim.Native.String.{String, ◌++◌ as ◌<>◌, len}
pub use mathlib.Core.Path.{◌≡◌, refl, sym, ap, ap₂, ◌∙◌}
pub use mathlib.Core.Logic.{◌≢◌, ◌↔◌, ◌⊎◌, inl, inr}
pub use mathlib.Core.Bool.{Bool, true, false, not, ◌&&◌, ◌||◌}
pub use mathlib.Core.Option.{Option, none, some}
pub use mathlib.Core.List.{List, [], ◌∷◌, ◌++◌, map}
pub use native.Mathlib.Omega.{arith}
pub use text.Mathlib.Text.{◌==◌}
pub use text.Mathlib.TextEquality.{eq_iff}
pub use text.Mathlib.TextPositions.{eq_refl}
pub use Results.{
  Code, Error, coded, plain, is_code, wrap, Result, ok, err, ◌>>=◌, ◌>>◌, ensure, invalid_argument,
  not_found, conflict, precondition_failed, unauthorized, forbidden, unavailable, internal,
  resource_exceeded,
}
