-- ===== src/Base.antt =====
-- Names that every module shares: the libraries' ones passed on, Boolean tests, lists measured by
-- native numbers, association maps for Go's maps, and the result of a Go call.
mod Tests
mod Lists
pub mod Results
pub mod Maps
pub mod Ints
unfoldable pub use Tests.*
pub use Lists.*
pub use Prim.Native.Nat.{ℕ, zero, suc, ◌+◌, ◌-◌, ◌*◌, ◌/◌, ◌%◌, ◌^◌, ◌≤◌, ◌<◌}
pub use mathlib.Core.Path.{◌≡◌, refl, sym, ap, ap₂, ◌∙◌}
pub use mathlib.Core.Logic.{◌≢◌, ◌↔◌, ◌⊎◌, inl, inr}
pub use mathlib.Core.Bool.{Bool, true, false, not, ◌&&◌, ◌||◌}
pub use mathlib.Core.Option.{Option, none, some}
pub use mathlib.Core.List.{List, [], ◌∷◌, ◌++◌, map, append-nil, append_assoc}
pub use native.Mathlib.Omega.{arith}
pub use Results.{Result, ok, err, panic, ◌>>=◌, ◌>>◌, >>=-eq-ok}
