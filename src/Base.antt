-- ===== src/Base.antt =====
-- What the modules share: library names passed on, tests, lists over the native numbers, the
-- result of a Go function that returns a value and an `error`, and Go's floats and times.
mod Tests
mod Lists
mod Outcome
mod Runtime
mod Dict
mod Attempts
pub use Tests.*
pub use Lists.*
pub use Outcome.*
pub use Runtime.*
unfoldable pub use Dict.*
unfoldable pub use Attempts.*
pub use Prim.Native.Nat.{ℕ, zero, suc, ◌+◌, ◌-◌, ◌*◌, ◌≤◌, ◌<◌}
pub use Prim.Native.String.{String}
pub use mathlib.Core.Path.{◌≡◌, refl, sym, ap, ◌∙◌, subst}
pub use mathlib.Core.Logic.{◌≢◌, ◌↔◌, ◌⊎◌, inl, inr}
pub use mathlib.Core.Bool.{Bool, true, false, not, ◌&&◌, ◌||◌}
pub use mathlib.Core.Option.{Option, none, some}
pub use mathlib.Core.List.{List, [], ◌∷◌, ◌++◌, map, append_assoc, append-nil}
pub use native.Mathlib.Omega.{arith}
