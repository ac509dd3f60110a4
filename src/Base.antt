-- ===== src/Base.antt =====
-- The names that the other modules share: the libraries', passed on, and those of the children.
-- The children model what the source uses of Go: `int`, `strings.TrimSpace`, `strconv.Itoa`,
-- maps with string keys, and the texts that `fmt.Sprintf` Builds.
mod Tests
mod Lists
pub mod Int
pub mod Keys
pub mod Pigeons
pub mod Ordinals
pub mod Text
pub mod Paths
pub mod Decimal
pub mod Orders
pub use Tests.*
unfoldable pub use Tests.{String-discrete}
pub use Lists.*
pub use Prim.Native.Nat.{ℕ, zero, suc, ◌+◌, ◌-◌, ◌*◌, ◌/◌, ◌%◌, ◌^◌, ◌≤◌, ◌<◌}
pub use Prim.Native.String.{String}
pub use mathlib.Core.Path.{◌≡◌, refl, sym, ap, subst, subst₂, ◌∙◌}
pub use mathlib.Core.Logic.{◌≢◌, ◌↔◌, ◌⊎◌, inl, inr}
pub use mathlib.Core.Bool.{Bool, true, false, not, ◌&&◌, ◌||◌}
pub use mathlib.Core.Option.{Option, none, some}
pub use mathlib.Core.List.{List, [], ◌∷◌, ◌++◌, map}
pub use native.Mathlib.Omega.{arith}
pub use mathlib.Core.List.{append_assoc, append-nil}
