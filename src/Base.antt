-- ===== src/Base.antt =====
-- The names that the modules share: those of the libraries, passed on, and those of five children:
-- tests on numbers and the conditional, lists as C arrays, the outcome of a C++ call, what holds of it, and calls that
-- end.
mod Tests
mod Lists
mod Outcomes
mod Rules
mod Halting
pub mod Bits
pub use Tests.*
unfoldable pub use Lists.*
pub use Outcomes.*
pub use Rules.*
pub use Halting.*
pub use Prim.Native.Nat.{
  ℕ, zero, suc, ◌+◌, ◌-◌, ◌*◌, ◌/◌, ◌%◌, ◌^◌, ◌≤◌, ◌<◌, min, max, bit_and, bit_or,
}
pub use mathlib.Core.Path.{◌≡◌, refl, sym, ap, ap₂, ◌∙◌, subst, subst₂, ◌≡⟨◌⟩◌, ◌∎}
pub use mathlib.Core.Logic.{◌≢◌, ◌↔◌, ◌⊎◌, inl, inr}
pub use mathlib.Core.Bool.{Bool, true, false, ◌&&◌, ◌||◌, not}
pub use mathlib.Core.Option.{Option, none, some}
pub use mathlib.Core.List.{List, [], ◌∷◌, ◌++◌, map, append-nil, append_assoc, map-append}
pub use native.Mathlib.Omega.{arith}
