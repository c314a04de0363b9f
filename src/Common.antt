-- ===== src/Common.antt =====
-- The names that the other modules share: numbers, lists, options, tests, and the children
-- on lists, on the bits of machine words and on options.
mod Tests
pub mod Lists
pub mod Bits
pub mod Options
pub use Tests.*
pub use Lists.{
  length, take, drop, get_elem?, replicate, length-append, length-take, length-drop,
  take-append-drop, All, All-append, drop-append_exact, take-append_exact, List-cases, take_all,
  take-append_front, take-append_behind, drop-append_front, drop-append_behind,
}
pub use Prim.Native.Nat.{ℕ, zero, suc, ◌+◌, ◌-◌, ◌*◌, ◌/◌, ◌%◌, ◌^◌, ◌≤◌, ◌<◌, min, max}
pub use Prim.Native.Nat.{bit_and, bit_or, bit_xor}
pub use mathlib.Core.Path.{◌≡◌, refl, sym, ap, ◌∙◌}
pub use mathlib.Core.Logic.{◌≢◌, ◌↔◌, ◌⊎◌, inl, inr}
pub use mathlib.Core.Bool.{Bool, true, false, not, ◌&&◌, ◌||◌}
pub use mathlib.Core.Option.{Option, none, some}
pub use mathlib.Core.List.{List, [], ◌∷◌, ◌++◌, map, reverse, append-nil, append_assoc}
pub use native.Mathlib.Omega.{arith}

abbrev pub Bytes : Type 0
Bytes = List ℕ

abbrev pub IsByte : ℕ → Type 0
IsByte b = b < 256
