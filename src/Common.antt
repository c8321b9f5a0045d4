-- ===== src/Common.antt =====
-- The names that the other modules share: the libraries', passed on, and those of the children.
mod Tests
mod Lists
mod Options
mod Words
mod Bits
pub use Tests.*
pub use Lists.*
pub use Options.*
unfoldable pub use Bits.{test_bit, set_bit, clear_bit}
pub use Bits.{
  test_bit-zero, test_bit-set_bit_self, test_bit-clear_bit_self, test_bit-set_bit_other,
  test_bit-clear_bit_other, set_bit-lt,
}
unfoldable pub use Words.{add32, sub32, neg32}
pub use Words.{u32_mod, u8, u32, is_negative, add32-eq}
pub use Prim.Native.Nat.{ℕ, zero, suc, ◌+◌, ◌-◌, ◌*◌, ◌/◌, ◌%◌, ◌^◌, ◌≤◌, ◌<◌}
pub use mathlib.Core.Path.{◌≡◌, refl, sym, ap, ◌∙◌}
pub use mathlib.Core.Logic.{◌≢◌, ◌↔◌, ◌⊎◌, inl, inr}
pub use mathlib.Core.Bool.{Bool, true, false, not, ◌&&◌, ◌||◌}
pub use mathlib.Core.Option.{Option, none, some}
pub use mathlib.Core.List.{List, [], ◌∷◌, ◌++◌, map}
pub use native.Mathlib.Omega.{arith}
