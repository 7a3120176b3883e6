-- ===== src/Prelude.antt =====
-- The names that the other modules share: the libraries', passed on, and those of the children.
mod Tests
mod Order
mod Bits
mod Finite
mod Flags
mod Int
mod Mem
mod Lists
mod Text
pub use Tests.*
unfoldable pub use Lists.{bytes_eq}
pub use Lists.{length, length-append, take, bytes_eq_sound, bytes_eq_refl}
unfoldable pub use Text.{contains, starts_with, is_under}
pub use Text.{
  codes, drop, Under, itself, under, is_under-Under, Under-is_under, take_all, drop-append,
}
pub use Text.{starts_with-append}
pub use Bits.*
unfoldable pub use Order.{lt_wf}
unfoldable pub use Finite.{all_below, entry, rows_below}
pub use Finite.{all_below_sound, entry-below}
unfoldable pub use Flags.{has, translate_bits, touching}
unfoldable pub use Flags.{carries, misses}
pub use Flags.{and-translate_bits, translate_bits_untouched, translate_bits_row, mode_away}
pub use Flags.{has_of_bits, carries_sound, misses_sound}
unfoldable pub use Mem.{poke, load, store}
pub use Mem.{Memory, store_away, load_cong, load-store, load-store_away}
unfoldable pub use Int.{int_of, long_of}
pub use Int.{ℤ, pos, negsuc}
pub use Prim.Native.Nat.{ℕ, zero, suc, ◌+◌, ◌-◌, ◌*◌, ◌/◌, ◌%◌, ◌^◌, ◌≤◌, ◌<◌, min, max}
pub use Prim.Native.Nat.{bit_and, bit_or}
pub use mathlib.Core.Path.{◌≡◌, refl, sym, ap, ◌∙◌}
pub use mathlib.Core.Logic.{◌≢◌, ◌↔◌, ◌⊎◌, inl, inr}
pub use mathlib.Core.Bool.{Bool, true, false, not, ◌&&◌, ◌||◌}
pub use mathlib.Core.Option.{Option, none, some}
pub use mathlib.Core.List.{List, [], ◌∷◌, ◌++◌, map}
pub use native.Mathlib.Omega.{arith}
