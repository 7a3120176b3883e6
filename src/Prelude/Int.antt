-- ===== src/Prelude/Int.antt =====
-- Signed C integers: an `int` or `long` as an integer, and the bit pattern that a register holds.
use Prim.Native.Nat.{ℕ, suc, ◌-◌, ◌%◌, ◌^◌}
use mac_ify.Prelude.Tests.{ltb, if◌then◌else◌}

-- `negsuc n` is -(n + 1).
pub data ℤ : Type 0 where
  pos : ℕ → ℤ
  negsuc : ℕ → ℤ

-- `(int)r` of a 64-bit register: its low 32 bits, read in two's complement.
unfoldable pub int_of : ℕ → ℤ
int_of r = let w = r % 2 ^ 32 in if ltb w (2 ^ 31) then pos w else negsuc (2 ^ 32 - w - 1)

-- `(long)i` of an `int`: the sign-extended pattern of 64 bits.
unfoldable pub long_of : ℤ → ℕ
long_of (pos n) = n
long_of (negsuc n) = 2 ^ 64 - suc n
