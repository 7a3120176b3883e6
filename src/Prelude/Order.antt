-- ===== src/Prelude/Order.antt =====
-- `<` on the native numbers is well founded; induction that goes from `n / 2` to `n`.
use Prim.Native.Nat.{ℕ, zero, suc, ◌<◌}
use mathlib.Core.WellFounded.{Acc, WellFounded}
use native.Mathlib.Omega.{arith}

below-Acc : (k n : ℕ) → n < k → Acc ◌<◌ n
below-Acc zero n h = elim h [ ]
below-Acc (suc k) n h = Acc.intro n (λ m lt. below-Acc k m (omega arith))

unfoldable pub lt_wf : WellFounded ◌<◌
unfolding below-Acc
lt_wf = record { apply = λ n. below-Acc (suc n) n (omega arith) }
