-- ===== src/Prelude/Finite.antt =====
-- Statements over a small range, checked at every value; and constant tables of C.
use Prim.Native.Nat.{ℕ, zero, suc, ◌<◌}
use mathlib.Core.Path.{◌≡◌}
use mathlib.Core.Bool.{Bool, true, ◌&&◌}
use mathlib.Core.List.{List, [], ◌∷◌}
use native.Mathlib.Omega.{arith}
use mac_ify.Prelude.Tests.{ltb, ◌==◌, if◌then◌else◌}

unfoldable pub all_below : ℕ → (ℕ → Bool) → Bool
all_below zero p = true
all_below (suc n) p = p n && all_below n p

pub all_below_sound :
    (bound : ℕ) (test : ℕ → Bool) (i : ℕ) → all_below bound test ≡ true → i < bound → test i ≡ true
unfolding all_below
all_below_sound zero test i all below = absurd (omega arith)
all_below_sound (suc bound) test i all below = ground (arith, all_below_sound bound test i)

-- An array of C given by designated initialisers, `[k] = v`: every other element is 0.
unfoldable pub entry : List (ℕ × ℕ) → ℕ → ℕ
entry [] i = 0
entry ((k, v) ∷ rows) i = if i == k then v else entry rows i

unfoldable pub rows_below : ℕ → List (ℕ × ℕ) → Bool
rows_below b [] = true
rows_below b ((k, v) ∷ rows) = ltb v b && rows_below b rows

-- What holds of the rows of a table, and of 0, holds of every element.
pub entry-below :
    (b : ℕ) (rows : List (ℕ × ℕ)) (i : ℕ) → rows_below (suc b) rows ≡ true → entry rows i < suc b
unfolding entry rows_below
entry-below b [] i h = omega arith
entry-below b ((k, v) ∷ rows) i h = ground (arith, entry-below b rows i)
