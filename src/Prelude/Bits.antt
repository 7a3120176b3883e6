-- ===== src/Prelude/Bits.antt =====
-- Laws of `&` and `|`, from the equation for the lowest binary digit.
use Prim.Native.Nat.{ℕ, zero, suc, ◌+◌, ◌-◌, ◌*◌, ◌/◌, ◌%◌, ◌^◌, ◌≤◌, ◌<◌, min, max}
use Prim.Native.Nat.{bit_and, bit_or, digits, bitwise, bit_and-bitwise, bit_or-bitwise}
use mathlib.Core.Path.{◌≡◌, refl, ap, ◌∙◌}
use native.Mathlib.Nat.{le_refl, pow-suc, one-le-pow}
use native.Mathlib.Omega.{arith}

module _ (z : ℕ → ℕ) (op : ℕ → ℕ → ℕ) where
  -- More rounds than `lo`, which is enough for `x`, add nothing.
  enough_digits : (x y lo hi : ℕ) → x ≤ lo → lo ≤ hi → digits z op hi x y ≡ digits z op lo x y
  enough_digits zero y zero zero le more = refl
  enough_digits zero y zero (suc hi) le more = refl
  enough_digits zero y (suc lo) (suc hi) le more = refl
  enough_digits x y (suc lo) zero le more = absurd (omega arith)
  enough_digits (suc x) y zero hi le more = absurd (omega arith)
  enough_digits (suc x) y (suc lo) (suc hi) le more =
      ap (λ (t : ℕ). t * 2 + op (suc x % 2) (y % 2))
        (enough_digits (suc x / 2) (y / 2) lo hi (omega arith) (omega arith))

  lowest_digit :
      (x y : ℕ)
      → bitwise z op (suc x) y ≡ bitwise z op (suc x / 2) (y / 2) * 2 + op (suc x % 2) (y % 2)
  lowest_digit x y =
      ap (λ (t : ℕ). t * 2 + op (suc x % 2) (y % 2))
        (enough_digits (suc x / 2) (y / 2) (suc x / 2) x (omega arith) (omega arith))

pub bit_and_step : (m n : ℕ) → bit_and m n ≡ bit_and (m / 2) (n / 2) * 2 + min (m % 2) (n % 2)
bit_and_step zero n = rw (bit_and-bitwise 0 n, bit_and-bitwise 0 (n / 2)) (omega arith)
bit_and_step (suc m) n =
    rw (bit_and-bitwise (suc m) n, bit_and-bitwise (suc m / 2) (n / 2))
      (lowest_digit (λ y. 0) min m n)

pub bit_or_step : (m n : ℕ) → bit_or m n ≡ bit_or (m / 2) (n / 2) * 2 + max (m % 2) (n % 2)
bit_or_step zero n = rw (bit_or-bitwise 0 n, bit_or-bitwise 0 (n / 2)) (omega arith)
bit_or_step (suc m) n =
    rw (bit_or-bitwise (suc m) n, bit_or-bitwise (suc m / 2) (n / 2))
      (lowest_digit (λ y. y) max m n)

-- The value and the two digits of each step, in the form that `omega` uses.
pub and_half : (a b : ℕ) → bit_and a b / 2 ≡ bit_and (a / 2) (b / 2)
and_half a b = omega (arith, bit_and_step a b)

pub and_digit : (a b : ℕ) → bit_and a b % 2 ≡ min (a % 2) (b % 2)
and_digit a b = omega (arith, bit_and_step a b)

pub or_half : (a b : ℕ) → bit_or a b / 2 ≡ bit_or (a / 2) (b / 2)
or_half a b = omega (arith, bit_or_step a b)

pub or_digit : (a b : ℕ) → bit_or a b % 2 ≡ max (a % 2) (b % 2)
or_digit a b = omega (arith, bit_or_step a b)

-- Induction on a bound `n` of the first number.
pub zero-and : (b : ℕ) → bit_and 0 b ≡ 0
zero-and b = bit_and-bitwise 0 b

and-zero_below : (n a : ℕ) → a ≤ n → bit_and a 0 ≡ 0
and-zero_below n zero h = refl
and-zero_below zero (suc a) h = absurd (omega arith)
and-zero_below (suc n) (suc a) h =
    omega (arith, bit_and_step (suc a) 0, and-zero_below n (suc a / 2) (omega arith))

pub bit_and-zero : (a : ℕ) → bit_and a 0 ≡ 0
bit_and-zero a = and-zero_below a a (le_refl a)

or-zero_below : (n a : ℕ) → a ≤ n → bit_or a 0 ≡ a
or-zero_below n zero h = refl
or-zero_below zero (suc a) h = absurd (omega arith)
or-zero_below (suc n) (suc a) h =
    omega (arith, bit_or_step (suc a) 0, or-zero_below n (suc a / 2) (omega arith))

pub bit_or-zero : (a : ℕ) → bit_or a 0 ≡ a
bit_or-zero a = or-zero_below a a (le_refl a)

pub zero-or : (b : ℕ) → bit_or 0 b ≡ b
zero-or b = bit_or-bitwise 0 b

-- `(a & b) & c` and `(a | b) & c`, digit by digit.
and_assoc_below : (n a b c : ℕ) → a ≤ n → bit_and (bit_and a b) c ≡ bit_and a (bit_and b c)
and_assoc_below n zero b c h = rw (zero-and b, zero-and c, zero-and (bit_and b c))
and_assoc_below zero (suc a) b c h = absurd (omega arith)
and_assoc_below (suc n) (suc a) b c h =
    let ih = and_assoc_below n (suc a / 2) (b / 2) (c / 2) (omega arith) in
    let lhs : bit_and (bit_and (suc a) b) c
        ≡ bit_and (bit_and (suc a / 2) (b / 2)) (c / 2) * 2
          + min (min (suc a % 2) (b % 2)) (c % 2) =
      bit_and_step (bit_and (suc a) b) c ∙ rw (and_half, and_digit) in
    let rhs : bit_and (suc a) (bit_and b c)
        ≡ bit_and (suc a / 2) (bit_and (b / 2) (c / 2)) * 2
          + min (suc a % 2) (min (b % 2) (c % 2)) =
      bit_and_step (suc a) (bit_and b c) ∙ rw (and_half, and_digit) in
    omega (arith, ih, lhs, rhs)

pub bit_and_assoc : (a b c : ℕ) → bit_and (bit_and a b) c ≡ bit_and a (bit_and b c)
bit_and_assoc a b c = and_assoc_below a a b c (le_refl a)

and-or_below :
    (n m a b c : ℕ) → a ≤ n → b ≤ m → bit_and (bit_or a b) c ≡ bit_or (bit_and a c) (bit_and b c)
and-or_below zero zero zero zero c p q = rw (zero-and c)
and-or_below zero zero (suc a) b c p q = absurd (omega arith)
and-or_below zero zero zero (suc b) c p q = absurd (omega arith)
and-or_below n m zero b c p q = rw (zero-or b, zero-and c, zero-or (bit_and b c))
and-or_below n m (suc a) zero c p q = rw (bit_or-zero (suc a), zero-and c, bit_or-zero)
and-or_below zero (suc m) (suc a) (suc b) c p q = absurd (omega arith)
and-or_below (suc n) zero (suc a) (suc b) c p q = absurd (omega arith)
and-or_below (suc n) (suc m) (suc a) (suc b) c p q =
    let ih = and-or_below n m (suc a / 2) (suc b / 2) (c / 2) (omega arith) (omega arith) in
    let lhs : bit_and (bit_or (suc a) (suc b)) c
        ≡ bit_and (bit_or (suc a / 2) (suc b / 2)) (c / 2) * 2
          + min (max (suc a % 2) (suc b % 2)) (c % 2) =
      bit_and_step (bit_or (suc a) (suc b)) c ∙ rw (or_half, or_digit) in
    let rhs : bit_or (bit_and (suc a) c) (bit_and (suc b) c)
        ≡ bit_or (bit_and (suc a / 2) (c / 2)) (bit_and (suc b / 2) (c / 2)) * 2
          + max (min (suc a % 2) (c % 2)) (min (suc b % 2) (c % 2)) =
      bit_or_step (bit_and (suc a) c) (bit_and (suc b) c)
      ∙ rw (and_half, and_half, and_digit, and_digit) in
    omega (arith, ih, lhs, rhs)

pub bit_and-bit_or : (a b c : ℕ) → bit_and (bit_or a b) c ≡ bit_or (bit_and a c) (bit_and b c)
bit_and-bit_or a b c = and-or_below a b a b c (le_refl a) (le_refl b)

and-le_below : (n a b : ℕ) → a ≤ n → bit_and a b ≤ b
and-le_below n zero b h = omega (arith, zero-and b)
and-le_below zero (suc a) b h = absurd (omega arith)
and-le_below (suc n) (suc a) b h =
    omega (arith, bit_and_step (suc a) b, and-le_below n (suc a / 2) (b / 2) (omega arith))

-- A masked value is at most the mask.
pub bit_and-le : (a b : ℕ) → bit_and a b ≤ b
bit_and-le a b = and-le_below a a b (le_refl a)

shifted_once : (k q : ℕ) → q * 2 ^ suc k ≡ q * 2 ^ k + q * 2 ^ k
shifted_once k q = ap (λ (power : ℕ). q * power) (pow-suc 2 k) ∙ omega arith

-- `r | (q << k)` is a sum when `r` fits the `k` low bits.
pub bit_or_above : (k q r : ℕ) → r < 2 ^ k → bit_or r (q * 2 ^ k) ≡ r + q * 2 ^ k
bit_or_above zero q r fits = ground (arith, zero-or q)
bit_or_above (suc k) q r fits = ground (
  arith,
  bit_or_step r (q * 2 ^ suc k),
  shifted_once k q,
  bit_or_above k q (r / 2) (omega (arith, pow-suc 2 k)),
)

-- A mask of the `k` low bits keeps the remainder by `2 ^ k`.
mask_of_sum : (k high low : ℕ) → low < 2 ^ k → bit_and (low + high * 2 ^ k) (2 ^ k - 1) ≡ low
mask_of_sum zero high low below = rw bit_and-zero (omega arith)
mask_of_sum (suc k) high low below =
    let half : low / 2 < 2 ^ k = omega (arith, pow-suc 2 k) in
    ground (
      arith,
      mask_of_sum k high (low / 2) half,
      pow-suc 2 k,
      shifted_once k high,
      bit_and_step (low + high * 2 ^ suc k) (2 ^ suc k - 1),
    )

pub bit_and_mask : (k a : ℕ) → bit_and a (2 ^ k - 1) ≡ a % 2 ^ k
bit_and_mask k a =
    let positive : 1 ≤ 2 ^ k = one-le-pow k 2 (omega arith) in
    ground (arith, positive, mask_of_sum k (a / 2 ^ k) (a % 2 ^ k))

le-or_below : (n a b : ℕ) → b ≤ n → b ≤ bit_or a b
le-or_below n a zero h = omega arith
le-or_below zero a (suc b) h = absurd (omega arith)
le-or_below (suc n) a (suc b) h =
    omega (arith, bit_or_step a (suc b), le-or_below n (a / 2) (suc b / 2) (omega arith))

-- A sum of bits is at least each part, and fits where both fit.
pub le-bit_or : (a b : ℕ) → b ≤ bit_or a b
le-bit_or a b = le-or_below b a b (le_refl b)

pub bit_or-lt : (k a b : ℕ) → a < 2 ^ k → b < 2 ^ k → bit_or a b < 2 ^ k
bit_or-lt zero zero zero p q = omega arith
bit_or-lt zero (suc a) b p q = absurd (omega arith)
bit_or-lt zero zero (suc b) p q = absurd (omega arith)
bit_or-lt (suc k) a b p q =
    let half =
      bit_or-lt k (a / 2) (b / 2) (omega (arith, pow-suc 2 k)) (omega (arith, pow-suc 2 k)) in
    omega (arith, bit_or_step a b, half, pow-suc 2 k)
