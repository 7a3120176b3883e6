-- ===== src/Prelude/Flags.antt =====
-- Flag words: the test `f & m`, and the chain of `if (f & m) acc |= l;` that every flag translation
-- of the program is made of.
use Prim.Native.Nat.{ℕ, bit_and, bit_or}
use mathlib.Core.Path.{◌≡◌, refl}
use mathlib.Core.Bool.{Bool, true, false, not, ◌&&◌}
use mathlib.Core.List.{List, [], ◌∷◌}
use mathlib.Core.Logic.{◌≢◌}
use native.Mathlib.Omega.{arith}
use mac_ify.Prelude.Tests.{◌==◌, if◌then◌else◌}
use mac_ify.Prelude.Bits.{bit_or-zero, bit_and-bit_or, bit_and_assoc, bit_and-zero, zero-or}
use mac_ify.Prelude.Bits.{zero-and}

-- `f & m` as a C condition.
unfoldable pub has : ℕ → ℕ → Bool
has f m = not (bit_and f m == 0)

-- `if (f & m) acc |= l;` for each pair `(m, l)` in order.
unfoldable pub translate_bits : List (ℕ × ℕ) → ℕ → ℕ → ℕ
translate_bits [] f acc = acc
translate_bits ((m, l) ∷ rows) f acc = translate_bits rows f (if has f m then bit_or acc l else acc)

-- The rows that can touch the bits `k`, cut down to those bits.
unfoldable pub touching : ℕ → List (ℕ × ℕ) → List (ℕ × ℕ)
touching k [] = []
touching k ((m, l) ∷ rows) =
    let rest = touching k rows in if bit_and l k == 0 then rest else (m, bit_and l k) ∷ rest

-- What a chain leaves in the bits `k` is made by the rows that touch them.
pub and-translate_bits :
    (k : ℕ) (rows : List (ℕ × ℕ)) (f acc : ℕ)
    → bit_and (translate_bits rows f acc) k ≡ translate_bits (touching k rows) f (bit_and acc k)
unfolding translate_bits touching
and-translate_bits k [] f acc = refl
and-translate_bits k ((m, l) ∷ rows) f acc = ground (
  arith,
  and-translate_bits k rows f acc,
  and-translate_bits k rows f (bit_or acc l),
  bit_and-bit_or acc l k,
  bit_or-zero (bit_and acc k),
)

-- Bits that no row touches stay as they were.
pub translate_bits_untouched :
    (k : ℕ) (rows : List (ℕ × ℕ)) (f acc : ℕ)
    → touching k rows ≡ []
    → bit_and (translate_bits rows f acc) k ≡ bit_and acc k
unfolding translate_bits
translate_bits_untouched k rows f acc e = rw (and-translate_bits k rows f acc, e)

-- Bits that one row sets, on the flag `m`, and that are clear at first.
pub translate_bits_row :
    (k m : ℕ) (rows : List (ℕ × ℕ)) (f acc : ℕ)
    → touching k rows ≡ (m, k) ∷ []
    → bit_and acc k ≡ 0
    → bit_and (translate_bits rows f acc) k ≡ (if has f m then k else 0)
unfolding translate_bits
translate_bits_row k m rows f acc e z =
    rw (and-translate_bits k rows f acc, e) (ground (arith, zero-or k))

-- The mode bits `j` of a word have none of the bits `k`.
pub mode_away : (f j k : ℕ) → bit_and j k ≡ 0 → bit_and (bit_and f j) k ≡ 0
mode_away f j k e = rw (bit_and_assoc f j k, e, bit_and-zero f)

-- The condition of the test, from the bits.
pub has_of_bits :
    (f g j k : ℕ) → bit_and f j ≡ (if has g k then j else 0) → j ≢ 0 → has f j ≡ has g k
unfolding has
has_of_bits f g j k e h = ground (arith, e)

-- Decides that `(m, k)` is the one row of a list.
unfoldable pub is_one_row : ℕ → ℕ → List (ℕ × ℕ) → Bool
is_one_row k m [] = false
is_one_row k m ((a, b) ∷ []) = (a == m) && (b == k)
is_one_row k m ((a, b) ∷ r ∷ rest) = false

is_one_row_sound : (k m : ℕ) (rows : List (ℕ × ℕ)) → is_one_row k m rows ≡ true → rows ≡ (m, k) ∷ []
unfolding is_one_row
is_one_row_sound k m [] h = cc
is_one_row_sound k m ((a, b) ∷ []) h = ground arith
is_one_row_sound k m ((a, b) ∷ r ∷ rest) h = cc

-- Decides that the non-empty bits `k` are set by one row only, on the flag `m`.
unfoldable pub carries : List (ℕ × ℕ) → ℕ → ℕ → Bool
unfolding is_one_row touching
carries rows m k = not (k == 0) && is_one_row k m (touching k rows)

pub carries_sound :
    (rows : List (ℕ × ℕ)) (m k f : ℕ)
    → carries rows m k ≡ true
    → has (translate_bits rows f 0) k ≡ has f m
unfolding carries
carries_sound rows m k f h =
    has_of_bits (translate_bits rows f 0) f k m
      (translate_bits_row k m rows f 0 (is_one_row_sound k m (touching k rows) (ground (arith, h)))
        (zero-and k))
      (ground (arith, h))

-- Decides that no row touches the bits `k`.
unfoldable pub misses : List (ℕ × ℕ) → ℕ → Bool
unfolding touching
misses rows k = elim (touching k rows) [ [] ↦ true | r ∷ rest ↦ false ]

nil_of_misses : (rows : List (ℕ × ℕ)) (k : ℕ) → misses rows k ≡ true → touching k rows ≡ []
nil_of_misses rows k = unfold misses in at (touching k rows)
  where
    at : (l : List (ℕ × ℕ)) → elim l [ [] ↦ true | r ∷ rest ↦ false ] ≡ true → l ≡ []
    at [] h = refl
    at (r ∷ rest) h = cc

pub misses_sound :
    (rows : List (ℕ × ℕ)) (k f : ℕ) → misses rows k ≡ true → has (translate_bits rows f 0) k ≡ false
unfolding has
misses_sound rows k f h =
    ground (arith, translate_bits_untouched k rows f 0 (nil_of_misses rows k h), zero-and k)
