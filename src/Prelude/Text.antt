-- ===== src/Prelude/Text.antt =====
-- Texts as lists of bytes, without the final 0 of C.
use Prim.Native.Nat.{ℕ, zero, suc, ◌≤◌}
use Prim.Native.Char.{code}
use Prim.Native.String.{String}
use mathlib.Core.Path.{◌≡◌, refl, ap}
use mathlib.Core.Bool.{Bool, true, false, ◌&&◌, ◌||◌}
use mathlib.Core.List.{List, [], ◌∷◌, ◌++◌}
use native.Mathlib.Omega.{arith}
use mac_ify.Prelude.Tests.{◌==◌}
use mac_ify.Prelude.Lists.{length, take}

abbrev pub codes : String → List ℕ
codes String.[] = []
codes (String.◌∷◌ c s) = code c ∷ codes s

-- `s + n`, for `n` up to the length of `s`
abbrev pub drop : ℕ → List ℕ → List ℕ
drop zero s = s
drop (suc n) [] = []
drop (suc n) (b ∷ s) = drop n s

-- `strncmp(s, p, strlen(p)) == 0`
unfoldable pub starts_with : List ℕ → List ℕ → Bool
starts_with [] s = true
starts_with (b ∷ p) [] = false
starts_with (b ∷ p) (c ∷ s) = b == c && starts_with p s

-- `strstr(s, p) != NULL`
unfoldable pub contains : List ℕ → List ℕ → Bool
unfolding starts_with
contains p [] = starts_with p []
contains p (c ∷ s) = starts_with p (c ∷ s) || contains p s

-- `*s == '/' || *s == '\0'`
unfoldable pub ends_component : List ℕ → Bool
ends_component [] = true
ends_component (b ∷ s) = b == b'/'

-- `strncmp(s, dir, n) == 0 && (s[n] == '/' || s[n] == '\0')` with `n` for `strlen(dir)`
unfoldable pub is_under : List ℕ → List ℕ → Bool
unfolding starts_with ends_component
is_under dir s = starts_with dir s && ends_component (drop (length dir) s)

-- A path that is the directory or goes on with a slash after it.
pub data Under (dir s : List ℕ) : Type 0 where
  itself : s ≡ dir → Under dir s
  under : (rest : List ℕ) → s ≡ dir ++ b'/' ∷ rest → Under dir s

pub is_under-Under : (dir s : List ℕ) → is_under dir s ≡ true → Under dir s
unfolding is_under starts_with ends_component
is_under-Under [] [] h = itself refl
is_under-Under [] (b ∷ s) h = under s (ground arith)
is_under-Under (b ∷ dir) [] h = cc
is_under-Under (b ∷ dir) (c ∷ s) h = more (is_under-Under dir s (ground arith))
  where
    more : Under dir s → Under (b ∷ dir) (c ∷ s)
    more (itself e) = itself (ground (arith, e))
    more (under rest e) = under rest (ground (arith, e))

pub Under-is_under : (dir s : List ℕ) → Under dir s → is_under dir s ≡ true
unfolding is_under starts_with ends_component
Under-is_under [] s (itself e) = rw e
Under-is_under [] s (under rest e) = rw e
Under-is_under (b ∷ dir) s (itself e) = rw e (ground (arith, Under-is_under dir dir (itself refl)))
Under-is_under (b ∷ dir) s (under rest e) =
    rw e (ground (arith, Under-is_under dir (dir ++ b'/' ∷ rest) (under rest refl)))

pub take_all : (n : ℕ) (s : List ℕ) → length s ≤ n → take n s ≡ s
take_all zero [] h = refl
take_all (suc n) [] h = refl
take_all zero (b ∷ s) h = absurd (omega arith)
take_all (suc n) (b ∷ s) h = ap (λ t. b ∷ t) (take_all n s (omega arith))

pub drop-append : (a b : List ℕ) → drop (length a) (a ++ b) ≡ b
drop-append [] b = refl
drop-append (x ∷ a) b = drop-append a b

pub starts_with-append : (a b : List ℕ) → starts_with a (a ++ b) ≡ true
unfolding starts_with
starts_with-append [] b = refl
starts_with-append (x ∷ a) b = ground (arith, starts_with-append a b)
