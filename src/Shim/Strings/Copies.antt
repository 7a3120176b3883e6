-- ===== src/Shim/Strings/Copies.antt =====
-- What the functions of shim/misc/string.c leave in memory.
use mathlib.Core.List.{append-nil}
use mac_ify.Prelude.{ℕ, zero, suc, ◌+◌, ◌-◌, ◌≤◌, ◌<◌, ◌≡◌, ◌≢◌, ◌⊎◌, inl, inr, refl, ◌∙◌, ap}
use mac_ify.Prelude.{sym, arith, List, [], ◌∷◌, ◌++◌, some, true, false, Memory, poke, min}
use mac_ify.Prelude.{length, length-append, take, take_all, ltb, leb, Bool-cases}
use mac_ify.Shim.Strings.{strlen, memcpy, fitting, strlcpy, append_text, strlcat}

-- The text at `p`, with its end.
pub data Holds (mem : Memory) : ℕ → List ℕ → Type 0 where
  ends : (p : ℕ) → mem p ≡ 0 → Holds mem p []
  char : (p c : ℕ) (s : List ℕ) → mem p ≡ c → c ≢ 0 → Holds mem (p + 1) s → Holds mem p (c ∷ s)

strlen_lem :
    (fuel : ℕ) (mem : Memory) (p : ℕ) (s : List ℕ)
    → Holds mem p s
    → length s < fuel
    → strlen fuel mem p ≡ some (length s)
unfolding strlen
strlen_lem zero mem p s h short = absurd (omega arith)
strlen_lem (suc fuel) mem p [] (ends _ z) short = ground (arith, z)
strlen_lem (suc fuel) mem p (c ∷ s) (char _ _ _ at nz rest) short =
    ground (arith, at, nz, strlen_lem fuel mem (p + 1) s rest (omega arith))

-- The beginning of a text, copied and ended.
taken-Holds :
    (n : ℕ) (mem mem' : Memory) (src dst : ℕ) (s : List ℕ)
    → Holds mem src s
    → n ≤ length s
    → ((i : ℕ) → i < n → mem' (dst + i) ≡ mem (src + i))
    → mem' (dst + n) ≡ 0
    → Holds mem' dst (take n s)
taken-Holds zero mem mem' src dst s h short same ended = ends dst (ground (arith, ended))
taken-Holds (suc n) mem mem' src dst [] h short same ended = absurd (omega arith)
taken-Holds (suc n) mem mem' src dst (c ∷ s) (char _ _ _ at nz rest) short same ended =
    char dst c (take n s) (ground (arith, same 0 (omega arith), at)) nz (
      taken-Holds n mem mem' (src + 1) (dst + 1) s rest (omega arith)
        (λ i h.
          let d : dst + 1 + i ≡ dst + (i + 1) = omega arith in
          let f : src + 1 + i ≡ src + (i + 1) = omega arith in
          rw (d, f) (same (i + 1) (omega arith)))
        (let e : dst + 1 + n ≡ dst + suc n = omega arith in rw e ended))

memcpy-inside :
    (mem : Memory) (dst src n i : ℕ) → i < n → memcpy mem dst src n (dst + i) ≡ mem (src + i)
unfolding memcpy
memcpy-inside mem dst src n i h =
    let back : dst + i - dst ≡ i = omega arith in ground (arith, ap (λ (k : ℕ). mem (src + k)) back)

-- A text's beginning of `n` bytes that has been copied to `dst` and ended.
copied-Holds :
    (mem : Memory) (dst src n : ℕ) (s : List ℕ)
    → Holds mem src s
    → n ≤ length s
    → Holds (poke (memcpy mem dst src n) (dst + n) 0) dst (take n s)
unfolding poke
copied-Holds mem dst src n s h short =
    taken-Holds n mem (poke (memcpy mem dst src n) (dst + n) 0) src dst s h short
      (λ i low. ground (arith, memcpy-inside mem dst src n i low)) (ground arith)

copied-away :
    (mem : Memory) (dst src n x : ℕ)
    → (x < dst) ⊎ (dst + n < x)
    → poke (memcpy mem dst src n) (dst + n) 0 x ≡ mem x
unfolding poke memcpy
copied-away mem dst src n x away = ground arith

-- The beginning that fits.
take-fitting : (s : List ℕ) (siz : ℕ) → 0 < siz → take (fitting (length s) siz) s ≡ take (siz - 1) s
take-fitting s siz h = elim (Bool-cases (ltb (length s) siz)) [
  | inl small ↦
      rw small
        (take_all (length s) s (omega arith) ∙ sym (take_all (siz - 1) s (ground (arith, small))))
  | inr large ↦ rw large refl
]

take-length : (n : ℕ) (s : List ℕ) → n ≤ length s → length (take n s) ≡ n
take-length zero s h = refl
take-length (suc n) [] h = absurd (omega arith)
take-length (suc n) (c ∷ s) h = ap suc (take-length n s (omega arith))

-- `strlcpy` leaves in the buffer as much of the text as fits into `siz` bytes with its end, writes nothing
-- else, and returns the length of the text; a buffer of 0 bytes is left alone.
strlcpy-Holds :
    (fuel : ℕ) (mem : Memory) (dst src siz : ℕ) (s : List ℕ) (x : ℕ)
    → Holds mem src s
    → length s < fuel
    → (x < dst) ⊎ (dst + siz ≤ x)
    → (mem' : Memory) × (strlcpy fuel mem dst src siz ≡ some (mem', length s))
      × ((siz ≡ 0) ⊎ Holds mem' dst (take (siz - 1) s))
      × (mem' x ≡ mem x)
unfolding strlcpy
strlcpy-Holds fuel mem dst src siz s x h short away =
    let found = strlen_lem fuel mem src s h short in
    elim (Bool-cases (ltb 0 siz)) [
      | inr empty ↦ (mem, rw (found, strlcpy, empty) refl, inl (ground (arith, empty)), refl)
      | inl room ↦ (
        poke (memcpy mem dst src (fitting (length s) siz)) (dst + fitting (length s) siz) 0,
        rw (found, strlcpy, room) refl,
        inr (
            rw (← take-fitting s siz (ground (arith, room)))
              (copied-Holds mem dst src (fitting (length s) siz) s h (ground arith))),
        copied-away mem dst src (fitting (length s) siz) x (ground (arith, room, away)),
      )
    ]

-- The end of a text lies behind it.
Holds-append :
    (mem mem' : Memory) (p : ℕ) (t u : List ℕ)
    → Holds mem p t
    → ((i : ℕ) → i < length t → mem' (p + i) ≡ mem (p + i))
    → Holds mem' (p + length t) u
    → Holds mem' p (t ++ u)
Holds-append mem mem' p [] u (ends _ z) same h = let at : p + 0 ≡ p = omega arith in rw at at h
Holds-append mem mem' p (c ∷ t) u (char _ _ _ at nz rest) same h =
    char p c (t ++ u) (ground (arith, same 0 (omega arith), at)) nz (
      Holds-append mem mem' (p + 1) t u rest
        (λ i low.
          let e : p + 1 + i ≡ p + (i + 1) = omega arith in rw e (same (i + 1) (omega arith)))
        (let e : p + suc (length t) ≡ p + 1 + length t = omega arith in rw e at h))

strlcat_lem :
    (fuel : ℕ) (mem : Memory) (dst src siz : ℕ) (t s : List ℕ)
    → Holds mem dst t
    → Holds mem src s
    → length t < fuel
    → length s < fuel
    → strlcat fuel mem dst src siz ≡ some (append_text mem dst src siz (length t) (length s))
unfolding strlcat
strlcat_lem fuel mem dst src siz t s ht hs short short' =
    rw (strlen_lem fuel mem dst t ht short, strlcat, strlen_lem fuel mem src s hs short') refl

append_full :
    (mem : Memory) (dst src siz dlen slen : ℕ)
    → leb siz dlen ≡ true
    → append_text mem dst src siz dlen slen ≡ (mem, min dlen siz + slen)
unfolding append_text
append_full mem dst src siz dlen slen full =
    let sum : slen + siz ≡ min dlen siz + slen = ground (arith, full) in rw (full, sum) refl

append_room :
    (mem : Memory) (dst src siz dlen slen : ℕ)
    → leb siz dlen ≡ false
    → append_text mem dst src siz dlen slen ≡ (
      poke
          (memcpy mem (dst + dlen) src (fitting slen (siz - dlen)))
          (dst + dlen + fitting slen (siz - dlen))
          0,
      min dlen siz + slen,
    )
unfolding append_text
append_room mem dst src siz dlen slen room =
    let least : min dlen siz ≡ dlen = ground (arith, room) in rw (room, least) refl

-- `strlcat` leaves in the buffer its text and behind it as much of the other one as fits into `siz` bytes with
-- its end, changes no byte before the old end or behind the new one, and returns the length of both; where
-- the buffer's text is already as long as `siz` it leaves the text as it is and returns `siz` and the
-- length of the other.
pub strlcat-Holds :
    (fuel : ℕ) (mem : Memory) (dst src siz : ℕ) (t s : List ℕ) (x : ℕ)
    → Holds mem dst t
    → Holds mem src s
    → length t < fuel
    → length s < fuel
    → (x < dst + length t) ⊎ (dst + length (t ++ take (siz - length t - 1) s) < x)
    → (mem' : Memory) × (strlcat fuel mem dst src siz ≡ some (mem', min (length t) siz + length s))
      × Holds mem' dst (t ++ take (siz - length t - 1) s)
      × (mem' x ≡ mem x)
strlcat-Holds fuel mem dst src siz t s x ht hs short short' away =
    let found = strlcat_lem fuel mem dst src siz t s ht hs short short' in
    let n = fitting (length s) (siz - length t) in
    elim (Bool-cases (leb siz (length t))) [
      | inl full ↦ (
        mem,
        found ∙ ap some (append_full mem dst src siz (length t) (length s) full),
        (let none_left : siz - length t ≡ 0 = ground (arith, full) in
            rw (none_left, append-nil t) ht),
        refl,
      )
      | inr room ↦ (
        poke (memcpy mem (dst + length t) src n) (dst + length t + n) 0,
        found ∙ ap some (append_room mem dst src siz (length t) (length s) room),
        rw (← take-fitting s (siz - length t) (ground (arith, room))) (
            Holds-append mem _ dst t (take n s) ht
              (λ i low. copied-away mem (dst + length t) src n (dst + i) (inl (omega (arith, low))))
              (copied-Holds mem (dst + length t) src n s hs (ground arith))),
        copied-away mem (dst + length t) src n x (
            ground (
              arith,
              away,
              length-append t (take (siz - length t - 1) s),
              ap (length {A = ℕ}) (take-fitting s (siz - length t) (ground (arith, room))),
              take-length n s (ground arith),
            )),
      )
    ]
