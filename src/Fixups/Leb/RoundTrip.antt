-- ===== src/Fixups/Leb/RoundTrip.antt =====
-- `read_uleb128` of src/fixups.c reads what an encoder of ULEB128 writes.
use mac_ify.Prelude.{ℕ, zero, suc, ◌+◌, ◌*◌, ◌/◌, ◌%◌, ◌^◌, ◌≤◌, ◌<◌, ◌≡◌, refl, arith, ltb, List}
use mac_ify.Prelude.{[], ◌∷◌, ◌++◌}
use mac_ify.Prelude.{some, if◌then◌else◌, bit_and_mask, bit_or_above, has, bit_and, true, false}
use mac_ify.Prelude.{bit_or, Bool, not, ◌&&◌, all_below, all_below_sound}
use mac_ify.Fixups.Leb.{uleb_loop, read_uleb128, group_at}
use mac_ify.Prelude.{ap, ◌∙◌}
use native.Mathlib.Numerals.{towards_suc}
use native.Mathlib.Nat.{pow-suc}
use native.Mathlib.Decide.{dec_lt}

-- Groups of seven bits, the lowest first; all but the last have the bit 0x80.
unfoldable pub encode : ℕ → ℕ → List ℕ
encode zero v = []
encode (suc fuel) v =
    let rest = encode fuel (v / 128) in if ltb v 128 then v ∷ [] else (128 + v % 128) ∷ rest

-- Ten groups hold 64 bits.
unfoldable pub encode_uleb128 : ℕ → List ℕ
unfolding encode
encode_uleb128 v = encode 10 v

low_seven : (b : ℕ) → bit_and b 0x7f ≡ b % 128
low_seven b = bit_and_mask 7 b

pow_seven : (s : ℕ) → 2 ^ (s + 7) ≡ 128 * 2 ^ s
pow_seven s = simp towards_suc (omega arith)

high_bit_ok : ℕ → Bool
high_bit_ok b = not (has b 0x80) && has (128 + b) 0x80

high_bit_table : all_below 128 high_bit_ok ≡ true
unfolding all_below high_bit_ok has
high_bit_table = refl

-- The bit 0x80 is that of a byte from 128 on.
high_bit : (b : ℕ) → b < 128 → (has b 0x80 ≡ false) × (has (128 + b) 0x80 ≡ true)
high_bit b h =
    let row : high_bit_ok b ≡ true = all_below_sound 128 high_bit_ok b high_bit_table h in
    unfold high_bit_ok in ground (arith, row)

-- One group in place: with `r` below it, the two are or-ed to their sum.
or_group :
    (r b s : ℕ)
    → r < 2 ^ s
    → b % 128 * 2 ^ s < 2 ^ 64
    → bit_or r (group_at b s) ≡ r + b % 128 * 2 ^ s
or_group r b s fits below = ground (arith, low_seven b, bit_or_above s (b % 128) r)

split_group : (w q : ℕ) → w * q ≡ w % 128 * q + w / 128 * (128 * q)
split_group w q =
    let parts : w ≡ w % 128 + w / 128 * 128 = omega arith in
    omega (arith, ap (λ (t : ℕ). t * q) parts)

uleb_loop_last :
    (b s r : ℕ) (p : List ℕ)
    → b < 128
    → s < 64
    → r < 2 ^ s
    → b * 2 ^ s < 2 ^ 64
    → uleb_loop (b ∷ p) r s ≡ some (r + b * 2 ^ s, p)
unfolding uleb_loop
uleb_loop_last b s r p byte shift fits below =
    let same : b % 128 ≡ b = omega arith in
    let sum : bit_or r (group_at b s) ≡ r + b * 2 ^ s =
      or_group r b s fits (rw same below) ∙ rw same in
    rw sum (ground (arith, high_bit b byte))

uleb_loop_more :
    (b s r : ℕ) (p : List ℕ)
    → b < 128
    → s < 64
    → r < 2 ^ s
    → b * 2 ^ s < 2 ^ 64
    → uleb_loop ((128 + b) ∷ p) r s ≡ uleb_loop p (r + b * 2 ^ s) (s + 7)
unfolding uleb_loop
uleb_loop_more b s r p byte shift fits below =
    let same : (128 + b) % 128 ≡ b = omega arith in
    let sum : bit_or r (group_at (128 + b) s) ≡ r + b * 2 ^ s =
      or_group r (128 + b) s fits (rw same below) ∙ rw same in
    rw sum (ground (arith, high_bit b byte))

encode-suc : (f w : ℕ) → 128 ≤ w → encode (suc f) w ≡ (128 + w % 128) ∷ encode f (w / 128)
unfolding encode
encode-suc f w h = ground arith

encode_short : (f w : ℕ) → w < 128 → encode (suc f) w ≡ w ∷ []
unfolding encode
encode_short f w h = ground arith

-- From the shift `s` on, with as many groups left as the shift leaves room for.
uleb_loop-encode :
    (f s r w : ℕ) (rest : List ℕ)
    → s + 7 * f ≡ 63
    → r < 2 ^ s
    → r + w * 2 ^ s < 2 ^ 64
    → w < 128 ^ suc f
    → uleb_loop (encode (suc f) w ++ rest) r s ≡ some (r + w * 2 ^ s, rest)
uleb_loop-encode zero s r w rest room fits below groups =
    rw (encode_short zero w (omega arith))
      (uleb_loop_last w s r rest (omega arith) (omega arith) fits (omega arith))
uleb_loop-encode (suc f) s r w rest room fits below groups = elim (dec_lt w 128) [
  | yes short ↦
      rw (encode_short (suc f) w short)
        (uleb_loop_last w s r rest short (omega arith) fits (omega arith))
  | no long ↦
      let parts = split_group w (2 ^ s) in
      let pow = pow_seven s in
      let regroup : w / 128 * 2 ^ (s + 7) ≡ w / 128 * (128 * 2 ^ s) =
        ap (λ (t : ℕ). w / 128 * t) pow in
      let low : w % 128 * 2 ^ s ≤ 127 * 2 ^ s = grind arith in
      let ih =
        uleb_loop-encode f (s + 7) (r + w % 128 * 2 ^ s) (w / 128) rest (omega arith) (omega arith)
          (omega arith) (omega (arith, pow-suc 128 (suc f))) in
      rw (encode-suc (suc f) w (omega arith)) (
        uleb_loop_more (w % 128) s r (encode (suc f) (w / 128) ++ rest) (omega arith) (omega arith)
          fits (omega arith)
        ∙ ih
        ∙ ap (λ (t : ℕ). some (t, rest)) (omega arith))
]

-- Every 64-bit number is read back from its encoding, and what follows is left.
pub read_uleb128-encode :
    (v : ℕ) (rest : List ℕ) → v < 2 ^ 64 → read_uleb128 (encode_uleb128 v ++ rest) ≡ some (v, rest)
unfolding read_uleb128 encode_uleb128
read_uleb128-encode v rest h =
    uleb_loop-encode 9 0 0 v rest (omega arith) (omega arith) (omega arith) (omega arith)
    ∙ ap (λ (t : ℕ). some (t, rest)) (omega arith)
