-- ===== src/Fixups/Leb.antt =====
-- `read_uleb128` and `read_sleb128` of src/fixups.c. The list is what lies between `*p` and `end`; a
-- shift by 64 or more, which C leaves undefined, is `none`.
pub mod RoundTrip
use mac_ify.Prelude.{ℕ, ◌+◌, ◌-◌, ◌*◌, ◌%◌, ◌^◌, List, [], ◌∷◌, Option, none, some, bit_and}
use mac_ify.Prelude.{bit_or}
use mac_ify.Prelude.{leb, ltb, ◌==◌, ◌&&◌, has, if◌then◌else◌}

-- `(uint64_t)(byte & 0x7f) << shift`
abbrev pub group_at : ℕ → ℕ → ℕ
group_at byte shift = bit_and byte 0x7f * 2 ^ shift % 2 ^ 64

unfoldable pub uleb_loop : List ℕ → ℕ → ℕ → Option (ℕ × List ℕ)
uleb_loop [] result shift = some (result, [])
uleb_loop (byte ∷ p) result shift =
    let result' = bit_or result (group_at byte shift) in
    let rest = uleb_loop p result' (shift + 7) in
    if leb 64 shift then none else if has byte 0x80 then rest else some (result', p)

unfoldable pub read_uleb128 : List ℕ → Option (ℕ × List ℕ)
unfolding uleb_loop
read_uleb128 p = uleb_loop p 0 0

-- After the loop: a negative number is filled with ones from `shift` up.
unfoldable pub sign_fill : ℕ → ℕ → ℕ → ℕ
sign_fill result shift byte =
    if ltb shift 64 && has byte 0x40 then bit_or result (2 ^ 64 - 2 ^ shift) else result

-- The result is the pattern of the `int64_t`.
unfoldable pub sleb_loop : List ℕ → ℕ → ℕ → ℕ → Option (ℕ × List ℕ)
unfolding sign_fill
sleb_loop [] result shift last = some (sign_fill result shift last, [])
sleb_loop (byte ∷ p) result shift last =
    let result' = bit_or result (group_at byte shift) in
    let rest = sleb_loop p result' (shift + 7) byte in
    if leb 64 shift
    then none
    else if has byte 0x80
    then rest
    else some (sign_fill result' (shift + 7) byte, p)

unfoldable pub read_sleb128 : List ℕ → Option (ℕ × List ℕ)
unfolding sleb_loop
read_sleb128 p = sleb_loop p 0 0 0
