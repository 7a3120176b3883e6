-- ===== src/Shim/Strings.antt =====
-- shim/misc/string.c: `strlcpy`, `strlcat` and `memset_pattern16`. The arguments of a
-- call do not overlap, as its users have to see to. Fuel bounds the length of a text: `none` when it runs out.
pub mod Copies
pub mod Pattern
use mac_ify.Prelude.{ℕ, zero, suc, ◌+◌, ◌-◌, ◌*◌, ◌/◌, Option, none, some, Memory, poke, ltb, leb}
use mac_ify.Prelude.{◌&&◌, ◌==◌, if◌then◌else◌}

unfoldable pub strlen : ℕ → Memory → ℕ → Option ℕ
strlen zero mem p = none
strlen (suc fuel) mem p =
    let rest = strlen fuel mem (p + 1) in
    if mem p == 0 then some 0 else elim rest [ none ↦ none | some n ↦ some (n + 1) ]

-- `memcpy(dst, src, n)`
unfoldable pub memcpy : Memory → ℕ → ℕ → ℕ → Memory
memcpy mem dst src n x = if leb dst x && ltb x (dst + n) then mem (src + (x - dst)) else mem x

-- What is left of a text of `len` bytes in a buffer of `siz`.
abbrev pub fitting : ℕ → ℕ → ℕ
fitting len siz = if ltb len siz then len else siz - 1

-- Memory and the result.
unfoldable pub strlcpy : ℕ → Memory → ℕ → ℕ → ℕ → Option (Memory × ℕ)
strlcpy fuel mem dst src siz = elim (strlen fuel mem src) [
  | none ↦ none
  | some len ↦ some (
    if ltb 0 siz
        then poke (memcpy mem dst src (fitting len siz)) (dst + fitting len siz) 0
        else mem,
    len,
  )
]

unfoldable pub append_text : Memory → ℕ → ℕ → ℕ → ℕ → ℕ → Memory × ℕ
append_text mem dst src siz dlen slen =
    let copy = fitting slen (siz - dlen) in
    if leb siz dlen
    then (mem, slen + siz)
    else (poke (memcpy mem (dst + dlen) src copy) (dst + dlen + copy) 0, dlen + slen)

unfoldable pub strlcat : ℕ → Memory → ℕ → ℕ → ℕ → Option (Memory × ℕ)
strlcat fuel mem dst src siz = elim (strlen fuel mem dst) [
  | none ↦ none
  | some dlen ↦ elim (strlen fuel mem src) [
    | none ↦ none
    | some slen ↦ some (append_text mem dst src siz dlen slen)
  ]
]

-- The inner loop, of `chunk` rounds.
unfoldable pub fill_chunk : ℕ → Memory → ℕ → ℕ → ℕ → Memory
fill_chunk zero mem d p j = mem
fill_chunk (suc left) mem d p j = fill_chunk left (poke mem (d + j) (mem (p + j))) d p (j + 1)

unfoldable pub fill_chunks : ℕ → Memory → ℕ → ℕ → ℕ → ℕ → Memory
fill_chunks zero mem dst pattern len i = mem
fill_chunks (suc left) mem dst pattern len i =
    let chunk = if ltb (len - i) 16 then len - i else 16 in
    fill_chunks left (fill_chunk chunk mem (dst + i) pattern 0) dst pattern len (i + 16)

-- The outer loop has a round for every 16 bytes that are begun.
unfoldable pub memset_pattern16 : Memory → ℕ → ℕ → ℕ → Memory
memset_pattern16 mem dst pattern len = fill_chunks ((len + 15) / 16) mem dst pattern len 0
