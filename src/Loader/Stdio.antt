-- ===== src/Loader/Stdio.antt =====
-- src/main.c: the rewriting of the stdio macros that are compiled into a program, once its segments are mapped.
-- A text is the memory from the start of the section "__text" on. The calls of `mprotect` around each rewrite,
-- of which only that of the putc macros is checked, succeed. Messages are left out.
pub mod Decode
pub mod Jumps
pub mod Sites
pub mod Encoding
pub mod Macros
pub mod Rewrites
pub mod Putc
pub mod Bounds
use mac_ify.Loader.Stdio.Decode.{GetcSite, PutcSite, getc_site, putc_site}
use mac_ify.Prelude.{ℕ, zero, suc, ◌+◌, ◌-◌, ◌%◌, ◌^◌, Option, none, some, Bool, true, false}
use mac_ify.Prelude.{◌&&◌, ◌||◌, not, Memory, load, poke, store, bit_and, ltb, leb, ◌==◌}
use mac_ify.Prelude.{if◌then◌else◌}

-- The bytes from `at` on become nops.
unfoldable pub nops : ℕ → Memory → ℕ → Memory
nops n text at x = if leb at x && ltb x (at + n) then 0x90 else text x

-- A conditional jump with a displacement of four bytes becomes a jump and a nop.
unfoldable pub near_jump : Memory → ℕ → Memory
near_jump text at =
    poke (store 4 (poke text at 0xe9) (at + 1) ((load 4 text (at + 2) + 1) % 2 ^ 32)) (at + 5) 0x90

-- `test byte [fp+0x10], 0x20` or `0x40`: where it ends.
unfoldable pub eof_check : Memory → ℕ → Option ℕ
eof_check text i =
    let off = if text i == 0x41 then i + 1 else i in
    if text off == 0xf6
      && bit_and (text (off + 1)) 0xF8 == 0x40
      && text (off + 2) == 0x10
      && (text (off + 3) == 0x20 || text (off + 3) == 0x40)
    then some (off + 4)
    else none

unfoldable pub rewrite_check : Memory → ℕ → Memory
rewrite_check text at =
    if text at == 0x74
    then poke text at 0xeb
    else if text at == 0x75
    then nops 2 text at
    else if text at == 0x0f && text (at + 1) == 0x84
    then near_jump text at
    else if text at == 0x0f && text (at + 1) == 0x85
    then nops 6 text at
    else text

unfoldable pub eof_round : Memory → ℕ → Memory
eof_round text i = elim (eof_check text i) [ none ↦ text | some after ↦ rewrite_check text after ]

-- The loop, with the rounds left.
unfoldable pub eof_loop : ℕ → Memory → ℕ → Memory
eof_loop zero text i = text
eof_loop (suc left) text i = eof_loop left (eof_round text i) (i + 1)

unfoldable pub rewrite_getc : Memory → GetcSite → Memory
rewrite_getc text s =
    let quiet = nops s.store_len text s.store_at in
    if not s.is_forced
    then nops s.jmp_len quiet s.jmp_off
    else if s.jmp_len == 2
    then poke quiet s.jmp_off 0xeb
    else near_jump quiet s.jmp_off

-- The loop, and `getc_patched`.
unfoldable pub getc_loop : ℕ → Memory → ℕ → ℕ → ℕ → Memory × ℕ
getc_loop zero text size i patched = (text, patched)
getc_loop (suc left) text size i patched = elim (getc_site text size i) [
  | none ↦ getc_loop left text size (i + 1) patched
  | some s ↦ getc_loop left (rewrite_getc text s) size (i + 1) (patched + 1)
]

unfoldable pub rewrite_putc : Memory → ℕ → PutcSite → Memory
rewrite_putc text i s = poke (poke (nops 3 text (i + 6)) (i + 11) 0xeb) (i + 12) s.rel

unfoldable pub putc_round : Memory → ℕ → ℕ → Memory
putc_round text size i = elim (putc_site text size i) [
  | none ↦ text
  | some s ↦ rewrite_putc text i s
]

unfoldable pub putc_loop : ℕ → Memory → ℕ → ℕ → Memory
putc_loop zero text size i = text
putc_loop (suc left) text size i = putc_loop left (putc_round text size i) size (i + 1)

-- `patch_eof`; `forced` is MACIFY_PATCH_EOF.
unfoldable pub patches_eof : Bool → ℕ → ℕ → Bool
patches_eof forced size getc_patched = leb size 100000 || ltb 0 getc_patched || forced

-- The text after all three passes, and whether `macify_getc_patched` is set.
unfoldable pub patch_stdio : Bool → ℕ → Memory → Memory × Bool
patch_stdio forced size text =
    let (text1, getc_patched) = getc_loop (size - 17) text size 5 0 in
    let text2 =
      if patches_eof forced size getc_patched then eof_loop (size - 7) text1 0 else text1 in
    (putc_loop (size - 20) text2 size 0, ltb 0 getc_patched)
