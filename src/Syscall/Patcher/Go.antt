-- ===== src/Syscall/Patcher/Go.antt =====
-- `patch_go_gs_probe` and `patch_go_systemstack` of src/syscall/patcher.c.
use mac_ify.Prelude.{ℕ, zero, suc, ◌+◌, ◌-◌, ◌%◌, ◌^◌, List, [], ◌∷◌, ◌++◌, Bool, true, ◌&&◌, not}
use mac_ify.Prelude.{Memory, poke, store, leb, ltb, ◌==◌, if◌then◌else◌}

-- `memcmp(base + at, bytes, sizeof(bytes)) == 0`
unfoldable pub matches : Memory → ℕ → List ℕ → Bool
matches base at [] = true
matches base at (b ∷ bytes) = base at == b && matches base (at + 1) bytes

-- `memcpy(base + at, bytes, sizeof(bytes))`
unfoldable pub write_all : Memory → ℕ → List ℕ → Memory
write_all base at [] = base
write_all base at (b ∷ bytes) = write_all (poke base at b) (at + 1) bytes

abbrev pub probe_head : List ℕ
probe_head =
    0x65 ∷ 0x48 ∷ 0xc7 ∷ 0x04 ∷ 0x25 ∷ 0x30 ∷ 0x00 ∷ 0x00 ∷ 0x00 ∷ 0x23 ∷ 0x01 ∷ 0x00 ∷ 0x00 ∷ 0x48
    ∷ 0x8b ∷ 0x05 ∷ []

abbrev pub probe_tail : List ℕ
probe_tail = 0x48 ∷ 0x3d ∷ 0x23 ∷ 0x01 ∷ 0x00 ∷ 0x00 ∷ 0x74 ∷ []

abbrev pub je_off : ℕ
je_off = 26

-- `rel <= 0 || rel > 16`, of the byte as `int8_t`, negated.
abbrev pub is_short_skip : ℕ → Bool
is_short_skip rel = leb 1 rel && leb rel 16

-- The probe is at `i`.
unfoldable pub is_probe : Memory → ℕ → Bool
is_probe base i =
    matches base i probe_head
    && matches base (i + 20) probe_tail
    && is_short_skip (base (i + je_off + 1))
    && base (i + je_off + 2) == 0xe8

-- The loop over `i`, with the rounds left.
unfoldable pub probe_loop : Memory → ℕ → ℕ → Memory
probe_loop base i zero = base
probe_loop base i (suc left) =
    let rest = probe_loop base (i + 1) left in
    if is_probe base i then poke base (i + je_off) 0xeb else rest

unfoldable pub patch_go_gs_probe : ℕ → Memory → Memory
patch_go_gs_probe vmsize base = probe_loop base 0 (vmsize - (je_off + 2))

-- `pattern[0 .. 9)`, `mov gs:0x30, rax`
abbrev pub set_tls_g : List ℕ
set_tls_g = 0x65 ∷ 0x48 ∷ 0x89 ∷ 0x04 ∷ 0x25 ∷ 0x30 ∷ 0x00 ∷ 0x00 ∷ 0x00 ∷ []

abbrev pub switch_pattern : List ℕ
switch_pattern = set_tls_g ++ (0x48 ∷ 0x8b ∷ 0x60 ∷ 0x38 ∷ 0x48 ∷ [])

-- Whether the next `n` bytes are all int3, and in the text.
unfoldable pub padded : ℕ → Memory → ℕ → ℕ → Bool
padded vmsize base j zero = true
padded vmsize base j (suc n) = ltb j vmsize && base j == 0xCC && padded vmsize base (j + 1) n

-- The loop for the int3 padding: the first place of 39 bytes, 0 if there is none.
unfoldable pub find_padding : ℕ → Memory → ℕ → ℕ → ℕ
find_padding vmsize base j zero = 0
find_padding vmsize base j (suc left) =
    let rest = find_padding vmsize base (j + 1) left in if padded vmsize base j 39 then j else rest

-- The loop for `pop rbp; ret`, 0 if there is none.
unfoldable pub find_pop_ret : Memory → ℕ → ℕ → ℕ
find_pop_ret base j zero = 0
find_pop_ret base j (suc left) =
    let rest = find_pop_ret base (j + 1) left in
    if base j == 0x5d && base (j + 1) == 0xc3 then j else rest

-- `(int32_t)(target - end)` of two `size_t`, as the four bytes that `memcpy` copies.
abbrev pub rel32 : ℕ → ℕ → ℕ
rel32 target end = (target + 2 ^ 64 - end) % 2 ^ 64 % 2 ^ 32

-- `t1` is written at `t1_off`: mov rax, [rbx]; mov gs:0x30, rax; jmp pop_ret_off; nops.
unfoldable pub write_t1 : Memory → ℕ → ℕ → Memory
write_t1 base t1_off pop_ret_off =
    let code = write_all base t1_off (0x48 ∷ 0x8b ∷ 0x03 ∷ set_tls_g ++ (0xE9 ∷ [])) in
    let jump = store 4 code (t1_off + 13) (rel32 pop_ret_off (t1_off + 17)) in
    write_all jump (t1_off + 17) (0x90 ∷ 0x90 ∷ 0x90 ∷ 0x90 ∷ 0x90 ∷ [])

-- `t2` is written at `t2_off`: the original code, with its operand from `base[i+16]`, then
-- jmp i+17.
unfoldable pub write_t2 : Memory → ℕ → ℕ → Memory
write_t2 base t2_off i =
    let switch = 0x48 ∷ 0x8b ∷ 0x60 ∷ 0x38 ∷ 0x48 ∷ 0x8b ∷ 0x68 ∷ base (i + 16) ∷ 0xE9 ∷ [] in
    let code = write_all base t2_off (set_tls_g ++ switch) in
    store 4 code (t2_off + 18) (rel32 (i + 17) (t2_off + 22))

-- The 14 bytes at `i`: test rax, rax; je t1_off; jmp t2_off.
unfoldable pub write_switch : Memory → ℕ → ℕ → ℕ → Memory
write_switch base i t1_off t2_off =
    let test = write_all base i (0x48 ∷ 0x85 ∷ 0xC0 ∷ 0x0F ∷ 0x84 ∷ []) in
    let je = store 4 test (i + 5) (rel32 t1_off (i + 3 + 6)) in
    store 4 (poke je (i + 9) 0xE9) (i + 10) (rel32 t2_off (i + 14))

-- All three writes.
unfoldable pub install_trampolines : Memory → ℕ → ℕ → ℕ → Memory
install_trampolines base i trampoline_off pop_ret_off =
    let t2_off = trampoline_off + 22 in
    write_switch (write_t2 (write_t1 base trampoline_off pop_ret_off) t2_off i) i trampoline_off
      t2_off

-- `systemstack` switches back at `i`.
unfoldable pub is_switch : Memory → ℕ → Bool
is_switch base i = matches base i switch_pattern && base (i + 14) == 0x8b && base (i + 15) == 0x68

-- The loop over `i`, with the rounds left.
unfoldable pub systemstack_loop : ℕ → Memory → ℕ → ℕ → Memory
systemstack_loop vmsize base i zero = base
systemstack_loop vmsize base i (suc left) =
    let rest = systemstack_loop vmsize base (i + 1) left in
    let trampoline_off = find_padding vmsize base (i + 20) (vmsize - (i + 20 + 39)) in
    let pop_ret_off = find_pop_ret base (i + 17) 33 in
    if not (is_switch base i)
    then rest
    else if trampoline_off == 0
    then rest
    else if pop_ret_off == 0
    then rest
    else install_trampolines base i trampoline_off pop_ret_off

unfoldable pub patch_go_systemstack : ℕ → Memory → Memory
patch_go_systemstack vmsize base = systemstack_loop vmsize base 0 (vmsize - (14 + 20))
