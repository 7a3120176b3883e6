-- ===== src/Syscall/Patcher/Scan.antt =====
-- `patch_syscalls_in_range` of src/syscall/patcher.c. The text of the segment is addressed by the
-- offset from its base; offsets are `size_t` and the counters stay below the size of the text.
use mac_ify.Prelude.{ℕ, zero, suc, ◌+◌, ◌-◌, ◌*◌, ◌/◌, ◌%◌, ◌^◌, Bool, false, ◌&&◌, ◌||◌, not}
use mac_ify.Prelude.{Option, none, some, Memory, poke, bit_and, bit_or}
use mac_ify.Prelude.{leb, ltb, ◌==◌, if◌then◌else◌, min}
use mac_ify.Syscall.Table.{bsd_syscall_max, bsd_to_linux, bsd_arg_flags, arg_force_slow}

abbrev pub backward_scan_bytes : ℕ
backward_scan_bytes = 32

-- The text, `*fast_count` and `*slow_count`.
pub record PatchState : Type 0 where
  pub text : Memory
  pub fast : ℕ
  pub slow : ℕ

-- `j > 0 && base[j-1] >= 0x40 && base[j-1] <= 0x4F`
unfoldable pub after_rex : Memory → ℕ → Bool
after_rex base zero = false
after_rex base (suc j) = leb 0x40 (base j) && leb (base j) 0x4F

-- `mov eax, 0x2000XXXX` at `j`, with no REX prefix.
unfoldable pub is_mov : Memory → ℕ → Bool
is_mov base j =
    base j == 0xB8 && (base (j + 3) == 0x00 && base (j + 4) == 0x20) && not (after_rex base j)

-- `add rax, 0x2000000` at `j`.
unfoldable pub is_add : Memory → ℕ → Bool
is_add base j =
    base j == 0x48
    && base (j + 1) == 0x05
    && base (j + 2) == 0x00
    && base (j + 3) == 0x00
    && base (j + 4) == 0x00
    && base (j + 5) == 0x02

unfoldable pub has_pattern : Memory → ℕ → ℕ → Bool
has_pattern base i j = (ltb (j + 4) i && is_mov base j) || (leb 5 j && is_add base j)

-- The loop that looks for a pattern, from `j` down to `scan_start`.
unfoldable pub found_pattern : Memory → ℕ → ℕ → ℕ → Bool
found_pattern base i scan_start zero = leb scan_start zero && ltb zero i && has_pattern base i zero
found_pattern base i scan_start (suc j) =
    leb scan_start (suc j)
    && ltb (suc j) i
    && (has_pattern base i (suc j) || found_pattern base i scan_start j)

-- The loop that looks for the `mov`, from `j` down to `scan_start`.
unfoldable pub find_mov : Memory → ℕ → ℕ → Option ℕ
find_mov base scan_start zero = if leb scan_start zero && is_mov base zero then some zero else none
find_mov base scan_start (suc j) =
    let rest = find_mov base scan_start j in
    if ltb (suc j) scan_start then none else if is_mov base (suc j) then some (suc j) else rest

-- `base[mov_off+1] | (base[mov_off+2] << 8)`, as `uint16_t`.
abbrev pub mov_number : Memory → ℕ → ℕ
mov_number base mov_off = bit_or (base (mov_off + 1)) (base (mov_off + 2) * 2 ^ 8) % 2 ^ 16

-- `base[i+1] = 0x0B; (*slow_count)++;`
unfoldable pub to_slow : PatchState → ℕ → PatchState
to_slow st i = record st { text = poke st.text (i + 1) 0x0B; slow = st.slow + 1 }

-- The immediate of the `mov` is rewritten to the Linux number.
unfoldable pub to_fast : PatchState → ℕ → ℕ → PatchState
to_fast st mov_off linux_nr =
    let t1 = poke st.text (mov_off + 1) (linux_nr % 2 ^ 8) in
    let t2 = poke t1 (mov_off + 2) (linux_nr / 2 ^ 8 % 2 ^ 8) in
    let t3 = poke t2 (mov_off + 3) 0 in
    record st { text = poke t3 (mov_off + 4) 0; fast = st.fast + 1 }

-- The numbers that the fast path takes. `flags` is a `uint8_t`.
unfoldable pub is_fast : Bool → ℕ → Bool
is_fast no_fast_path bsd_nr =
    let linux_nr = bsd_to_linux bsd_nr in
    let flags = bsd_arg_flags bsd_nr % 2 ^ 8 in
    let needs_translation = not (bit_and flags (2 ^ 32 - 1 - arg_force_slow) == 0) in
    let force_slow = not (bit_and flags arg_force_slow == 0) in
    not no_fast_path && not (linux_nr == 0) && not needs_translation && not force_slow

-- A system call at `i`, with the `mov` that was found.
unfoldable pub patch_found : Bool → PatchState → ℕ → Option ℕ → PatchState
patch_found no_fast_path st i none = to_slow st i
patch_found no_fast_path st i (some mov_off) =
    let bsd_nr = mov_number st.text mov_off in
    if leb bsd_syscall_max bsd_nr
    then to_slow st i
    else if is_fast no_fast_path bsd_nr
    then to_fast st mov_off (bsd_to_linux bsd_nr)
    else to_slow st i

-- One round of the loop over `i`. Subtraction stops at 0, as the two tests on `i` have it.
unfoldable pub patch_site : Bool → PatchState → ℕ → PatchState
patch_site no_fast_path st i =
    let scan_start = i - backward_scan_bytes in
    if not (st.text i == 0x0F && st.text (i + 1) == 0x05)
    then st
    else if found_pattern st.text i scan_start (i - 5)
    then patch_found no_fast_path st i (find_mov st.text scan_start (i - 5))
    else st

-- The loop over `i`, with the rounds left.
unfoldable pub patch_sites : Bool → PatchState → ℕ → ℕ → PatchState
patch_sites no_fast_path st i zero = st
patch_sites no_fast_path st i (suc left) =
    patch_sites no_fast_path (patch_site no_fast_path st i) (i + 1) left

-- `range_end`
abbrev pub end_of_range : ℕ → ℕ → ℕ → ℕ
end_of_range vmsize range_start range_len = min ((range_start + range_len) % 2 ^ 64) vmsize

unfoldable pub patch_syscalls_in_range : Bool → ℕ → PatchState → ℕ → ℕ → PatchState
patch_syscalls_in_range no_fast_path vmsize st range_start range_len =
    patch_sites no_fast_path st range_start
      (end_of_range vmsize range_start range_len - (range_start + 1))
