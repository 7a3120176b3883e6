-- ===== src/Syscall/Flags.antt =====
-- src/syscall/flag_translation.c: macOS flags and command numbers as Linux has them. A flag word is
-- the bit pattern of the `int`; a signal, a command and an advice are the `int` itself.
use mac_ify.Abi.Linux.{o_nonblock, o_append, o_async, o_sync, o_nofollow, o_creat, o_trunc, o_excl}
use mac_ify.Abi.Linux.{o_noctty, o_cloexec, map_shared, map_private, map_fixed, map_noreserve}
use mac_ify.Abi.Linux.{map_anonymous, f_dupfd, f_getfd, f_setfd, f_getfl, f_setfl, f_getlk}
use mac_ify.Abi.Linux.{f_setlk, f_setlkw, f_setown, f_getown, f_dupfd_cloexec, madv_normal}
use mac_ify.Abi.Linux.{madv_random, madv_sequential, madv_willneed, madv_dontneed, madv_free}
use mac_ify.Prelude.{ℕ, ◌∷◌, [], bit_and, bit_or, translate_bits, entry, leb, ◌==◌}
use mac_ify.Prelude.{if◌then◌else◌, ℤ, pos, negsuc, List}
pub mod Open
pub mod Signals

-- The rows of `if (macos_flags & m) linux_flags |= l;`, in order.
abbrev pub open_rows : List (ℕ × ℕ)
open_rows =
    (0x0000004, o_nonblock)
    ∷ (0x0000008, o_append)
    ∷ (0x0000040, o_async)
    ∷ (0x0000080, o_sync)
    ∷ (0x0000100, o_nofollow)
    ∷ (0x0000200, o_creat)
    ∷ (0x0000400, o_trunc)
    ∷ (0x0000800, o_excl)
    ∷ (0x0020000, o_noctty)
    ∷ (0x1000000, o_cloexec)
    ∷ []

unfoldable pub translate_open_flags : ℕ → ℕ
translate_open_flags macos_flags = translate_bits open_rows macos_flags (bit_and macos_flags 0x3)

-- 0x0800, MAP_JIT, has an empty branch.
abbrev pub mmap_rows : List (ℕ × ℕ)
mmap_rows =
    (0x0001, map_shared)
    ∷ (0x0002, map_private)
    ∷ (0x0010, map_fixed)
    ∷ (0x0040, map_noreserve)
    ∷ (0x1000, map_anonymous)
    ∷ []

-- `linux_flags` is 0 before the access mode is or-ed in.
unfoldable pub translate_mmap_flags : ℕ → ℕ
translate_mmap_flags macos_flags =
    translate_bits mmap_rows macos_flags (bit_or 0 (bit_and macos_flags 0x3))

-- `sig_xlate[32]`
unfoldable pub sig_xlate : ℕ → ℕ
unfolding entry
sig_xlate = entry (
    (0, 0)
    ∷ (7, 10)
    ∷ (8, 8)
    ∷ (10, 7)
    ∷ (12, 31)
    ∷ (16, 23)
    ∷ (17, 19)
    ∷ (18, 20)
    ∷ (19, 18)
    ∷ (20, 17)
    ∷ (21, 21)
    ∷ (22, 22)
    ∷ (23, 29)
    ∷ (24, 24)
    ∷ (25, 25)
    ∷ (26, 26)
    ∷ (27, 27)
    ∷ (28, 28)
    ∷ (29, 10)
    ∷ (30, 10)
    ∷ (31, 12)
    ∷ [])

-- `linux_sig ? linux_sig : macos_sig`
unfoldable pub kill_number : ℕ → ℕ
unfolding sig_xlate
kill_number n = let linux_sig = sig_xlate n in if linux_sig == 0 then n else linux_sig

unfoldable pub translate_kill_signal : ℤ → ℤ
translate_kill_signal (negsuc n) = negsuc n
translate_kill_signal (pos n) = if leb 32 n then pos n else pos (kill_number n)

-- The `switch` as its list of cases; -1 is the default.
unfoldable pub translate_fcntl_cmd : ℤ → ℤ
translate_fcntl_cmd (negsuc n) = negsuc 0
translate_fcntl_cmd (pos c) =
    if c == 0
    then pos f_dupfd
    else if c == 1
    then pos f_getfd
    else if c == 2
    then pos f_setfd
    else if c == 3
    then pos f_getfl
    else if c == 4
    then pos f_setfl
    else if c == 5
    then pos f_getown
    else if c == 6
    then pos f_setown
    else if c == 7
    then pos f_getlk
    else if c == 8
    then pos f_setlk
    else if c == 9
    then pos f_setlkw
    else if c == 67
    then pos f_dupfd_cloexec
    else negsuc 0

unfoldable pub translate_madvise : ℤ → ℤ
translate_madvise (negsuc n) = negsuc n
translate_madvise (pos a) =
    if a == 0
    then pos madv_normal
    else if a == 1
    then pos madv_random
    else if a == 2
    then pos madv_sequential
    else if a == 3
    then pos madv_willneed
    else if a == 4
    then pos madv_dontneed
    else if a == 5
    then pos madv_free
    else pos a
