-- ===== src/Syscall/Sigset.antt =====
-- The loops of src/syscall/sigill_handler.c over the signals of a set, and its SA_* bits. Each loop
-- is the chain of its rounds: `(m, l)` stands for `if (mask & m) out |= l;`.
pub mod RoundTrip
use mac_ify.Prelude.{ℕ, zero, suc, ◌+◌, ◌-◌, ◌^◌, List, [], ◌∷◌, ltb, leb, ◌==◌, if◌then◌else◌}
use mac_ify.Prelude.{◌&&◌}
use mac_ify.Prelude.{translate_bits, bit_and}
use mac_ify.Syscall.Flags.{kill_number}

-- `1u << (s - 1)`
abbrev pub bit_of : ℕ → ℕ
bit_of s = 2 ^ (s - 1)

-- Rounds `ms`, `ms + 1`, … of the loops from macOS to Linux. `translate_kill_signal(ms)` is
-- `kill_number ms`, since `ms` stays below 32.
unfoldable pub rows_from_macos : ℕ → ℕ → List (ℕ × ℕ)
rows_from_macos zero ms = []
rows_from_macos (suc left) ms =
    let rest = rows_from_macos left (ms + 1) in
    let ls = kill_number ms in if leb 1 ls && ltb ls 64 then (bit_of ms, bit_of ls) ∷ rest else rest

-- `for (int ms = 1; ms <= 31; ms++)` of the sigprocmask and sigaction branches.
unfoldable pub macos_to_linux_mask : ℕ → ℕ
macos_to_linux_mask macos_mask = translate_bits (rows_from_macos 31 1) macos_mask 0

-- The first signal of macOS from `ms` on that is sent as `ls`, as its bit; 0 if there is none.
unfoldable pub first_sent_as : ℕ → ℕ → ℕ → ℕ
first_sent_as zero ms ls = 0
first_sent_as (suc left) ms ls =
    let rest = first_sent_as left (ms + 1) ls in if kill_number ms == ls then bit_of ms else rest

-- Rounds `ls`, `ls + 1`, … of the loops back to macOS. The bit that stands for `ls` in the Linux set
-- is `2 ^ (ls - 1)` for sigprocmask; the sigaction branch tests `mask[ls / 8] & (1 << (ls % 8))`,
-- which is `2 ^ ls`.
unfoldable pub rows_from_linux : (ℕ → ℕ) → ℕ → ℕ → List (ℕ × ℕ)
rows_from_linux bit zero ls = []
rows_from_linux bit (suc left) ls =
    (bit ls, first_sent_as 31 1 ls) ∷ rows_from_linux bit left (ls + 1)

unfoldable pub sigprocmask_mask_back : ℕ → ℕ
sigprocmask_mask_back linux_mask = translate_bits (rows_from_linux bit_of 31 1) linux_mask 0

unfoldable pub sigaction_mask_back : ℕ → ℕ
sigaction_mask_back linux_mask = translate_bits (rows_from_linux (λ ls. 2 ^ ls) 31 1) linux_mask 0

abbrev pub sa_rows : List (ℕ × ℕ)
sa_rows =
    (0x0001, 0x08000000)
    ∷ (0x0002, 0x10000000)
    ∷ (0x0004, 0x80000000)
    ∷ (0x0008, 0x00000001)
    ∷ (0x0010, 0x40000000)
    ∷ (0x0020, 0x00000002)
    ∷ (0x0040, 0x00000004)
    ∷ []

unfoldable pub translate_sa_flags : ℕ → ℕ
translate_sa_flags macos_flags = translate_bits sa_rows macos_flags 0

abbrev pub sa_rows_back : List (ℕ × ℕ)
sa_rows_back =
    (0x08000000, 0x0001)
    ∷ (0x10000000, 0x0002)
    ∷ (0x80000000, 0x0004)
    ∷ (0x00000001, 0x0008)
    ∷ (0x40000000, 0x0010)
    ∷ (0x00000002, 0x0020)
    ∷ (0x00000004, 0x0040)
    ∷ []

unfoldable pub sa_flags_back : ℕ → ℕ
sa_flags_back linux_flags = translate_bits sa_rows_back linux_flags 0

-- `linux_mask &= ~(1ULL << 10); linux_mask &= ~(1ULL << 5);`
unfoldable pub keep_crash_signals : ℕ → ℕ
keep_crash_signals linux_mask =
    bit_and (bit_and linux_mask (2 ^ 64 - 1 - 2 ^ 10)) (2 ^ 64 - 1 - 2 ^ 5)
