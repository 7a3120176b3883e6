-- ===== src/Syscall/Sigset/RoundTrip.antt =====
-- The signal sets and SA_* flags that src/syscall/sigill_handler.c takes over and gives back.
use mac_ify.Prelude.{ℕ, ◌-◌, ◌^◌, ◌<◌, ◌≤◌, ◌≡◌, refl, ◌∙◌, Bool, true, false, ◌||◌, has, carries}
use mac_ify.Prelude.{carries_sound, misses, misses_sound, all_below, all_below_sound, arith, ◌==◌}
use mac_ify.Prelude.{bit_and, bit_and_assoc, bit_and-zero, ◌+◌, ◌&&◌, if◌then◌else◌, ==_iff, ap}
use mac_ify.Prelude.{entry, ◌∷◌, []}
use mac_ify.Prelude.{translate_bits}
use mac_ify.Syscall.Flags.{kill_number}
use mac_ify.Syscall.Sigset.{bit_of, rows_from_macos, macos_to_linux_mask, rows_from_linux}
use mac_ify.Syscall.Sigset.{first_sent_as, sigprocmask_mask_back, sigaction_mask_back, sa_rows}
use mac_ify.Syscall.Sigset.{sa_rows_back, translate_sa_flags, sa_flags_back, keep_crash_signals}

-- SIGEMT, SIGINFO and SIGUSR1 are all sent as the Linux SIGUSR1.
abbrev pub is_shared : ℕ → Bool
is_shared s = s == 7 || s == 29 || s == 30

abbrev sent_ok : ℕ → Bool
sent_ok s =
    s == 0 || is_shared s || carries (rows_from_macos 31 1) (bit_of s) (bit_of (kill_number s))

sent_table : all_below 32 sent_ok ≡ true
unfolding all_below carries rows_from_macos kill_number
sent_table = refl

-- A signal from 1 to 31 that has a Linux number of its own is in the Linux set exactly when it is
-- in the macOS set.
pub macos_to_linux_mask-has :
    (mask s : ℕ)
    → 1 ≤ s
    → s < 32
    → is_shared s ≡ false
    → has (macos_to_linux_mask mask) (bit_of (kill_number s)) ≡ has mask (bit_of s)
unfolding macos_to_linux_mask
macos_to_linux_mask-has mask s p h own =
    carries_sound (rows_from_macos 31 1) (bit_of s) (bit_of (kill_number s)) mask
      (ground (arith, all_below_sound 32 sent_ok s sent_table h, own))

abbrev back_ok : ℕ → Bool
back_ok s =
    s == 0
    || is_shared s
    || carries (rows_from_linux bit_of 31 1) (bit_of (kill_number s)) (bit_of s)

back_table : all_below 32 back_ok ≡ true
unfolding all_below carries rows_from_linux first_sent_as kill_number
back_table = refl

-- Taken over to Linux and given back, a set has the same signals from 1 to 31, but for the three
-- that are sent as SIGUSR1, of which nothing is said.
pub sigprocmask_round_trip :
    (mask s : ℕ)
    → 1 ≤ s
    → s < 32
    → is_shared s ≡ false
    → has (sigprocmask_mask_back (macos_to_linux_mask mask)) (bit_of s) ≡ has mask (bit_of s)
unfolding sigprocmask_mask_back
sigprocmask_round_trip mask s p h own =
    carries_sound (rows_from_linux bit_of 31 1) (bit_of (kill_number s)) (bit_of s)
      (macos_to_linux_mask mask) (ground (arith, all_below_sound 32 back_ok s back_table h, own))
    ∙ macos_to_linux_mask-has mask s p h own

-- A blocked SIGUSR1 of Linux is given back as SIGEMT, and SIGUSR1 (30) is never given back.
pub sigusr1_given_back_as_sigemt :
    (mask : ℕ)
    → (has (sigprocmask_mask_back mask) (bit_of 7) ≡ has mask (bit_of 10))
      × (has (sigprocmask_mask_back mask) (bit_of 30) ≡ false)
unfolding sigprocmask_mask_back
sigusr1_given_back_as_sigemt mask = (
  carries_sound (rows_from_linux bit_of 31 1) (bit_of 10) (bit_of 7) mask
      (unfold carries rows_from_linux first_sent_as kill_number in refl),
  misses_sound (rows_from_linux bit_of 31 1) (bit_of 30) mask
      (unfold misses rows_from_linux first_sent_as kill_number in refl),
)

abbrev old_mask_ok : ℕ → Bool
old_mask_ok s = s == 0 || carries (rows_from_linux (λ ls. 2 ^ ls) 31 1) (2 ^ s) (bit_of s)

old_mask_table : all_below 7 old_mask_ok ≡ true
unfolding all_below carries rows_from_linux first_sent_as kill_number
old_mask_table = refl

-- In the old action's set each of the signals 1 to 6, whose numbers are alike, stands for the Linux
-- signal with the next number.
pub sigaction_mask_back_off_by_one :
    (mask s : ℕ)
    → 1 ≤ s
    → s ≤ 6
    → has (sigaction_mask_back mask) (bit_of s) ≡ has mask (bit_of (s + 1))
unfolding sigaction_mask_back
sigaction_mask_back_off_by_one mask s p h =
    carries_sound (rows_from_linux (λ ls. 2 ^ ls) 31 1) (2 ^ s) (bit_of s) mask
      (ground (arith, all_below_sound 7 old_mask_ok s old_mask_table (omega arith)))
    ∙ ap (λ t. has mask (2 ^ t)) (omega arith)

-- The Linux bit of the macOS bit `2 ^ i`.
sa_linux : ℕ → ℕ
sa_linux = entry (
    (0, 0x08000000)
    ∷ (1, 0x10000000)
    ∷ (2, 0x80000000)
    ∷ (3, 0x1)
    ∷ (4, 0x40000000)
    ∷ (5, 0x2)
    ∷ (6, 0x4)
    ∷ [])

abbrev sa_flag_ok : ℕ → Bool
sa_flag_ok i = carries sa_rows (2 ^ i) (sa_linux i) && carries sa_rows_back (sa_linux i) (2 ^ i)

sa_flag_table : all_below 7 sa_flag_ok ≡ true
unfolding all_below carries sa_linux entry
sa_flag_table = refl

-- The seven SA_* flags are taken over and given back unchanged.
sa_flags_round_trip :
    (f i : ℕ) → i < 7 → has (sa_flags_back (translate_sa_flags f)) (2 ^ i) ≡ has f (2 ^ i)
unfolding sa_flags_back translate_sa_flags
sa_flags_round_trip f i h =
    let row : sa_flag_ok i ≡ true = all_below_sound 7 sa_flag_ok i sa_flag_table h in
    carries_sound sa_rows_back (sa_linux i) (2 ^ i) (translate_bits sa_rows f 0)
      (ground (arith, row))
    ∙ carries_sound sa_rows (2 ^ i) (sa_linux i) f (ground (arith, row))

-- The bits that are left of `bit_of s`.
abbrev left_of : ℕ → ℕ
left_of s = bit_and (2 ^ 64 - 1 - 2 ^ 10) (bit_and (2 ^ 64 - 1 - 2 ^ 5) (bit_of s))

abbrev kept_ok : ℕ → Bool
kept_ok s = left_of s == (if s == 11 || s == 6 then 0 else bit_of s)

kept_table : all_below 32 kept_ok ≡ true
unfolding all_below
kept_table = refl

kept : (s : ℕ) → s < 32 → left_of s ≡ (if s == 11 || s == 6 then 0 else bit_of s)
kept s h = (==_iff _ _).0 (all_below_sound 32 kept_ok s kept_table h)

and_left : (mask s : ℕ) → bit_and (keep_crash_signals mask) (bit_of s) ≡ bit_and mask (left_of s)
unfolding keep_crash_signals
and_left mask s = bit_and_assoc _ _ (bit_of s) ∙ bit_and_assoc mask _ _

-- Neither SIGSEGV nor SIGABRT stays in the set, and every other signal of Linux below 32 does or does
-- not as before.
keep_crash_signals-has :
    (mask s : ℕ)
    → 1 ≤ s
    → s < 32
    → has (keep_crash_signals mask) (bit_of s)
      ≡ (if s == 11 || s == 6 then false else has mask (bit_of s))
unfolding has
keep_crash_signals-has mask s p h =
    ground (arith, and_left mask s, ap (bit_and mask) (kept s h), bit_and-zero mask)
