-- ===== src/Shim/Sigmask/Sets.antt =====
-- What shim/signal/sigmask.c does to the signals of a set.
use mac_ify.Prelude.{ℕ, ◌-◌, ◌^◌, ◌≤◌, ◌<◌, ◌≡◌, ◌∙◌, refl, ap, arith, Bool, true, false, ◌&&◌}
use mac_ify.Prelude.{◌||◌}
use mac_ify.Prelude.{◌==◌, if◌then◌else◌, has, carries, carries_sound, all_below, all_below_sound}
use mac_ify.Prelude.{bit_and, bit_and_assoc, bit_and-zero, ==_iff, Memory, load, some, ◌≢◌, ◌⊎◌}
use mac_ify.Prelude.{inl, inr}
use mac_ify.Shim.Sigmask.{macos_sig_to_linux, linux_sig_to_macos, shim_rows, shim_rows_back}
use mac_ify.Shim.Sigmask.{macos_to_linux_sigset, linux_to_macos_sigset, without_crash_signals}
use mac_ify.Shim.Sigmask.{set_for, linux_how_of, RealSigmask, macify_sigprocmask}
use mac_ify.Syscall.Sigset.{bit_of}
use mac_ify.Syscall.Flags.{kill_number}

-- SIGEMT and SIGINFO have no Linux number.
abbrev pub is_dropped : ℕ → Bool
is_dropped s = s == 7 || s == 29

-- SIGURG and SIGUSR1 have the numbers of two Linux signals that macOS does not have.
abbrev pub is_reused : ℕ → Bool
is_reused s = s == 16 || s == 30

abbrev number_ok : ℕ → Bool
number_ok s =
    s == 0
    || is_dropped s
    || (linux_sig_to_macos (macos_sig_to_linux s) == s && macos_sig_to_linux s == kill_number s)

number_table : all_below 32 number_ok ≡ true
unfolding all_below linux_sig_to_macos macos_sig_to_linux kill_number
number_table = refl

-- A signal from 1 to 31 other than SIGEMT and SIGINFO is given back as itself, and the shim and
-- the slow path send it as the same Linux signal.
pub macos_sig_to_linux_agrees :
    (s : ℕ)
    → 1 ≤ s
    → s < 32
    → is_dropped s ≡ false
    → (linux_sig_to_macos (macos_sig_to_linux s) ≡ s) × (macos_sig_to_linux s ≡ kill_number s)
macos_sig_to_linux_agrees s p h kept = ground (arith, all_below_sound 32 number_ok s number_table h)

abbrev set_ok : ℕ → Bool
set_ok s =
    s == 0
    || is_dropped s
    || is_reused s
    || (carries (shim_rows 31 1) (bit_of s) (bit_of (macos_sig_to_linux s))
        && carries (shim_rows_back 31 1) (bit_of (macos_sig_to_linux s)) (bit_of s))

set_table : all_below 32 set_ok ≡ true
unfolding all_below carries shim_rows shim_rows_back linux_sig_to_macos macos_sig_to_linux
set_table = refl

-- Taken over to Linux and given back, a set has the same signals from 1 to 31, but for SIGEMT,
-- SIGINFO, SIGURG and SIGUSR1, of which nothing is said.
shim_sigset_round_trip :
    (mask s : ℕ)
    → 1 ≤ s
    → s < 32
    → is_dropped s ≡ false
    → is_reused s ≡ false
    → has (linux_to_macos_sigset (macos_to_linux_sigset mask)) (bit_of s) ≡ has mask (bit_of s)
unfolding linux_to_macos_sigset macos_to_linux_sigset
shim_sigset_round_trip mask s p h kept own =
    let row = all_below_sound 32 set_ok s set_table h in
    carries_sound (shim_rows_back 31 1) (bit_of (macos_sig_to_linux s)) (bit_of s)
      (macos_to_linux_sigset mask) (ground (arith, row))
    ∙ carries_sound (shim_rows 31 1) (bit_of s) (bit_of (macos_sig_to_linux s)) mask
        (ground (arith, row))

-- SIGILL, SIGABRT, SIGBUS and SIGSEGV, by their Linux numbers.
abbrev pub is_crash : ℕ → Bool
is_crash s = s == 4 || s == 6 || s == 7 || s == 11

abbrev left_of : ℕ → ℕ
left_of s = bit_and (2 ^ 64 - 1 - 2 ^ 10) (
    bit_and (2 ^ 64 - 1 - 2 ^ 6)
      (bit_and (2 ^ 64 - 1 - 2 ^ 5) (bit_and (2 ^ 64 - 1 - 2 ^ 3) (bit_of s))))

abbrev left_ok : ℕ → Bool
left_ok s = left_of s == (if is_crash s then 0 else bit_of s)

left_table : all_below 32 left_ok ≡ true
unfolding all_below
left_table = refl

and_left : (set s : ℕ) → bit_and (without_crash_signals set) (bit_of s) ≡ bit_and set (left_of s)
unfolding without_crash_signals
and_left set s =
    bit_and_assoc _ _ (bit_of s) ∙ bit_and_assoc _ _ _ ∙ bit_and_assoc _ _ _ ∙ bit_and_assoc set _ _

without_crash_signals-has :
    (set s : ℕ)
    → 1 ≤ s
    → s < 32
    → has (without_crash_signals set) (bit_of s)
      ≡ (if is_crash s then false else has set (bit_of s))
unfolding has
without_crash_signals-has set s p h =
    let left : left_of s ≡ (if is_crash s then 0 else bit_of s) =
      (==_iff _ _).0 (all_below_sound 32 left_ok s left_table h) in
    ground (arith, and_left set s, ap (bit_and set) left, bit_and-zero set)

-- A program that blocks or installs a set gets the result of the real function for a set without the
-- four signals of the crash handlers, and with every other signal of Linux below 32 exactly when the
-- translated set has it; the Linux `how` is 0 to block and 2 to install.
pub macify_sigprocmask-spared :
    (real_psm : RealSigmask) (how set oldset : ℕ) (mem : Memory)
    → set ≢ 0
    → (how ≡ 1) ⊎ (how ≡ 3)
    → (linux_set : ℕ) × ((macify_sigprocmask real_psm how set oldset mem).0
        ≡ (real_psm (how - 1) (some linux_set)).0)
      × ((s : ℕ)
          → 1 ≤ s
          → s < 32
          → has linux_set (bit_of s) ≡ (
              if is_crash s
              then false
              else has (macos_to_linux_sigset (load 4 mem set)) (bit_of s)))
unfolding macify_sigprocmask set_for linux_how_of
macify_sigprocmask-spared real_psm how set oldset mem given (inl e) = (
  without_crash_signals (macos_to_linux_sigset (load 4 mem set)),
  rw e (ground arith),
  λ s p h. without_crash_signals-has (macos_to_linux_sigset (load 4 mem set)) s p h,
)
macify_sigprocmask-spared real_psm how set oldset mem given (inr e) = (
  without_crash_signals (macos_to_linux_sigset (load 4 mem set)),
  rw e (ground arith),
  λ s p h. without_crash_signals-has (macos_to_linux_sigset (load 4 mem set)) s p h,
)
