-- ===== src/Shim/Sigmask.antt =====
-- shim/signal/sigmask.c: the signal numbers and sets of a macOS program that calls libc. A set of
-- glibc is the mask of its first 64 signals; glibc's `sigaddset`, `sigdelset` and `sigismember` set,
-- clear and test the bit of the signal.
pub mod Sets
use mac_ify.Prelude.{ℕ, zero, suc, ◌+◌, ◌-◌, ◌^◌, List, [], ◌∷◌, Option, none, some, ◌&&◌, ◌||◌}
use mac_ify.Prelude.{not}
use mac_ify.Prelude.{ltb, leb, ◌==◌, if◌then◌else◌, translate_bits, entry, bit_and, Memory, load}
use mac_ify.Prelude.{store}
use mac_ify.Syscall.Sigset.{bit_of}

-- `xlate[32]` of `macos_sig_to_linux`
unfoldable pub shim_xlate : ℕ → ℕ
unfolding entry
shim_xlate = entry (
    (1, 1)
    ∷ (2, 2)
    ∷ (3, 3)
    ∷ (4, 4)
    ∷ (5, 5)
    ∷ (6, 6)
    ∷ (8, 8)
    ∷ (9, 9)
    ∷ (10, 7)
    ∷ (11, 11)
    ∷ (12, 31)
    ∷ (13, 13)
    ∷ (14, 14)
    ∷ (15, 15)
    ∷ (16, 23)
    ∷ (17, 19)
    ∷ (18, 20)
    ∷ (19, 18)
    ∷ (20, 17)
    ∷ (21, 21)
    ∷ (22, 22)
    ∷ (23, 29)
    ∷ (24, 24)
    ∷ (25, 25)
    ∷ (26, 26)
    ∷ (27, 27)
    ∷ (28, 28)
    ∷ (30, 10)
    ∷ (31, 12)
    ∷ [])

-- Signals are not negative here.
unfoldable pub macos_sig_to_linux : ℕ → ℕ
unfolding shim_xlate
macos_sig_to_linux macos_sig = if leb 32 macos_sig then macos_sig else shim_xlate macos_sig

-- `xlate[l]` after the rounds from `m` on: the last signal that is sent as `l` stays.
unfoldable pub last_sent_as : ℕ → ℕ → ℕ → ℕ → ℕ
last_sent_as zero m l found = found
last_sent_as (suc left) m l found =
    last_sent_as left (m + 1) l
      (if ltb 0 l && ltb l 32 && macos_sig_to_linux m == l then m else found)

unfoldable pub linux_sig_to_macos : ℕ → ℕ
unfolding last_sent_as
linux_sig_to_macos linux_sig =
    let found = last_sent_as 32 0 linux_sig 0 in
    if leb 32 linux_sig then linux_sig else if found == 0 then linux_sig else found

-- The rounds of the loop over the macOS signals.
unfoldable pub shim_rows : ℕ → ℕ → List (ℕ × ℕ)
shim_rows zero macos_sig = []
shim_rows (suc left) macos_sig =
    let rest = shim_rows left (macos_sig + 1) in
    let linux_sig = macos_sig_to_linux macos_sig in
    if ltb 0 linux_sig then (bit_of macos_sig, bit_of linux_sig) ∷ rest else rest

unfoldable pub macos_to_linux_sigset : ℕ → ℕ
macos_to_linux_sigset macos_mask = translate_bits (shim_rows 31 1) macos_mask 0

-- The rounds of the loop over the Linux signals.
unfoldable pub shim_rows_back : ℕ → ℕ → List (ℕ × ℕ)
shim_rows_back zero linux_sig = []
shim_rows_back (suc left) linux_sig =
    let rest = shim_rows_back left (linux_sig + 1) in
    let macos_sig = linux_sig_to_macos linux_sig in
    if ltb 0 macos_sig && leb macos_sig 31
    then (bit_of linux_sig, bit_of macos_sig) ∷ rest
    else rest

unfoldable pub linux_to_macos_sigset : ℕ → ℕ
linux_to_macos_sigset linux_set = translate_bits (shim_rows_back 31 1) linux_set 0

-- The `switch` on `how`: SIG_BLOCK, SIG_UNBLOCK and SIG_SETMASK.
unfoldable pub linux_how_of : ℕ → ℕ
linux_how_of how = if how == 1 then 0 else if how == 2 then 1 else if how == 3 then 2 else how

-- `sigdelset` of SIGSEGV, SIGBUS, SIGABRT and SIGILL.
unfoldable pub without_crash_signals : ℕ → ℕ
without_crash_signals linux_set =
    bit_and
      (bit_and (bit_and (bit_and linux_set (2 ^ 64 - 1 - 2 ^ 10)) (2 ^ 64 - 1 - 2 ^ 6))
        (2 ^ 64 - 1 - 2 ^ 5))
      (2 ^ 64 - 1 - 2 ^ 3)

unfoldable pub set_for : ℕ → ℕ → ℕ
set_for linux_how macos_mask =
    let linux_set = macos_to_linux_sigset macos_mask in
    if linux_how == 0 || linux_how == 2 then without_crash_signals linux_set else linux_set

-- The real `pthread_sigmask`: `how` and the set, if there is one, give the result and the old set.
abbrev pub RealSigmask : Type 0
RealSigmask = ℕ → Option ℕ → ℕ × ℕ

-- `macify_sigprocmask` and `macify_pthread_sigmask` for a caller in macOS text, which do the same;
-- `set` and `oldset` are addresses, 0 for NULL.
unfoldable pub macify_sigprocmask : RealSigmask → ℕ → ℕ → ℕ → Memory → ℕ × Memory
macify_sigprocmask real_psm how set oldset mem =
    let linux_how = linux_how_of how in
    let p_linux_set = if set == 0 then none else some (set_for linux_how (load 4 mem set)) in
    let (result, linux_oldset) = real_psm linux_how p_linux_set in
    let mem' =
      if not (oldset == 0) && result == 0
      then store 4 mem oldset (linux_to_macos_sigset linux_oldset)
      else mem in
    (result, mem')
