-- ===== src/Tests/Shim.antt =====
-- Runs of shim/signal/sigmask.c, shim/signal/sigset.c and shim/io/flags.c.
use mac_ify.Prelude.{ℕ, ◌≤◌, ◌<◌, ◌≡◌, inl, refl, arith, has, load, false, if◌then◌else◌}
use mac_ify.Shim.Sigmask.{macos_to_linux_sigset}
use mac_ify.Shim.Sigmask.{RealSigmask, macify_sigprocmask}
use mac_ify.Shim.Sigmask.Sets.{is_crash}
use mac_ify.Shim.Sigmask.Sets.{macify_sigprocmask-spared}
use mac_ify.Syscall.Sigset.{bit_of}
use mac_ify.Tests.Data.{no_memory}

abbrev quiet : RealSigmask
quiet how set = (0, 0)

macify_sigprocmask-spared_example :
    (linux_set : ℕ) × ((macify_sigprocmask quiet 1 0x500 0 no_memory).0 ≡ 0)
    × ((s : ℕ)
        → 1 ≤ s
        → s < 32
        → has linux_set (bit_of s) ≡ (
            if is_crash s
            then false
            else has (macos_to_linux_sigset (load 4 no_memory 0x500)) (bit_of s)))
macify_sigprocmask-spared_example =
    macify_sigprocmask-spared quiet 1 0x500 0 no_memory (omega arith) (inl refl)
