-- ===== src/Tests/Signals.antt =====
-- Runs of the translations of flags, signals and signal sets.
use mac_ify.Prelude.{◌≡◌, refl, arith, has, true}
use mac_ify.Syscall.Sigset.{bit_of, macos_to_linux_mask, sigprocmask_mask_back}
use mac_ify.Syscall.Sigset.RoundTrip.{sigprocmask_round_trip}

sigprocmask_round_trip_example :
    has (sigprocmask_mask_back (macos_to_linux_mask 0x8002)) (bit_of 16) ≡ true
unfolding has
sigprocmask_round_trip_example = sigprocmask_round_trip 0x8002 16 (omega arith) (omega arith) refl
