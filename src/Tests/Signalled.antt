-- ===== src/Tests/Signalled.antt =====
-- Runs of shim/signal/sigaction.c, shim/signal/go_signal.c and shim/shim_core.c.
use mac_ify.Prelude.{ℕ, ◌≡◌, ◌≢◌, ◌⊎◌, refl, arith, [], ◌∷◌, some, true, false}
use mac_ify.Prelude.{entry, Memory, load}
use mac_ify.Prelude.{pos}
use mac_ify.Shim.GoSignal.{go_is_ready, field_at, called}
use mac_ify.Shim.GoSignal.{go_signal_wrapper}
use mac_ify.Shim.GoSignal.Delivery.{sigaction-delivered}
use mac_ify.Shim.Sigaction.{SignalEnv, Action, sigill, sigabrt, sigbus, sigalrm, sigsegv}
use mac_ify.Shim.Sigaction.{linux_signum, linux_action, is_refused, installed, sigaction_call}
use mac_ify.Shim.Sigaction.{shim_sigaction, sigaction_xlate, with_restorer}
use mac_ify.Shim.Sigaction.{crash_action, is_go}
use mac_ify.Shim.Sigaction.Guards.{sigaction_call-guarded}

-- A program in C.
abbrev c_env : SignalEnv
c_env = record {
  tls_g_addr = 0;
  sa_restorer = 0;
  crash_handler = 0x100;
  go_signal_wrapper = 0x200;
  sigchld_wrapper = 0x300;
}

-- A Go binary whose g is at 0x5100, m at 0x5200, with gsignal and curg.
abbrev go_env : SignalEnv
go_env = record {
  tls_g_addr = 0x5000;
  sa_restorer = 0x6000;
  crash_handler = 0x100;
  go_signal_wrapper = 0x200;
  sigchld_wrapper = 0x300;
}

abbrev go_memory : Memory
go_memory = entry ((0x5001, 0x51) ∷ (0x5131, 0x52) ∷ (0x5248, 1) ∷ (0x52b8, 1) ∷ [])

-- A `struct sigaction` with the handler 0x4000.
abbrev handler_at_0x10 : Memory
handler_at_0x10 = entry ((0x11, 0x40) ∷ [])

-- SIGBUS of macOS, 10, gets the crash handler.
sigaction_call-guarded_example :
    (sigbus ≢ sigill)
    × (sigbus ≢ sigabrt)
    × (sigbus ≢ sigalrm)
    × (((sigbus ≢ sigsegv) × (sigbus ≢ sigbus))
        ⊎ ((crash_action c_env (linux_action handler_at_0x10 0x10)).handler ≡ 0x100)
        ⊎ ((crash_action c_env (linux_action handler_at_0x10 0x10)).handler ≡ 0x200))
unfolding sigaction_call is_refused installed linux_signum sigaction_xlate entry with_restorer is_go
sigaction_call-guarded_example =
    sigaction_call-guarded c_env 10 0x10 handler_at_0x10 sigbus
      (crash_action c_env (linux_action handler_at_0x10 0x10)) refl

abbrev ten : ℕ
ten = 10

-- SIGURG, 16 on macOS and 23 on Linux, which Go's runtime uses.
sigaction-delivered_example :
    ((a : Action) × (sigaction_call go_env 16 0x10 handler_at_0x10 ≡ some (23, some a))
      × (a.handler ≡ 0x200))
    × (go_signal_wrapper go_env
          (shim_sigaction go_env
            (λ call. (0, record { handler = 0; flags = 0; restorer = 0; mask = 0 }))
            16
            0x10
            0
            handler_at_0x10
            (λ n. 0)).saved
          go_memory
          false
          23
          (some (pos 0))
        ≡ (called 0x4000, true))
unfolding linux_signum sigaction_xlate entry is_refused is_go go_is_ready field_at load
sigaction-delivered_example =
    sigaction-delivered go_env
      (λ call. (0, record { handler = 0; flags = 0; restorer = 0; mask = 0 })) 16 0x10 0
      handler_at_0x10 (λ n. 0) go_memory false (some (pos 0)) refl (omega arith) refl (omega arith)
      (omega arith) (omega arith) refl
