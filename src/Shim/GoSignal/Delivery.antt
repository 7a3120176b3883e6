-- ===== src/Shim/GoSignal/Delivery.antt =====
-- What becomes of the signals of a Go binary.
use mac_ify.Prelude.{ℕ, ◌<◌, ◌≤◌, ◌≡◌, ◌≢◌, ◌↔◌, ◌⊎◌, arith, Option, some, Bool, true, false}
use mac_ify.Prelude.{Memory, load, ℤ}
use mac_ify.Shim.GoSignal.{go_is_ready, sync_fault, called, crashed, deferred, go_signal_wrapper}
use mac_ify.Shim.Sigaction.{sigill, SignalEnv, Action, SavedHandlers, RealSigaction, linux_signum}
use mac_ify.Shim.Sigaction.{is_go, is_refused, installed, wrapped, linux_action, with_restorer}
use mac_ify.Shim.Sigaction.{sigaction_call, save_handler, shim_sigaction}
use mac_ify.Shim.Sigaction.Guards.{with_restorer-handler}

-- A signal of a Go binary is put off in two cases: the runtime is ready but has no handler for it, or it
-- is not ready and the signal is no fault of the running instruction. Such a fault is reported by the
-- crash handler.
go_signal_wrapper_lem :
    (env : SignalEnv) (saved : SavedHandlers) (mem : Memory) (ready : Bool) (sig : ℕ)
    (info : Option ℤ)
    → (((go_signal_wrapper env saved mem ready sig info).0 ≡ deferred) ↔ (
        ((go_is_ready env mem ready ≡ true) × ((32 ≤ sig) ⊎ (saved sig ≡ 0)))
        ⊎ ((go_is_ready env mem ready ≡ false) × (sync_fault info ≡ false))))
      × (((go_signal_wrapper env saved mem ready sig info).0 ≡ crashed)
          ↔ ((go_is_ready env mem ready ≡ false) × (sync_fault info ≡ true)))
unfolding go_signal_wrapper
go_signal_wrapper_lem env saved mem ready sig info = ground arith

-- When a Go binary has asked for a handler of a signal other than SIGILL that the shim does not refuse,
-- the shim's wrapper is installed for the Linux signal, and once the runtime is ready the wrapper calls that
-- handler: any address but NULL, SIG_IGN's 1 included.
pub sigaction-delivered :
    (env : SignalEnv) (real : RealSigaction) (signum act oldact : ℕ) (mem : Memory)
    (saved : SavedHandlers) (mem' : Memory) (ready : Bool) (info : Option ℤ)
    → is_go env ≡ true
    → act ≢ 0
    → is_refused env signum ≡ false
    → linux_signum signum ≢ sigill
    → linux_signum signum < 32
    → load 8 mem act ≢ 0
    → go_is_ready env mem' ready ≡ true
    → ((a : Action) × (sigaction_call env signum act mem ≡ some (linux_signum signum, some a))
        × (a.handler ≡ env.go_signal_wrapper))
      × (go_signal_wrapper env
            (shim_sigaction env real signum act oldact mem saved).saved
            mem'
            ready
            (linux_signum signum)
            info
          ≡ (called (load 8 mem act), true))
unfolding go_signal_wrapper shim_sigaction sigaction_call installed wrapped save_handler
sigaction-delivered env real signum act oldact mem saved mem' ready info go some_act kept plain
      small some_handler is_ready =
    (
      (
        with_restorer env (wrapped env (linux_action mem act)),
        ground arith,
        with_restorer-handler env _,
      ),
      ground arith,
    )
