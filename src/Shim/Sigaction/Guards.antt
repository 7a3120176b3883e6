-- ===== src/Shim/Sigaction/Guards.antt =====
-- What a program in macOS text can install through shim/signal/sigaction.c.
use mac_ify.Prelude.{ℕ, ◌≤◌, ◌≡◌, ◌≢◌, ◌⊎◌, inl, inr, refl, arith, some, true, not, ◌&&◌, ◌||◌}
use mac_ify.Prelude.{ltb, ◌==◌, Memory, all_below, all_below_sound, Bool-cases, Bool}
use mac_ify.Shim.Sigaction.{sigill, sigabrt, sigbus, sigsegv, sigalrm, SignalEnv, Action}
use mac_ify.Shim.Sigaction.{linux_signum, linux_action, with_restorer, wrapped, crash_action}
use mac_ify.Shim.Sigaction.{installed, is_refused, sigaction_call}

abbrev number_ok : ℕ → Bool
number_ok s =
    (not (linux_signum s == sigabrt) || s == sigabrt)
    && (not (linux_signum s == sigalrm) || s == sigalrm)
    && (not (linux_signum s == sigill) || s == sigill)
    && (not (linux_signum s == sigsegv) || s == sigsegv)
    && (not (linux_signum s == sigbus) || s == sigbus || s == 10)

number_table : all_below 32 number_ok ≡ true
unfolding all_below linux_signum
number_table = refl

number_high : (s : ℕ) → 32 ≤ s → linux_signum s ≡ s
unfolding linux_signum
number_high s h = ground arith

-- Only SIGBUS comes to a number of these five from another one, and SIGEMT keeps its own.
guarded_numbers : (s : ℕ) → number_ok s ≡ true
guarded_numbers s = elim (Bool-cases (ltb s 32)) [
  | inl low ↦ all_below_sound 32 number_ok s number_table (ground arith)
  | inr high ↦ ground (arith, number_high s)
]

pub with_restorer-handler :
    (env : SignalEnv) (a : Action) → (with_restorer env a).handler ≡ a.handler
unfolding with_restorer
with_restorer-handler env a = ground arith

-- Whatever a program asks of `sigaction`, no action is installed for SIGILL, SIGABRT or SIGALRM, and those
-- installed for SIGSEGV and SIGBUS have a handler of the shim.
pub sigaction_call-guarded :
    (env : SignalEnv) (signum act : ℕ) (mem : Memory) (n : ℕ) (a : Action)
    → sigaction_call env signum act mem ≡ some (n, some a)
    → (n ≢ sigill)
      × (n ≢ sigabrt)
      × (n ≢ sigalrm)
      × (((n ≢ sigsegv) × (n ≢ sigbus))
          ⊎ (a.handler ≡ env.crash_handler)
          ⊎ (a.handler ≡ env.go_signal_wrapper))
unfolding sigaction_call is_refused installed wrapped crash_action
sigaction_call-guarded env signum act mem n a made = ground (
  arith,
  guarded_numbers signum,
  with_restorer-handler env (wrapped env (linux_action mem act)),
  with_restorer-handler env (crash_action env (linux_action mem act)),
)
