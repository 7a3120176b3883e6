-- ===== src/Shim/Sigaction.antt =====
-- shim/signal/sigaction.c: `sigaction` and `signal` for a caller in macOS text. An `int` is its pattern of
-- 32 bits. glibc's `sigaction`, or the system call in its place, is a parameter; traces are left out.
pub mod Guards
use mac_ify.Abi.Linux.{sa_onstack, sa_siginfo, sa_nodefer}
use mac_ify.Prelude.{ℕ, ◌+◌, ◌%◌, ◌^◌, List, [], ◌∷◌, Option, none, some, Bool, not, ◌&&◌, ◌||◌}
use mac_ify.Prelude.{Memory, load, store, entry, translate_bits, bit_or, ltb, ◌==◌, if◌then◌else◌}
use mac_ify.Shim.Sigmask.{macos_to_linux_sigset}

-- Linux numbers.
abbrev pub sigill : ℕ
sigill = 4

abbrev pub sigabrt : ℕ
sigabrt = 6

abbrev pub sigbus : ℕ
sigbus = 7

abbrev pub sigsegv : ℕ
sigsegv = 11

abbrev pub sigalrm : ℕ
sigalrm = 14

-- `g_tls_g_addr`, not 0 for a Go binary only, `macify_sa_restorer`, 0 for NULL, and the addresses of the
-- shim's handlers.
pub record SignalEnv : Type 0 where
  pub tls_g_addr : ℕ
  pub sa_restorer : ℕ
  pub crash_handler : ℕ
  pub go_signal_wrapper : ℕ
  pub sigchld_wrapper : ℕ

-- A `struct sigaction` of Linux, with the first 64 signals of the mask.
pub record Action : Type 0 where
  pub handler : ℕ
  pub flags : ℕ
  pub restorer : ℕ
  pub mask : ℕ

-- `static const int sig_xlate[32]`
unfoldable pub sigaction_xlate : ℕ → ℕ
unfolding entry
sigaction_xlate = entry (
    (1, 1)
    ∷ (2, 2)
    ∷ (3, 3)
    ∷ (4, 4)
    ∷ (5, 5)
    ∷ (6, 6)
    ∷ (8, 8)
    ∷ (9, 9)
    ∷ (10, 7)
    ∷ (11, 11)
    ∷ (12, 31)
    ∷ (13, 13)
    ∷ (14, 14)
    ∷ (15, 15)
    ∷ (16, 23)
    ∷ (17, 19)
    ∷ (18, 20)
    ∷ (19, 18)
    ∷ (20, 17)
    ∷ (21, 21)
    ∷ (22, 22)
    ∷ (23, 29)
    ∷ (24, 24)
    ∷ (25, 25)
    ∷ (26, 26)
    ∷ (27, 27)
    ∷ (28, 28)
    ∷ (30, 10)
    ∷ (31, 12)
    ∷ [])

unfoldable pub linux_signum : ℕ → ℕ
unfolding sigaction_xlate
linux_signum signum =
    if ltb signum 32 && not (sigaction_xlate signum == 0) then sigaction_xlate signum else signum

abbrev pub shim_sa_rows : List (ℕ × ℕ)
shim_sa_rows =
    (0x0001, 0x08000000)
    ∷ (0x0002, 0x10000000)
    ∷ (0x0004, 0x80000000)
    ∷ (0x0008, 0x00000001)
    ∷ (0x0010, 0x40000000)
    ∷ (0x0020, 0x00000002)
    ∷ (0x0040, 0x00000004)
    ∷ (0x0080, 0x04000000)
    ∷ []

unfoldable pub shim_sa_flags : ℕ → ℕ
shim_sa_flags macos_flags = translate_bits shim_sa_rows macos_flags 0

-- The caller's struct has the handler at 0, the mask at 8 and the flags at 12.
unfoldable pub linux_action : Memory → ℕ → Action
linux_action mem act = record {
  handler = load 8 mem act;
  flags = shim_sa_flags (load 4 mem (act + 12));
  restorer = 0;
  mask = macos_to_linux_sigset (load 4 mem (act + 8));
}

-- SA_RESTORER is 0x04000000.
unfoldable pub with_restorer : SignalEnv → Action → Action
with_restorer env a =
    if env.sa_restorer == 0
    then a
    else record a { flags = bit_or a.flags 0x04000000; restorer = env.sa_restorer }

unfoldable pub is_go : SignalEnv → Bool
is_go env = not (env.tls_g_addr == 0)

-- The shim's wrapper in place of the handler of a Go binary.
unfoldable pub wrapped : SignalEnv → Action → Action
wrapped env a = record a {
  handler = env.go_signal_wrapper;
  flags = bit_or (bit_or sa_siginfo sa_onstack) sa_nodefer;
}

unfoldable pub crash_action : SignalEnv → Action → Action
crash_action env a = record a { handler = env.crash_handler; flags = bit_or sa_siginfo sa_onstack }

-- What is installed for the Linux signal, if anything is.
unfoldable pub installed : SignalEnv → ℕ → Action → Option Action
installed env signum a =
    if signum == sigsegv || signum == sigbus
    then some (with_restorer env (if is_go env then wrapped env a else crash_action env a))
    else if signum == sigill
    then none
    else some (with_restorer env (if is_go env then wrapped env a else a))

-- `macify_saved_go_handlers`, by Linux numbers.
abbrev pub SavedHandlers : Type 0
SavedHandlers = ℕ → ℕ

unfoldable pub save_handler : SignalEnv → ℕ → ℕ → SavedHandlers → SavedHandlers
save_handler env signum handler saved n =
    if is_go env && not (signum == sigill) && ltb signum 32 && n == signum then handler else saved n

-- A call of the real `sigaction`: the signal, and the action if there is one.
abbrev pub SigactionCall : Type 0
SigactionCall = ℕ × Option Action

-- The result, and the old action.
abbrev pub RealSigaction : Type 0
RealSigaction = SigactionCall → ℕ × Action

-- The old action goes out with Linux's flags, and the first four bytes of its mask.
unfoldable pub store_old_action : Memory → ℕ → Action → Memory
store_old_action mem oldact old =
    store 4 (store 4 (store 8 mem oldact old.handler) (oldact + 12) old.flags) (oldact + 8)
      (old.mask % 2 ^ 32)

-- SIGSEGV, SIGABRT and SIGALRM, which have the same number on macOS; SIGSEGV not of a Go binary.
unfoldable pub is_refused : SignalEnv → ℕ → Bool
is_refused env signum =
    (signum == sigsegv || signum == sigabrt || signum == sigalrm)
    && not (signum == sigsegv && is_go env)

-- The call that is made, if one is; `act` and `oldact` are addresses, 0 for NULL.
unfoldable pub sigaction_call : SignalEnv → ℕ → ℕ → Memory → Option SigactionCall
sigaction_call env signum act mem =
    if act == 0
    then some (linux_signum signum, none)
    else if is_refused env signum
    then none
    else some (linux_signum signum, installed env (linux_signum signum) (linux_action mem act))

pub record SigactionEnd : Type 0 where
  pub result : ℕ
  pub mem : Memory
  pub saved : SavedHandlers

unfoldable pub shim_sigaction :
    SignalEnv → RealSigaction → ℕ → ℕ → ℕ → Memory → SavedHandlers → SigactionEnd
shim_sigaction env real signum act oldact mem saved = elim (sigaction_call env signum act mem) [
  | none ↦ record { result = 0; mem = mem; saved = saved }
  | some call ↦ record {
    result = (real call).0;
    mem =
        if not (oldact == 0) && (real call).0 == 0
        then store_old_action mem oldact (real call).1
        else mem;
    saved = if act == 0 then saved else save_handler env call.0 (load 8 mem act) saved;
  }
]

-- `signal` installs the crash handler for the numbers 11, 7 and 6 as they are; SIG_DFL is 0, SIG_IGN is 1,
-- SIGCHLD is 17, SA_RESTART is 0x10000000.
unfoldable pub signal_crash_action : SignalEnv → Action
signal_crash_action env = with_restorer env (record {
  handler = env.crash_handler;
  flags = bit_or (bit_or sa_siginfo sa_onstack) sa_nodefer;
  restorer = 0;
  mask = 0;
})

unfoldable pub defers_sigchld : ℕ → ℕ → Bool
defers_sigchld signum handler = signum == 17 && not (handler == 0) && not (handler == 1)

unfoldable pub signal_action : SignalEnv → ℕ → ℕ → Action
signal_action env signum handler = with_restorer env (
    if defers_sigchld signum handler
    then record {
      handler = env.sigchld_wrapper;
      flags = bit_or sa_siginfo 0x10000000;
      restorer = 0;
      mask = 0;
    }
    else record { handler = handler; flags = 0; restorer = 0; mask = 0 })

-- The call of `macify_signal`, whose result is always SIG_DFL; the handler that the wrapper for SIGCHLD calls
-- is left out.
unfoldable pub signal_call : SignalEnv → ℕ → ℕ → Option (ℕ × Action)
signal_call env signum handler =
    if signum == sigalrm
    then none
    else if signum == sigsegv || signum == sigbus || signum == sigabrt
    then some (signum, signal_crash_action env)
    else if signum == sigill
    then none
    else some (linux_signum signum, signal_action env (linux_signum signum) handler)
