-- ===== src/Syscall/SlowPath/Gaps.antt =====
-- Where the handler of src/syscall/sigill_handler.c does not do what macOS does.
use mac_ify.Abi.Linux.{einval, sig_unblock}
use mac_ify.Prelude.{ℕ, ◌-◌, ◌%◌, ◌^◌, ◌<◌, ◌≡◌, ◌≢◌, ◌⊎◌, inl, inr, refl, ◌∙◌, arith, bit_and}
use mac_ify.Prelude.{load, pos, negsuc, int_of, false}
use mac_ify.Prelude.{load-store, long_of, bit_and-le}
use mac_ify.Syscall.Sigset.{keep_crash_signals, macos_to_linux_mask}
use mac_ify.Syscall.Flags.{translate_kill_signal, translate_fcntl_cmd, kill_number}
use mac_ify.Syscall.Machine.{Machine, Kernel, Env}
use mac_ify.Syscall.Sigill.{sigill_handler}
use mac_ify.Syscall.Sigill.Fcntl.{translate_fcntl, is_advice_cmd, remap_fcntl, fcntl_unsupported}
use mac_ify.Syscall.Sigill.Masks.{translate_sigprocmask, sigprocmask_set}
use mac_ify.Syscall.Sigill.Result.{unimplemented, Call, stop, go, set_args}
use mac_ify.Syscall.Sigill.Sigaction.{translate_sigaction, keeps_handler, go_signal}
use mac_ify.Syscall.Sigill.Sigaction.{install_sigaction, redirect_oldact}
use mac_ify.Syscall.SlowPath.Result.{counted}
use mac_ify.Syscall.Table.{bsd_to_linux}

-- read (3) and read_nocancel (396), whose Linux number is 0, are taken for calls that are not
-- implemented: the process exits with 127, or the call fails with ENOSYS, and the kernel is not
-- called.
pub read_is_unimplemented :
    (env : Env) (k : Kernel) (m : Machine) (nr : ℕ)
    → bit_and m.regs.rax 0xFFFFFF ≡ nr
    → (nr ≡ 3) ⊎ (nr ≡ 396)
    → sigill_handler env k m ≡ unimplemented env (counted m)
unfolding sigill_handler bsd_to_linux
read_is_unimplemented env k m nr e (inl h) = rw (e ∙ h)
read_is_unimplemented env k m nr e (inr h) = rw (e ∙ h)

-- An fcntl command below 2 ^ 31 that is neither carried out nor ignored by the handler, and has no
-- Linux equivalent, leaves -EINVAL in RAX, and `errno` and the flags as they were.
pub fcntl_unsupported_result :
    (env : Env) (k : Kernel) (m : Machine) (c : Call)
    → c.args.a2 < 2 ^ 31
    → c.args.a2 ≢ 50
    → c.args.a2 ≢ 51
    → is_advice_cmd c.args.a2 ≡ false
    → translate_fcntl_cmd (pos c.args.a2) ≡ negsuc 0
    → (m' : Machine) × (translate_fcntl env k m c ≡ stop m')
      × (m'.regs.rax ≡ 2 ^ 64 - einval)
      × (m'.regs.efl ≡ m.regs.efl)
      × (m'.errno ≡ m.errno)
unfolding translate_fcntl fcntl_unsupported
fcntl_unsupported_result env k m c small not_path not_sync not_advice none_such =
    (fcntl_unsupported m, steps, refl, refl, refl)
  where
    low : c.args.a2 % 2 ^ 32 ≡ c.args.a2
    low = omega arith

    int : int_of c.args.a2 ≡ pos c.args.a2
    int = unfold int_of in ground (arith, low)

    steps : translate_fcntl env k m c ≡ stop (fcntl_unsupported m)
    steps = rw (low, int, none_such, not_advice) (unfold remap_fcntl in ground arith)

-- A SIGBUS action that a Go binary gives is handed to the kernel for the Linux signal 10, SIGUSR1,
-- while SIGBUS is translated to 7.
pub go_sigbus_installed_as_sigusr1 :
    (env : Env) (m : Machine) (c : Call)
    → env.tls_g_addr ≢ 0
    → c.args.a1 ≡ 10
    → c.args.a2 ≢ 0
    → (c' : Call) × (translate_sigaction env m c ≡ go c')
      × (c'.args.a1 ≡ 10)
      × (translate_kill_signal (pos 10) ≡ pos 7)
unfolding translate_sigaction keeps_handler
go_sigbus_installed_as_sigusr1 env m c go_binary sig act = (
  redirect_oldact env (install_sigaction env (set_args c (record (c.args) { a1 = 7 }))),
  ground (arith, once),
  unfold redirect_oldact install_sigaction translate_kill_signal kill_number int_of long_of
        set_args in
      refl,
  unfold translate_kill_signal kill_number in refl,
)
  where
    once : go_signal env c.args.a1 ≡ 7
    once =
        rw sig (unfold go_signal translate_kill_signal kill_number int_of long_of in ground arith)

-- A raw sigprocmask call with the macOS SIG_BLOCK, 1, and a set hands the translated set, less the
-- crash signals, to the kernel, and `how` as it is, which is SIG_UNBLOCK on Linux.
pub sigprocmask_how_untranslated :
    (env : Env) (c : Call)
    → c.args.a1 ≡ 1
    → c.args.a2 ≢ 0
    → let c' = translate_sigprocmask env c in
      (c'.args.a1 ≡ sig_unblock)
      × (c'.args.a2 ≡ env.linux_set_sigprocmask)
      × (load 8 c'.mem c'.args.a2
          ≡ keep_crash_signals (macos_to_linux_mask (load 4 c.mem c.args.a2)))
unfolding translate_sigprocmask
sigprocmask_how_untranslated env c how set = ground (
  arith,
  chosen,
  bound,
  load-store 8 c.mem env.linux_set_sigprocmask (sigprocmask_set c.args.a1 given),
)
  where
    given : ℕ
    given = load 4 c.mem c.args.a2

    chosen : sigprocmask_set c.args.a1 given ≡ keep_crash_signals (macos_to_linux_mask given)
    chosen = unfold sigprocmask_set in ground (arith, how)

    bound : keep_crash_signals (macos_to_linux_mask given) < 256 ^ 8
    bound = unfold keep_crash_signals in omega (arith, bit_and-le _ (2 ^ 64 - 1 - 2 ^ 5))
