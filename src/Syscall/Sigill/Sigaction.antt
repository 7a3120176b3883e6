-- ===== src/Syscall/Sigill/Sigaction.antt =====
-- The ARG_SIGACTION branch of `sigill_handler`, src/syscall/sigill_handler.c.
use mac_ify.Abi.Linux.{sa_onstack, sa_siginfo, sa_nodefer}
use mac_ify.Prelude.{ℕ, ◌+◌, ◌*◌, Bool, ◌&&◌, ◌||◌, not, Memory, load, store, bit_or, ltb, ◌==◌}
use mac_ify.Prelude.{if◌then◌else◌, ℤ, pos, negsuc, int_of, long_of}
use mac_ify.Syscall.Flags.{translate_kill_signal}
use mac_ify.Syscall.Machine.{Machine, Env}
use mac_ify.Syscall.Sigill.Result.{skip, Call, Prepared, stop, go, set_args}
use mac_ify.Syscall.Sigset.{macos_to_linux_mask, translate_sa_flags}

-- SIGILL, SIGSEGV and SIGBUS, by their macOS numbers, are kept, but SIGSEGV and SIGBUS of a Go binary
-- are not.
unfoldable pub keeps_handler : Env → ℕ → Bool
keeps_handler env a1 = a1 == 4 || ((a1 == 11 || a1 == 10) && env.tls_g_addr == 0)

-- Success without a system call; the carry flag stays as it is.
unfoldable pub sigaction_skipped : Machine → Machine
unfolding skip
sigaction_skipped m = record m { regs = skip (record (m.regs) { rax = 0 }) }

-- The signal after the branch for SIGSEGV and SIGBUS of a Go binary, which translates it once.
unfoldable pub go_signal : Env → ℕ → ℕ
go_signal env a1 =
    if (a1 == 11 || a1 == 10) && not (env.tls_g_addr == 0)
    then long_of (translate_kill_signal (int_of a1))
    else a1

-- Both symbols of the shim were found in a Go binary.
unfoldable pub wraps_go : Env → Bool
wraps_go env =
    not (env.tls_g_addr == 0)
    && (not (env.go_signal_wrapper == 0) && not (env.saved_go_handlers == 0))

-- `macify_saved_go_handlers_ptr[linux_sig] = go_handler`, for a signal in range.
unfoldable pub save_go_handler : Env → ℤ → ℕ → Memory → Memory
save_go_handler env (negsuc n) handler mem = mem
save_go_handler env (pos n) handler mem =
    if ltb 0 n && ltb n 32 then store 8 mem (env.saved_go_handlers + 8 * n) handler else mem

-- `linux_sa`: handler at 0, flags at 8, restorer at 16, mask at 24.
unfoldable pub write_linux_sa : Env → ℕ → ℕ → ℕ → Memory → Memory
write_linux_sa env handler flags mask mem =
    let m1 = store 152 mem env.linux_sa 0 in
    let m2 = store 8 m1 env.linux_sa handler in
    let m3 = store 8 m2 (env.linux_sa + 8) flags in store 128 m3 (env.linux_sa + 24) mask

-- The branch `if (a2)`: the caller's struct has the handler at 0, the mask at 8, the flags at 12.
unfoldable pub install_sigaction : Env → Call → Call
unfolding wraps_go save_go_handler write_linux_sa
install_sigaction env c =
    let a = c.args in
    let linux_flags = translate_sa_flags (load 4 c.mem (a.a2 + 12)) in
    let go_handler = load 8 c.mem a.a2 in
    let mask = macos_to_linux_mask (load 4 c.mem (a.a2 + 8)) in
    let signal = translate_kill_signal (int_of a.a1) in
    let wrapped = wraps_go env in
    let saved = if wrapped then save_go_handler env signal go_handler c.mem else c.mem in
    let handler = if wrapped then env.go_signal_wrapper else go_handler in
    let flags =
      if wrapped
      then bit_or (bit_or sa_siginfo sa_onstack) sa_nodefer
      else bit_or linux_flags sa_onstack in
    record c {
      args = record a { a1 = long_of signal; a2 = env.linux_sa };
      mem = write_linux_sa env handler flags mask saved;
    }

-- `if (a3) a3 = (long)linux_old_sa_buffer();`, with the caller's pointer kept.
unfoldable pub redirect_oldact : Env → Call → Call
redirect_oldact env c = record c {
  args = record (c.args) { a3 = if c.args.a3 == 0 then 0 else env.linux_old_sa };
  save_oldact = c.args.a3;
}

-- ARG_SIGACTION
unfoldable pub translate_sigaction : Env → Machine → Call → Prepared
unfolding set_args
translate_sigaction env m c =
    let a1 = c.args.a1 in
    let c' = set_args c (record (c.args) { a1 = go_signal env a1 }) in
    let installed = if c'.args.a2 == 0 then c' else install_sigaction env c' in
    if keeps_handler env a1 then stop (sigaction_skipped m) else go (redirect_oldact env installed)
