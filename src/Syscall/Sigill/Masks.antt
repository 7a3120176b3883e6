-- ===== src/Syscall/Sigill/Masks.antt =====
-- The ARG_SIGPROCMASK and ARG_SIGALTSTACK branches of `sigill_handler`, src/syscall/sigill_handler.c,
-- and what its last part copies back to the caller.
use mac_ify.Prelude.{ℕ, ◌+◌, ◌-◌, ◌*◌, ◌^◌, ◌&&◌, ◌||◌, not, Memory, load, store, bit_and, has}
use mac_ify.Prelude.{◌==◌, if◌then◌else◌}
use mac_ify.Syscall.Machine.{Env}
use mac_ify.Syscall.Sigill.Result.{Call}
use mac_ify.Syscall.Sigset.{macos_to_linux_mask, sigprocmask_mask_back, sigaction_mask_back}
use mac_ify.Syscall.Sigset.{sa_flags_back, keep_crash_signals}
use mac_ify.Syscall.Table.{arg_sigprocmask, arg_sigaltstack}

-- The set that is blocked, unblocked or installed: SIG_BLOCK and SIG_SETMASK are the macOS numbers.
unfoldable pub sigprocmask_set : ℕ → ℕ → ℕ
sigprocmask_set how macos_mask =
    let linux_mask = macos_to_linux_mask macos_mask in
    if how == 1 || how == 3 then keep_crash_signals linux_mask else linux_mask

-- ARG_SIGPROCMASK
unfoldable pub translate_sigprocmask : Env → Call → Call
translate_sigprocmask env c =
    let a = c.args in
    let set = sigprocmask_set a.a1 (load 4 c.mem a.a2) in
    record c {
      mem = if a.a2 == 0 then c.mem else store 8 c.mem env.linux_set_sigprocmask set;
      args = record a {
        a2 = if a.a2 == 0 then 0 else env.linux_set_sigprocmask;
        a3 = if a.a3 == 0 then 0 else env.linux_oset_sigprocmask;
        a4 = 8;
      };
      save_oset = a.a3;
    }

-- `fallback_sigstack`
abbrev pub fallback_size : ℕ
fallback_size = 1024 * 1024

-- `linux_ss_sigaltstack`: pointer at 0, flags at 8, size at 16. SS_DISABLE becomes the fallback
-- stack, and SS_ONSTACK is dropped.
unfoldable pub write_sigaltstack : Env → ℕ → Memory → Memory
write_sigaltstack env macos_ss mem =
    let flags = load 4 mem (macos_ss + 16) in
    let disabled = has flags 0x1 in
    let sp = if disabled then env.fallback_sigstack else load 8 mem macos_ss in
    let size = if disabled then fallback_size else load 8 mem (macos_ss + 8) in
    let flags' = bit_and (if disabled then 0 else flags) (2 ^ 32 - 1 - 0x2) in
    let m1 = store 24 mem env.linux_ss_sigaltstack 0 in
    let m2 = store 8 m1 env.linux_ss_sigaltstack sp in
    let m3 = store 4 m2 (env.linux_ss_sigaltstack + 8) flags' in
    store 8 m3 (env.linux_ss_sigaltstack + 16) size

-- ARG_SIGALTSTACK
unfoldable pub translate_sigaltstack : Env → Call → Call
unfolding write_sigaltstack
translate_sigaltstack env c =
    let a = c.args in
    record c {
      mem = if a.a1 == 0 then c.mem else write_sigaltstack env a.a1 c.mem;
      args = record a {
        a1 = if a.a1 == 0 then 0 else env.linux_ss_sigaltstack;
        a2 = if a.a2 == 0 then 0 else env.linux_oss_sigaltstack;
      };
      save_oss = a.a2;
    }

-- The old action, set and stack go back to the caller in macOS layout.
unfoldable pub copy_oldact : Env → ℕ → Memory → Memory
copy_oldact env old mem =
    let handler = load 8 mem env.linux_old_sa in
    let flags = load 8 mem (env.linux_old_sa + 8) in
    let mask = load 128 mem (env.linux_old_sa + 24) in
    let m1 = store 8 mem old handler in
    let m2 = store 4 m1 (old + 8) (sigaction_mask_back mask) in
    store 4 m2 (old + 12) (sa_flags_back flags)

unfoldable pub copy_oset : Env → ℕ → Memory → Memory
copy_oset env old mem =
    store 4 mem old (sigprocmask_mask_back (load 8 mem env.linux_oset_sigprocmask))

unfoldable pub copy_oss : Env → ℕ → Memory → Memory
copy_oss env old mem =
    let sp = load 8 mem env.linux_oss_sigaltstack in
    let flags = load 4 mem (env.linux_oss_sigaltstack + 8) in
    let size = load 8 mem (env.linux_oss_sigaltstack + 16) in
    let m1 = store 8 mem old sp in let m2 = store 8 m1 (old + 8) size in store 4 m2 (old + 16) flags

unfoldable pub copy_back : Env → ℕ → Call → Memory → Memory
unfolding copy_oldact copy_oset copy_oss
copy_back env flags c mem =
    let m1 = if c.save_oldact == 0 then mem else copy_oldact env c.save_oldact mem in
    let m2 =
      if has flags arg_sigprocmask && not (c.save_oset == 0)
      then copy_oset env c.save_oset m1
      else m1 in
    if has flags arg_sigaltstack && not (c.save_oss == 0) then copy_oss env c.save_oss m2 else m2
