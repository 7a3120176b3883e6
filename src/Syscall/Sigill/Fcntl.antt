-- ===== src/Syscall/Sigill/Fcntl.antt =====
-- The ARG_FCNTL_CMD and ARG_MADVISE branches of `sigill_handler`, src/syscall/sigill_handler.c, and
-- those that rewrite one flag word or signal.
use mac_ify.Abi.Linux.{einval}
use mac_ify.Abi.Sys.{sys_readlinkat, sys_fsync}
use mac_ify.Prelude.{ℕ, ◌+◌, ◌-◌, ◌%◌, ◌^◌, Bool, ◌&&◌, ◌||◌, not, List, [], ◌∷◌, Memory, poke}
use mac_ify.Prelude.{has, ltb, ◌==◌, if◌then◌else◌, ℤ, pos, negsuc, int_of, long_of}
use mac_ify.Syscall.Flags.{translate_open_flags, translate_mmap_flags, translate_kill_signal}
use mac_ify.Syscall.Flags.{translate_fcntl_cmd, translate_madvise}
use mac_ify.Syscall.Machine.{Machine, Args, Kernel, Env}
use mac_ify.Syscall.Sigill.Result.{finish_slow_result, skip, Call, Prepared, stop, go, set_args}
use mac_ify.Syscall.Table.{arg_open_flags, arg_mmap_flags, arg_kill_signal}

-- ARG_OPEN_FLAGS, ARG_MMAP_FLAGS and ARG_KILL_SIGNAL: one argument is rewritten. The translated
-- flags are below 2 ^ 31, so `(long)` leaves them as they are.
unfoldable pub translate_words : ℕ → Args → Args
translate_words flags a =
    let a2 = if has flags arg_open_flags then translate_open_flags (a.a2 % 2 ^ 32) else a.a2 in
    let a4 = if has flags arg_mmap_flags then translate_mmap_flags (a.a4 % 2 ^ 32) else a.a4 in
    record a {
      a2 = if has flags arg_kill_signal then long_of (translate_kill_signal (int_of a2)) else a2;
      a4 = a4;
    }

-- The bytes at `p`.
unfoldable pub write_bytes : Memory → ℕ → List ℕ → Memory
unfolding poke
write_bytes mem p [] = mem
write_bytes mem p (b ∷ bs) = write_bytes (poke mem p b) (p + 1) bs

-- AT_FDCWD, -100.
abbrev pub at_fdcwd : ℕ
at_fdcwd = 2 ^ 64 - 100

-- The path is read into the caller's buffer, and ended by a 0 if there is room.
unfoldable pub fcntl_getpath : Env → Kernel → Machine → Call → Machine
unfolding write_bytes
fcntl_getpath env kernel m c =
    let a = c.args in
    let mem = write_bytes c.mem env.kpath (env.proc_fd_path a.a1) in
    let call : Args = record {
      a1 = at_fdcwd;
      a2 = env.kpath;
      a3 = a.a3;
      a4 = a.a4;
      a5 = 0;
      a6 = 0;
    } in
    let (r, mem') = kernel sys_readlinkat call mem in
    let nonneg = ltb r (2 ^ 63) in
    let fits = nonneg && not (a.a3 == 0) && ltb a.a4 (2 ^ 63) && ltb r a.a4 in
    let mem'' = if fits then poke mem' (a.a3 + r) 0 else mem' in
    finish_slow_result (record m { mem = mem'' }) (if nonneg then 0 else r)

-- F_FULLFSYNC
unfoldable pub fcntl_fullfsync : Kernel → Machine → Call → Machine
fcntl_fullfsync kernel m c =
    let (r, mem') =
      kernel sys_fsync (record { a1 = c.args.a1; a2 = 0; a3 = 0; a4 = 0; a5 = 0; a6 = 0 }) c.mem in
    finish_slow_result (record m { mem = mem' }) r

-- RAX is -EINVAL; `errno` and the carry flag stay as they are.
unfoldable pub fcntl_unsupported : Machine → Machine
unfolding skip
fcntl_unsupported m = record m { regs = skip (record (m.regs) { rax = 2 ^ 64 - einval }) }

-- F_RDADVISE, F_RDAHEAD, F_NOCACHE, F_GLOBAL_NOCACHE, F_SETNOSIGPIPE, F_GETNOSIGPIPE.
unfoldable pub is_advice_cmd : ℕ → Bool
is_advice_cmd cmd = cmd == 44 || cmd == 45 || cmd == 48 || cmd == 55 || cmd == 73 || cmd == 74

unfoldable pub remap_fcntl : Machine → Call → ℤ → Prepared
remap_fcntl m c (negsuc n) = stop (fcntl_unsupported m)
remap_fcntl m c (pos n) = go (set_args c (record (c.args) { a2 = n }))

-- ARG_FCNTL_CMD. The commands of the `switch` are positive, so they are compared as patterns.
unfoldable pub translate_fcntl : Env → Kernel → Machine → Call → Prepared
unfolding is_advice_cmd remap_fcntl
translate_fcntl env kernel m c =
    let cmd = c.args.a2 % 2 ^ 32 in
    if cmd == 50
    then stop (fcntl_getpath env kernel m c)
    else if cmd == 51
    then stop (fcntl_fullfsync kernel m c)
    else if is_advice_cmd cmd
    then stop (finish_slow_result m 0)
    else remap_fcntl m c (translate_fcntl_cmd (int_of c.args.a2))

-- ARG_MADVISE
unfoldable pub translate_advice : Call → Call
unfolding set_args
translate_advice c =
    set_args c (record (c.args) { a3 = long_of (translate_madvise (int_of c.args.a3)) })
