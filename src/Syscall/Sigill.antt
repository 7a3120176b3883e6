-- ===== src/Syscall/Sigill.antt =====
-- `sigill_handler` of src/syscall/sigill_handler.c, which carries out a BSD system call whose
-- `syscall` instruction was patched to UD2. Messages and statistics are not modelled.
pub mod Result
pub mod Fcntl
pub mod Sigaction
pub mod Masks
use mac_ify.Prelude.{ℕ, ◌+◌, ◌%◌, ◌^◌, bit_and, has, leb, ◌==◌, if◌then◌else◌}
use mac_ify.Syscall.Machine.{Machine, Kernel, Env, Outcome, exit_group, resumed}
use mac_ify.Syscall.Sigill.Fcntl.{translate_words, translate_fcntl, translate_advice}
use mac_ify.Syscall.Sigill.Masks.{translate_sigprocmask, translate_sigaltstack, copy_back}
use mac_ify.Syscall.Sigill.Result.{finish_slow_result, unimplemented, Call, Prepared, stop, go}
use mac_ify.Syscall.Sigill.Result.{◌>>=◌, set_args}
use mac_ify.Syscall.Sigill.Sigaction.{translate_sigaction}
use mac_ify.Syscall.Table.{bsd_syscall_max, bsd_to_linux, bsd_arg_flags, arg_fcntl_cmd}
use mac_ify.Syscall.Table.{arg_madvise, arg_sigaction, arg_sigprocmask, arg_sigaltstack}

-- The translation of the arguments, in the order of the source.
unfoldable pub prepare : Env → Kernel → Machine → ℕ → Call → Prepared
unfolding set_args
prepare env kernel m flags c = do
  c1 ← go (set_args c (translate_words flags c.args))
  c2 ← if has flags arg_fcntl_cmd then translate_fcntl env kernel m c1 else go c1
  c3 ← go (if has flags arg_madvise then translate_advice c2 else c2)
  c4 ← if has flags arg_sigaction then translate_sigaction env m c3 else go c3
  c5 ← go (if has flags arg_sigprocmask then translate_sigprocmask env c4 else c4)
  go (if has flags arg_sigaltstack then translate_sigaltstack env c5 else c5)

-- The system call, its error as `errno` and -1, what is copied back on the result 0, and the
-- registers.
unfoldable pub run_call : Env → Kernel → Machine → ℕ → ℕ → Call → Machine
run_call env kernel m linux_nr flags c =
    let (result, mem) = kernel linux_nr c.args c.mem in
    let mem' = if result == 0 then copy_back env flags c mem else mem in
    finish_slow_result (record m { mem = mem' }) result

unfoldable pub finish : Env → Kernel → Machine → ℕ → ℕ → Prepared → Outcome
unfolding run_call
finish env kernel m linux_nr flags (stop m') = resumed m'
finish env kernel m linux_nr flags (go c) = resumed (run_call env kernel m linux_nr flags c)

-- The arguments as the registers have them.
unfoldable pub call_of : Machine → Call
call_of m = record {
  args = record {
    a1 = m.regs.rdi;
    a2 = m.regs.rsi;
    a3 = m.regs.rdx;
    a4 = m.regs.r10;
    a5 = m.regs.r8;
    a6 = m.regs.r9;
  };
  mem = m.mem;
  save_oldact = 0;
  save_oset = 0;
  save_oss = 0;
}

unfoldable pub sigill_handler : Env → Kernel → Machine → Outcome
unfolding call_of
sigill_handler env kernel m0 =
    let m = record m0 { slow_path_calls = (m0.slow_path_calls + 1) % 2 ^ 64 } in
    let bsd_nr = bit_and m.regs.rax 0xFFFFFF in
    let linux_nr = bsd_to_linux bsd_nr in
    let flags = bsd_arg_flags bsd_nr in
    if leb bsd_syscall_max bsd_nr
    then unimplemented env m
    else if linux_nr == 0
    then unimplemented env m
    else if bsd_nr == 1
    then exit_group m.regs.rdi
    else finish env kernel m linux_nr flags (prepare env kernel m flags (call_of m))
