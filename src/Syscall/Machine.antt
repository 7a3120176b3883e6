-- ===== src/Syscall/Machine.antt =====
-- What src/syscall/sigill_handler.c sees of the process: the registers of the interrupted thread,
-- memory and `errno`; what it takes from outside: the kernel, and the addresses of its buffers.
use mac_ify.Prelude.{ℕ, List, Bool, Memory}

-- The `greg_t` values that the handler reads or writes, as patterns of 64 bits.
pub record Regs : Type 0 where
  pub rax : ℕ
  pub rdi : ℕ
  pub rsi : ℕ
  pub rdx : ℕ
  pub r10 : ℕ
  pub r8 : ℕ
  pub r9 : ℕ
  pub rip : ℕ
  pub efl : ℕ

pub record Machine : Type 0 where
  pub regs : Regs
  pub mem : Memory
  pub errno : ℕ
  pub slow_path_calls : ℕ

-- The six arguments of a system call.
pub record Args : Type 0 where
  pub a1 : ℕ
  pub a2 : ℕ
  pub a3 : ℕ
  pub a4 : ℕ
  pub a5 : ℕ
  pub a6 : ℕ

-- `raw_syscall`: the number and arguments give the result, as a pattern of 64 bits, and the memory
-- that the kernel leaves.
abbrev pub Kernel : Type 0
Kernel = ℕ → Args → Memory → ℕ × Memory

-- Globals of the loader and addresses of static objects.
pub record Env : Type 0 where
  -- MACIFY_LENIENT_SYSCALLS is set
  pub lenient : Bool
  -- `g_tls_g_addr`, 0 unless the program is a Go binary
  pub tls_g_addr : ℕ
  -- the symbols that `sigill_handler_pre_resolve` found in the shim, 0 if absent
  pub go_signal_wrapper : ℕ
  pub saved_go_handlers : ℕ
  -- static and stack buffers
  pub linux_sa : ℕ
  pub linux_old_sa : ℕ
  pub linux_set_sigprocmask : ℕ
  pub linux_oset_sigprocmask : ℕ
  pub linux_ss_sigaltstack : ℕ
  pub linux_oss_sigaltstack : ℕ
  pub fallback_sigstack : ℕ
  pub kpath : ℕ
  -- what `snprintf` writes for "/proc/self/fd/%ld", its terminating 0 included
  pub proc_fd_path : ℕ → List ℕ

-- The process ends, or the thread goes on.
pub data Outcome : Type 0 where
  exited : ℕ → Outcome
  exit_group : ℕ → Outcome
  resumed : Machine → Outcome
