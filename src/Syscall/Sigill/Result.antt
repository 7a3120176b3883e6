-- ===== src/Syscall/Sigill/Result.antt =====
-- How src/syscall/sigill_handler.c ends a call (`finish_slow_result`, the unimplemented case), and the
-- call that it prepares. Messages are not modelled.
use mac_ify.Abi.Linux.{enosys}
use mac_ify.Prelude.{ℕ, ◌+◌, ◌-◌, ◌%◌, ◌^◌, Bool, Memory, bit_and, bit_or, ltb, if◌then◌else◌}
use mac_ify.Syscall.Machine.{Regs, Machine, Args, Env, Outcome, exited, resumed}

-- `result < 0 && result > -4096`
unfoldable pub is_error : ℕ → Bool
is_error result = ltb (2 ^ 64 - 4096) result

-- `regs[REG_RIP] += 2`, past the UD2.
unfoldable pub skip : Regs → Regs
skip r = record r { rip = (r.rip + 2) % 2 ^ 64 }

-- The result goes to RAX, with the carry flag set on an error.
unfoldable pub set_result : Regs → Bool → ℕ → Regs
set_result r err result = record r {
  rax = result;
  efl = if err then bit_or r.efl 1 else bit_and r.efl (2 ^ 64 - 2);
}

unfoldable pub finish_slow_result : Machine → ℕ → Machine
unfolding is_error skip set_result
finish_slow_result m result =
    let err = is_error result in
    record m {
      errno = if err then 2 ^ 64 - result else m.errno;
      regs = skip (set_result m.regs err (if err then 2 ^ 64 - 1 else result));
    }

-- `finish_slow_result(uc, -ENOSYS)` or `_exit(127)`.
unfoldable pub unimplemented : Env → Machine → Outcome
unimplemented env m =
    if env.lenient then resumed (finish_slow_result m (2 ^ 64 - enosys)) else exited 127

-- The system call that is being prepared: its arguments, memory, and the pointers of the caller that
-- the results are copied back through (0 for none).
pub record Call : Type 0 where
  pub args : Args
  pub mem : Memory
  pub save_oldact : ℕ
  pub save_oset : ℕ
  pub save_oss : ℕ

-- The handler returns before the kernel is called, or goes on.
pub data Prepared : Type 0 where
  stop : Machine → Prepared
  go : Call → Prepared

infixl 5 ◌>>=◌
abbrev pub ◌>>=◌ : Prepared → (Call → Prepared) → Prepared
stop m >>= k = stop m
go c >>= k = k c

unfoldable pub set_args : Call → Args → Call
set_args c a = record c { args = a }
