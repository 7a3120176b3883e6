-- ===== src/Syscall/SlowPath/Result.antt =====
-- The result that the handler of src/syscall/sigill_handler.c gives back, and the plain calls.
use mac_ify.Prelude.{ℕ, ◌+◌, ◌-◌, ◌%◌, ◌^◌, ◌<◌, ◌≤◌, ◌≡◌, ◌≢◌, ◌↔◌, refl, ◌∙◌, true, false}
use mac_ify.Prelude.{arith, has, bit_and, bit_or, Memory}
use mac_ify.Prelude.{bit_and-bit_or, bit_and_assoc, bit_and-zero, bit_or_step}
use mac_ify.Syscall.Machine.{Machine, Kernel, Env, Args, resumed}
use mac_ify.Syscall.Sigill.{prepare, finish, sigill_handler, call_of}
use mac_ify.Syscall.Sigill.Masks.{copy_back}
use mac_ify.Syscall.Sigill.Fcntl.{translate_words}
use mac_ify.Syscall.Sigill.Result.{finish_slow_result}
use mac_ify.Syscall.Table.{bsd_to_linux, bsd_arg_flags}

carry_set : (efl : ℕ) → has (bit_or efl 1) 1 ≡ true
unfolding has
carry_set efl = ground (arith, bit_and-bit_or efl 1 1, bit_or_step (bit_and efl 1) 1)

carry_clear : (efl : ℕ) → has (bit_and efl (2 ^ 64 - 2)) 1 ≡ false
unfolding has
carry_clear efl = ground (arith, bit_and_assoc efl (2 ^ 64 - 2) 1, bit_and-zero efl)

-- How macOS gives a result of the kernel back: those from -4095 to -1 are errors.
pub record Convention (m : Machine) (result : ℕ) (m' : Machine) : Type 0 where
  pub carry : (has m'.regs.efl 1 ≡ true) ↔ (2 ^ 64 - 4095 ≤ result)
  pub failed : 2 ^ 64 - 4095 ≤ result → (m'.regs.rax ≡ 2 ^ 64 - 1) × (result + m'.errno ≡ 2 ^ 64)
  pub passed : result < 2 ^ 64 - 4095 → (m'.regs.rax ≡ result) × (m'.errno ≡ m.errno)
  pub skipped : m'.regs.rip ≡ (m.regs.rip + 2) % 2 ^ 64
  pub mem_kept : m'.mem ≡ m.mem
  pub calls_kept : m'.slow_path_calls ≡ m.slow_path_calls
  pub arguments_kept :
      (m'.regs.rdi ≡ m.regs.rdi)
      × (m'.regs.rsi ≡ m.regs.rsi)
      × (m'.regs.rdx ≡ m.regs.rdx)
      × (m'.regs.r10 ≡ m.regs.r10)
      × (m'.regs.r8 ≡ m.regs.r8)
      × (m'.regs.r9 ≡ m.regs.r9)

-- Every result of 64 bits is given back by the convention: from -4095 to -1 it is an error, and exactly
-- then the carry flag is set; then RAX is -1 and `errno` is the negation of the result; otherwise RAX is the
-- result and `errno` is what it was. The thread goes on past the UD2, and memory, the count of calls and
-- the registers of the arguments stay.
pub finish_slow_result-Convention :
    (m : Machine) (result : ℕ) → result < 2 ^ 64 → Convention m result (finish_slow_result m result)
unfolding finish_slow_result
finish_slow_result-Convention m result h = record {
  carry = ground (arith, carry_set m.regs.efl, carry_clear m.regs.efl);
  failed = ground (arith, carry_set m.regs.efl, carry_clear m.regs.efl);
  passed = ground (arith, carry_set m.regs.efl, carry_clear m.regs.efl);
  skipped = ground arith;
  mem_kept = refl;
  calls_kept = refl;
  arguments_kept = (refl, refl, refl, refl, refl, refl);
}

abbrev pub counted : Machine → Machine
counted m = record m { slow_path_calls = (m.slow_path_calls + 1) % 2 ^ 64 }

-- A call that is mapped, and is not `exit`, is prepared and made.
pub sigill_handler-dispatch :
    (env : Env) (k : Kernel) (m : Machine) (nr : ℕ)
    → bit_and m.regs.rax 0xFFFFFF ≡ nr
    → nr < 600
    → nr ≢ 1
    → bsd_to_linux nr ≢ 0
    → sigill_handler env k m
      ≡ finish env k
          (counted m)
          (bsd_to_linux nr)
          (bsd_arg_flags nr)
          (prepare env k (counted m) (bsd_arg_flags nr) (call_of (counted m)))
unfolding sigill_handler
sigill_handler-dispatch env k m nr e small not_exit mapped = rw e (ground arith)

finish-plain :
    (env : Env) (k : Kernel) (m : Machine) (nr : ℕ)
    → finish env k m nr 0 (prepare env k m 0 (call_of m))
      ≡ resumed (
          finish_slow_result
            (record m { mem = (k nr (call_of m).args m.mem).1 })
            (k nr (call_of m).args m.mem).0)
unfolding finish prepare call_of copy_back has translate_words
finish-plain env k m nr = ground arith

pub sigill_handler-result :
    (env : Env) (k : Kernel) (m : Machine) (nr : ℕ)
    → bit_and m.regs.rax 0xFFFFFF ≡ nr
    → nr < 600
    → nr ≢ 1
    → bsd_to_linux nr ≢ 0
    → bsd_arg_flags nr ≡ 0
    → let (result, mem) = k (bsd_to_linux nr) (call_of m).args m.mem in
      sigill_handler env k m
      ≡ resumed (finish_slow_result (record (counted m) { mem = mem }) result)
unfolding call_of
sigill_handler-result env k m nr e small not_exit mapped plain =
    sigill_handler-dispatch env k m nr e small not_exit mapped
    ∙ rw plain (finish-plain env k (counted m) (bsd_to_linux nr))

-- A call whose number is below 600 and not that of exit, whose Linux number is not 0 and whose
-- arguments need no translation reaches the kernel with its Linux number, the registers RDI, RSI, RDX,
-- R10, R8 and R9 as the first to the sixth argument and memory as it is; the thread goes on with the
-- memory that the kernel left and with its result, of 64 bits, given back by the convention of macOS.
pub sigill_handler-plain :
    (env : Env) (k : Kernel) (m : Machine) (nr : ℕ)
    → ((linux_nr : ℕ) (args : Args) (mem : Memory) → (k linux_nr args mem).0 < 2 ^ 64)
    → bit_and m.regs.rax 0xFFFFFF ≡ nr
    → nr < 600
    → nr ≢ 1
    → bsd_to_linux nr ≢ 0
    → bsd_arg_flags nr ≡ 0
    → let args : Args = record {
      a1 = m.regs.rdi;
      a2 = m.regs.rsi;
      a3 = m.regs.rdx;
      a4 = m.regs.r10;
      a5 = m.regs.r8;
      a6 = m.regs.r9;
    } in
      let (result, mem) = k (bsd_to_linux nr) args m.mem in
      (m' : Machine) × (sigill_handler env k m ≡ resumed m')
      × Convention (record (counted m) { mem = mem }) result m'
unfolding call_of
sigill_handler-plain env k m nr word e small not_exit mapped plain =
    let (result, mem) = k (bsd_to_linux nr) (call_of m).args m.mem in
    (
      finish_slow_result (record (counted m) { mem = mem }) result,
      sigill_handler-result env k m nr e small not_exit mapped plain,
      finish_slow_result-Convention (record (counted m) { mem = mem }) result
          (word (bsd_to_linux nr) (call_of m).args m.mem),
    )
