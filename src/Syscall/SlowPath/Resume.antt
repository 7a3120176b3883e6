-- ===== src/Syscall/SlowPath/Resume.antt =====
-- Where the thread goes on after the handler of src/syscall/sigill_handler.c.
use mac_ify.Prelude.{ℕ, ◌+◌, ◌%◌, ◌^◌, ◌≡◌, refl, Bool, ℤ, pos, negsuc, if_elim}
use mac_ify.Prelude.{if◌then◌else◌, arith, ◌==◌, leb, int_of, has, bit_and, ◌-◌}
use mac_ify.Abi.Linux.{enosys}
use mac_ify.Syscall.Flags.{translate_fcntl_cmd}
use mac_ify.Syscall.Table.{arg_fcntl_cmd, arg_sigaction, bsd_to_linux, bsd_arg_flags}
use mac_ify.Syscall.Table.{bsd_syscall_max}
use mac_ify.Syscall.Machine.{Machine, Kernel, Env, Outcome, resumed, exited, exit_group}
use mac_ify.Syscall.Sigill.{prepare, finish, sigill_handler, call_of}
use mac_ify.Syscall.Sigill.Fcntl.{is_advice_cmd, translate_fcntl, remap_fcntl, fcntl_getpath}
use mac_ify.Syscall.Sigill.Fcntl.{fcntl_fullfsync, fcntl_unsupported}
use mac_ify.Syscall.Sigill.Result.{finish_slow_result, unimplemented, Call, Prepared, stop, go}
use mac_ify.Syscall.Sigill.Result.{◌>>=◌}
use mac_ify.Syscall.Sigill.Sigaction.{keeps_handler, translate_sigaction, sigaction_skipped}

-- The thread goes on two bytes further, past the UD2.
abbrev Skips : Machine → Machine → Type 0
Skips m m' = m'.regs.rip ≡ (m.regs.rip + 2) % 2 ^ 64

data PreparedSkips (m : Machine) : Prepared → Type 0 where
  stops : (m' : Machine) → Skips m m' → PreparedSkips m (stop m')
  goes : (c : Call) → PreparedSkips m (go c)

>>=-PreparedSkips :
    (m : Machine) {p : Prepared} {k : Call → Prepared}
    → PreparedSkips m p
    → ((c : Call) → PreparedSkips m (k c))
    → PreparedSkips m (p >>= k)
>>=-PreparedSkips m (stops m' h) g = stops m' h
>>=-PreparedSkips m (goes c) g = g c

if-PreparedSkips :
    (m : Machine) (b : Bool) {p q : Prepared}
    → PreparedSkips m p
    → PreparedSkips m q
    → PreparedSkips m (if b then p else q)
if-PreparedSkips m b = if_elim (PreparedSkips m) b

remap_fcntl-PreparedSkips : (m : Machine) (c : Call) (i : ℤ) → PreparedSkips m (remap_fcntl m c i)
unfolding remap_fcntl fcntl_unsupported
remap_fcntl-PreparedSkips m c (negsuc n) = stops _ refl
remap_fcntl-PreparedSkips m c (pos n) = goes _

translate_fcntl-PreparedSkips :
    (env : Env) (k : Kernel) (m : Machine) (c : Call) → PreparedSkips m (translate_fcntl env k m c)
unfolding translate_fcntl fcntl_getpath fcntl_fullfsync finish_slow_result
translate_fcntl-PreparedSkips env k m c =
    let cmd = c.args.a2 % 2 ^ 32 in
    if-PreparedSkips m (cmd == 50) (stops (fcntl_getpath env k m c) refl) (
      if-PreparedSkips m (cmd == 51) (stops (fcntl_fullfsync k m c) refl) (
        if-PreparedSkips m (is_advice_cmd cmd) (stops (finish_slow_result m 0) refl)
          (remap_fcntl-PreparedSkips m c (translate_fcntl_cmd (int_of c.args.a2)))))

translate_sigaction-PreparedSkips :
    (env : Env) (m : Machine) (c : Call) → PreparedSkips m (translate_sigaction env m c)
unfolding translate_sigaction sigaction_skipped
translate_sigaction-PreparedSkips env m c =
    if-PreparedSkips m (keeps_handler env c.args.a1) (stops (sigaction_skipped m) refl) (goes _)

prepare-PreparedSkips :
    (env : Env) (k : Kernel) (m : Machine) (flags : ℕ) (c : Call)
    → PreparedSkips m (prepare env k m flags c)
unfolding prepare
prepare-PreparedSkips env k m flags c =
    >>=-PreparedSkips m
      (if-PreparedSkips m (has flags arg_fcntl_cmd) (translate_fcntl-PreparedSkips env k m _)
        (goes _))
      (λ c2.
        >>=-PreparedSkips m
          (if-PreparedSkips m (has flags arg_sigaction) (translate_sigaction-PreparedSkips env m _)
            (goes _))
          (λ c4. goes _))

data OutcomeSkips (m : Machine) : Outcome → Type 0 where
  resumes : (m' : Machine) → Skips m m' → OutcomeSkips m (resumed m')
  exits : (n : ℕ) → OutcomeSkips m (exited n)
  exits_group : (n : ℕ) → OutcomeSkips m (exit_group n)

if-OutcomeSkips :
    (m : Machine) (b : Bool) {p q : Outcome}
    → OutcomeSkips m p
    → OutcomeSkips m q
    → OutcomeSkips m (if b then p else q)
if-OutcomeSkips m b = if_elim (OutcomeSkips m) b

-- The handler counts its calls before it does anything else.
abbrev counted : Machine → Machine
counted m = record m { slow_path_calls = (m.slow_path_calls + 1) % 2 ^ 64 }

finish-OutcomeSkips :
    (env : Env) (k : Kernel) (m : Machine) (nr flags : ℕ) {p : Prepared}
    → PreparedSkips (counted m) p
    → OutcomeSkips m (finish env k (counted m) nr flags p)
unfolding finish finish_slow_result
finish-OutcomeSkips env k m nr flags (stops m' h) = resumes m' h
finish-OutcomeSkips env k m nr flags (goes c) = resumes _ refl

unimplemented-OutcomeSkips :
    (env : Env) (m : Machine) → OutcomeSkips m (unimplemented env (counted m))
unfolding unimplemented finish_slow_result
unimplemented-OutcomeSkips env m =
    if-OutcomeSkips m env.lenient (resumes (finish_slow_result (counted m) (2 ^ 64 - enosys)) refl)
      (exits 127)

handler-OutcomeSkips :
    (env : Env) (k : Kernel) (m : Machine) → OutcomeSkips m (sigill_handler env k m)
unfolding sigill_handler
handler-OutcomeSkips env k m =
    let nr = bit_and m.regs.rax 0xFFFFFF in
    if-OutcomeSkips m (leb bsd_syscall_max nr) (unimplemented-OutcomeSkips env m) (
      if-OutcomeSkips m (bsd_to_linux nr == 0) (unimplemented-OutcomeSkips env m) (
        if-OutcomeSkips m (nr == 1) (exits_group m.regs.rdi) (
          finish-OutcomeSkips env k m (bsd_to_linux nr) (bsd_arg_flags nr)
            (prepare-PreparedSkips env k (counted m) (bsd_arg_flags nr) (call_of (counted m))))))

resumed_of : (m m' : Machine) {o : Outcome} → OutcomeSkips m o → o ≡ resumed m' → Skips m m'
resumed_of m m' (resumes n h) e = ground (arith, h)
resumed_of m m' (exits n) e = cc
resumed_of m m' (exits_group n) e = cc

-- On every branch on which the thread goes on, it does so just past the two bytes of the UD2.
pub sigill_handler-resumes :
    (env : Env) (k : Kernel) (m m' : Machine)
    → sigill_handler env k m ≡ resumed m'
    → m'.regs.rip ≡ (m.regs.rip + 2) % 2 ^ 64
sigill_handler-resumes env k m m' e = resumed_of m m' (handler-OutcomeSkips env k m) e
