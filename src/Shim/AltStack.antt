-- ===== src/Shim/AltStack.antt =====
-- shim/signal/sigmask.c: `sigaltstack`, whose structure has its fields in another order on macOS. The
-- system call is a parameter; the traces are left out.
use mac_ify.Prelude.{ℕ, ◌+◌, ◌^◌, ◌<◌, ◌≡◌, ◌≢◌, refl, ◌∙◌, ap, arith, Option, none, some, not}
use mac_ify.Prelude.{◌&&◌, ◌==◌, if◌then◌else◌, Memory, load, store, has, load-store}
use mac_ify.Prelude.{load-store_away, inl}

-- A `stack_t`.
record AltStack : Type 0 where
  ss_sp : ℕ
  ss_size : ℕ
  ss_flags : ℕ

macos_stack : Memory → ℕ → AltStack
macos_stack mem ss = record {
  ss_sp = load 8 mem ss;
  ss_size = load 8 mem (ss + 8);
  ss_flags = load 4 mem (ss + 16);
}

store_macos_stack : Memory → ℕ → AltStack → Memory
store_macos_stack mem oss s =
    store 4 (store 8 (store 8 mem oss s.ss_sp) (oss + 8) s.ss_size) (oss + 16) s.ss_flags

-- `syscall(131, p_ss, p_oss)`: the result and the old stack.
abbrev RealAltStack : Type 0
RealAltStack = Option AltStack → ℕ × AltStack

-- `ss` and `oss` are addresses, 0 for NULL. A stack with the flag 1 is not handed on.
macify_sigaltstack : RealAltStack → ℕ → ℕ → Memory → ℕ × Memory
macify_sigaltstack real ss oss mem =
    let (result, linux_oss) = real (if ss == 0 then none else some (macos_stack mem ss)) in
    let mem' = if not (oss == 0) && result == 0 then store_macos_stack mem oss linux_oss else mem in
    if not (ss == 0) && has (macos_stack mem ss).ss_flags 1 then (0, mem) else (result, mem')

-- A stack that is stored is read back, if its fields fit.
macos_stack-store :
    (mem : Memory) (p : ℕ) (s : AltStack)
    → s.ss_sp < 2 ^ 64
    → s.ss_size < 2 ^ 64
    → s.ss_flags < 2 ^ 32
    → macos_stack (store_macos_stack mem p s) p ≡ s
unfolding macos_stack store_macos_stack
macos_stack-store mem p s sp size flags =
    let mem1 = store 8 mem p s.ss_sp in
    let mem2 = store 8 mem1 (p + 8) s.ss_size in
    rw
      (
        load-store_away 4 8 mem2 (p + 16) p s.ss_flags (inl (omega arith)),
        load-store_away 8 8 mem1 (p + 8) p s.ss_size (inl (omega arith)),
        load-store 8 mem p s.ss_sp (omega arith),
        load-store_away 4 8 mem2 (p + 16) (p + 8) s.ss_flags (inl (omega arith)),
        load-store 8 mem1 (p + 8) s.ss_size (omega arith),
        load-store 4 mem2 (p + 16) s.ss_flags (omega arith),
      )
      refl

-- Asked for the old stack, without a new one, the shim leaves at the address of a macOS program the
-- stack that the system answers, in the layout in which the shim itself reads one back.
macify_sigaltstack-old :
    (real : RealAltStack) (oss : ℕ) (mem : Memory)
    → oss ≢ 0
    → (real none).0 ≡ 0
    → (real none).1.ss_sp < 2 ^ 64
    → (real none).1.ss_size < 2 ^ 64
    → (real none).1.ss_flags < 2 ^ 32
    → macos_stack (macify_sigaltstack real 0 oss mem).1 oss ≡ (real none).1
unfolding macify_sigaltstack
macify_sigaltstack-old real oss mem some_oss done sp size flags =
    let stored : (macify_sigaltstack real 0 oss mem).1 ≡ store_macos_stack mem oss (real none).1 =
      ground (arith, some_oss, done) in
    ap (λ m. macos_stack m oss) stored ∙ macos_stack-store mem oss (real none).1 sp size flags
