-- ===== src/Dylib/Rebases/Ends.antt =====
-- The rebase opcodes of a library always come to an end.
use mac_ify.Dylib.Commands.{File}
use mac_ify.Dylib.Image.{Dylib}
use mac_ify.Dylib.Rebases.{SlideState, slide_one, slide_times, slide_op, slide_step}
use mac_ify.Dylib.Rebases.{process_dylib_rebases}
use mac_ify.Dylib.Run.{Run, returned, stuck}
use mac_ify.Dylib.Run.Fuel.{Within, goes_on, returns, if-Within, uleb_operand-Within}
use mac_ify.Dylib.Run.Fuel.{run_loop-ne-stuck}
use mac_ify.Fixups.Bind.Fuel.{length-bytes_at}
use mac_ify.Prelude.{ℕ, zero, suc, ◌≤◌, ◌≡◌, ◌≢◌, refl, arith, List, [], ◌∷◌, length, Memory}
use mac_ify.Prelude.{◌==◌, ◌||◌, if_elim}

abbrev opcodes_left : SlideState → ℕ
opcodes_left s = length s.p

slide_times-p : (d : Dylib) (step left : ℕ) (s : SlideState) → (slide_times d step left s).p ≡ s.p
unfolding slide_times slide_one
slide_times-p d step zero s = refl
slide_times-p d step (suc left) s = slide_times-p d step left (slide_one d step s)

times-Within :
    (n : ℕ) (d : Dylib) (step left : ℕ) (s : SlideState)
    → length s.p ≤ n
    → Within opcodes_left n (mac_ify.Dylib.Run.next (slide_times d step left s))
times-Within n d step left s h = goes_on _ (rw (slide_times-p d step left s) h)

slide_op-Within :
    (n : ℕ) (d : Dylib) (op imm : ℕ) (s : SlideState)
    → length s.p ≤ n
    → Within opcodes_left n (slide_op d op imm s)
unfolding slide_op
slide_op-Within n d op imm s h =
    let operand = uleb_operand-Within opcodes_left n in
    if-Within opcodes_left n (op == 0x00) (returns s) (
      if-Within opcodes_left n (op == 0x10) (goes_on s h) (
        if-Within opcodes_left n (op == 0x20) (operand s.p _ (λ v q g. goes_on _ (omega arith))) (
          if-Within opcodes_left n (op == 0x30) (operand s.p _ (λ v q g. goes_on _ (omega arith))) (
            if-Within opcodes_left n (op == 0x40) (goes_on _ h) (
              if-Within opcodes_left n (op == 0x50) (times-Within n d 8 imm s h) (
                if-Within opcodes_left n (op == 0x60)
                  (operand s.p _ (λ v q g. times-Within n d 8 v _ (omega arith)))
                  (if-Within opcodes_left n (op == 0x70)
                    (operand s.p _ (λ v q g. goes_on _ (omega arith)))
                    (if-Within opcodes_left n (op == 0x80)
                      (operand s.p _ (λ count q g.
                        operand q _ (λ skip q' g'. times-Within n d _ count _ (omega arith))))
                      (returns s)))))))))

slide_step-Within :
    (n : ℕ) (d : Dylib) (s : SlideState) (p : List ℕ)
    → length p ≤ suc n
    → Within opcodes_left n (slide_step d s p)
unfolding slide_step
slide_step-Within n d s [] h = returns s
slide_step-Within n d s (b ∷ p) h = slide_op-Within n d _ _ (record s { p = p }) (omega arith)

slide_step-nil :
    (d : Dylib) (s : SlideState) (p : List ℕ) → length p ≡ 0 → slide_step d s p ≡ returned s
unfolding slide_step
slide_step-nil d s [] h = refl
slide_step-nil d s (b ∷ p) h = absurd (omega arith)

returned-ne-stuck : (s : SlideState) → returned s ≢ stuck
returned-ne-stuck s e = cc

-- The interpreter of a library's rebase opcodes ends on every range of bytes: the fuel suffices.
pub process_dylib_rebases-ne-stuck :
    (d : Dylib) (file : File) (off size : ℕ) (mem : Memory)
    → process_dylib_rebases d file off size mem ≢ stuck
unfolding process_dylib_rebases
process_dylib_rebases-ne-stuck d file off size mem =
    if_elim (λ r. r ≢ stuck) (off == 0 || size == 0) (returned-ne-stuck _)
      (run_loop-ne-stuck opcodes_left _ (λ n s h. slide_step-Within n d s s.p h)
        (λ s e. slide_step-nil d s s.p e) (suc size) _
        (omega (arith, length-bytes_at size file off)))
