-- ===== src/Dylib/Binds/Ends.antt =====
-- The bind opcodes of a library always come to an end.
use mac_ify.Dylib.Commands.{File}
use mac_ify.Dylib.Image.{Dylib, DylibSegment, segment_of}
use mac_ify.Dylib.Binds.{DylibBindState, read_symbol, max_symbol, skip_bind, skip_binds, bind_here}
use mac_ify.Dylib.Binds.{bind_add_uleb, bind_add_scaled, set_sym_name, dylib_bind_op}
use mac_ify.Dylib.Binds.{dylib_bind_step, process_dylib_binds}
use mac_ify.Dylib.Run.{returned, stuck}
use mac_ify.Dylib.Run.Fuel.{Within, goes_on, returns, if-Within, uleb_operand-Within}
use mac_ify.Dylib.Run.Fuel.{sleb_operand-Within, run_loop-ne-stuck}
use mac_ify.Fixups.Bind.Fuel.{length-bytes_at}
use mac_ify.Prelude.{ℕ, zero, suc, ◌+◌, ◌%◌, ◌^◌, ◌≤◌, ◌≡◌, ◌≢◌, refl, arith, List, [], ◌∷◌}
use mac_ify.Prelude.{length}
use mac_ify.Prelude.{Option, none, some, Memory, ltb, ◌==◌, ◌||◌, if_elim}

abbrev left : DylibBindState → ℕ
left s = length s.p

read_symbol-length : (room : ℕ) (p : List ℕ) → length (read_symbol room p).1 ≤ length p
unfolding read_symbol
read_symbol-length room [] = ground arith
read_symbol-length zero (b ∷ p) = omega arith
read_symbol-length (suc room) (b ∷ p) = ground (arith, read_symbol-length room p)

skip_binds-p :
    (d : Dylib) (step count : ℕ) (s : DylibBindState) → (skip_binds d step count s).p ≡ s.p
unfolding skip_binds skip_bind
skip_binds-p d step zero s = refl
skip_binds-p d step (suc count) s = skip_binds-p d step count (skip_bind d step s)

module _ (n : ℕ) (d : Dylib) (s : DylibBindState) (h : length s.p ≤ n) where
  bind_here-Within : (o : Option DylibSegment) → Within left n (bind_here d s o)
  unfolding bind_here
  bind_here-Within none = goes_on s h
  bind_here-Within (some seg) = goes_on _ h

  bind_add_uleb-Within : (o : Option DylibSegment) → Within left n (bind_add_uleb d s o)
  unfolding bind_add_uleb
  bind_add_uleb-Within none = goes_on s h
  bind_add_uleb-Within (some seg) =
      uleb_operand-Within left n s.p _ (λ v q g. goes_on _ (omega arith))

  bind_add_scaled-Within :
      (imm : ℕ) (o : Option DylibSegment) → Within left n (bind_add_scaled d imm s o)
  unfolding bind_add_scaled
  bind_add_scaled-Within imm none = goes_on s h
  bind_add_scaled-Within imm (some seg) = goes_on _ h

  set_sym_name-Within : Within left n (set_sym_name s)
  unfolding set_sym_name
  set_sym_name-Within = goes_on _ (omega (arith, read_symbol-length max_symbol s.p))

  dylib_bind_op-Within : (op imm : ℕ) → Within left n (dylib_bind_op d op imm s)
  unfolding dylib_bind_op
  dylib_bind_op-Within op imm =
      let seg = segment_of d s.seg_index in
      let operand = uleb_operand-Within left n in
      if-Within left n (op == 0x00) (returns s) (
        if-Within left n (op == 0x10) (goes_on s h) (
          if-Within left n (op == 0x20) (operand s.p _ (λ v q g. goes_on _ (omega arith))) (
            if-Within left n (op == 0x30) (goes_on s h) (
              if-Within left n (op == 0x40) set_sym_name-Within (
                if-Within left n (op == 0x50) (goes_on s h) (
                  if-Within left n (op == 0x60)
                    (sleb_operand-Within left n s.p _ (λ v q g. goes_on _ (omega arith)))
                    (if-Within left n (op == 0x70)
                      (operand s.p _ (λ v q g. goes_on _ (omega arith)))
                      (if-Within left n (op == 0x80)
                        (operand s.p _ (λ v q g. goes_on _ (omega arith)))
                        (if-Within left n (op == 0x90) (bind_here-Within seg) (
                          if-Within left n (op == 0xA0) (bind_add_uleb-Within seg) (
                            if-Within left n (op == 0xB0) (bind_add_scaled-Within imm seg) (
                              if-Within left n (op == 0xC0)
                                (operand s.p _ (λ count q g. operand q _ (λ skip q' g'.
                                  goes_on _ (rw (skip_binds-p d _ count _) (omega arith)))))
                                (returns s)))))))))))))

dylib_bind_step-Within :
    (n : ℕ) (d : Dylib) (s : DylibBindState) (p : List ℕ)
    → length p ≤ suc n
    → Within left n (dylib_bind_step d s p)
unfolding dylib_bind_step
dylib_bind_step-Within n d s [] h = returns s
dylib_bind_step-Within n d s (b ∷ p) h =
    dylib_bind_op-Within n d (record s { p = p }) (omega arith) _ _

dylib_bind_step-nil :
    (d : Dylib) (s : DylibBindState) (p : List ℕ)
    → length p ≡ 0
    → dylib_bind_step d s p ≡ returned s
unfolding dylib_bind_step
dylib_bind_step-nil d s [] h = refl
dylib_bind_step-nil d s (b ∷ p) h = absurd (omega arith)

returned-ne-stuck : (s : DylibBindState) → returned s ≢ stuck
returned-ne-stuck s e = cc

-- The interpreter of a library's bind opcodes ends on every range of bytes: the fuel suffices.
pub process_dylib_binds-ne-stuck :
    (d : Dylib) (file : File) (file_size off size : ℕ) (mem : Memory)
    → process_dylib_binds d file file_size off size mem ≢ stuck
unfolding process_dylib_binds
process_dylib_binds-ne-stuck d file file_size off size mem =
    if_elim (λ r. r ≢ stuck) (off == 0 || size == 0) (returned-ne-stuck _)
      (if_elim (λ r. r ≢ stuck) (ltb file_size ((off + size) % 2 ^ 32)) (returned-ne-stuck _)
        (run_loop-ne-stuck left _ (λ n s h. dylib_bind_step-Within n d s s.p h)
          (λ s e. dylib_bind_step-nil d s s.p e) (suc size) _
          (omega (arith, length-bytes_at size file off))))
