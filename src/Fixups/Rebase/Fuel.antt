-- ===== src/Fixups/Rebase/Fuel.antt =====
-- The interpreter of the rebase opcodes of src/fixups.c ends: every round takes an opcode.
use mac_ify.Fixups.Bind.Fuel.{uleb_loop-length, length-bytes_at}
use mac_ify.Fixups.Image.{Image}
use mac_ify.Fixups.Leb.{read_uleb128}
use mac_ify.Fixups.Rebase.{RebaseState, RebaseFlow, next, returned, undefined, stuck, ◌>>=◌}
use mac_ify.Fixups.Rebase.{with_uleb, do_one_rebase, rebase_times, rebase_op, rebase_step}
use mac_ify.Fixups.Rebase.{rebase_loop, execute_rebases}
use mac_ify.Prelude.{ℕ, zero, suc, ◌+◌, ◌%◌, ◌^◌, ◌≤◌, ◌<◌, ◌≡◌, ◌≢◌, refl, List, [], ◌∷◌, arith}
use mac_ify.Prelude.{length, Option, none, some, Memory, if_elim, Bool, true, false}
use mac_ify.Prelude.{if◌then◌else◌, ◌==◌, leb, ltb}

-- What an opcode leads on to has at most `n` opcodes left, and it does not run out of fuel.
data Within (n : ℕ) : RebaseFlow → Type 0 where
  goes_on : (s : RebaseState) → length s.p ≤ n → Within n (next s)
  returns : (rc : Bool) (s : RebaseState) → Within n (returned rc s)
  faults : Within n undefined

module _ (n : ℕ) where
  if-Within :
      (b : Bool) {f g : RebaseFlow} → Within n f → Within n g → Within n (if b then f else g)
  if-Within b = if_elim (Within n) b

  >>=-Within :
      {f : RebaseFlow} {k : RebaseState → RebaseFlow}
      → Within n f
      → ((s : RebaseState) → length s.p ≤ n → Within n (k s))
      → Within n (f >>= k)
  >>=-Within (goes_on s h) g = g s h
  >>=-Within (returns rc s) g = returns rc s
  >>=-Within faults g = faults

  operand-Within :
      (s : RebaseState) (o : Option (ℕ × List ℕ)) (k : ℕ → RebaseState → RebaseFlow)
      → ((v : ℕ) (q : List ℕ) → o ≡ some (v, q) → length q ≤ n)
      → ((v : ℕ) (s' : RebaseState) → length s'.p ≤ n → Within n (k v s'))
      → Within n (elim o [ none ↦ undefined | some (v, p) ↦ k v (record s { p = p }) ])
  operand-Within s none k shrinks g = faults
  operand-Within s (some (v, p)) k shrinks g = g v (record s { p = p }) (shrinks v p refl)

  with_uleb-Within :
      (s : RebaseState) (k : ℕ → RebaseState → RebaseFlow)
      → length s.p ≤ n
      → ((v : ℕ) (s' : RebaseState) → length s'.p ≤ n → Within n (k v s'))
      → Within n (with_uleb s k)
  unfolding with_uleb read_uleb128
  with_uleb-Within s k h g =
      operand-Within s (read_uleb128 s.p) k
        (λ v q e. let shorter = uleb_loop-length s.p q 0 0 v e in omega arith) g

  do_one_rebase-Within :
      (img : Image) (s : RebaseState) → length s.p ≤ n → Within n (do_one_rebase img s)
  unfolding do_one_rebase
  do_one_rebase-Within img s h =
      if-Within (leb img.nsegments s.seg_index) (returns false s) (goes_on _ h)

  rebase_times-Within :
      (img : Image) (skip left : ℕ) (s : RebaseState)
      → length s.p ≤ n
      → Within n (rebase_times img skip left s)
  unfolding rebase_times
  rebase_times-Within img skip zero s h = goes_on s h
  rebase_times-Within img skip (suc left) s h =
      >>=-Within (do_one_rebase-Within img s h) (λ s' g. rebase_times-Within img skip left _ g)

  rebase_op-Within :
      (img : Image) (op imm : ℕ) (s : RebaseState)
      → length s.p ≤ n
      → Within n (rebase_op img op imm s)
  unfolding rebase_op
  rebase_op-Within img op imm s h = if-Within (op == 0x00) (returns true s) (
      if-Within (op == 0x10) (goes_on _ h) (
        if-Within (op == 0x20) (with_uleb-Within s _ h (λ v s' g. goes_on _ g)) (
          if-Within (op == 0x30) (with_uleb-Within s _ h (λ v s' g. goes_on _ g)) (
            if-Within (op == 0x40) (goes_on _ h) (
              if-Within (op == 0x50) (rebase_times-Within img 0 imm s h) (
                if-Within (op == 0x60)
                  (with_uleb-Within s _ h (λ count s' g. rebase_times-Within img 0 count s' g))
                  (if-Within (op == 0x70)
                    (>>=-Within (do_one_rebase-Within img s h)
                      (λ s1 g. with_uleb-Within s1 _ g (λ v s' g'. goes_on _ g')))
                    (if-Within (op == 0x80)
                      (with_uleb-Within s _ h (λ count s1 g.
                        with_uleb-Within s1 _ g
                          (λ skip s2 g'. rebase_times-Within img skip count s2 g')))
                      (returns false s)))))))))

rebase_step-Within :
    (n : ℕ) (img : Image) (s : RebaseState) (p : List ℕ)
    → length p ≤ suc n
    → Within n (rebase_step img s p)
unfolding rebase_step
rebase_step-Within n img s [] h = returns true s
rebase_step-Within n img s (b ∷ p) h = rebase_op-Within n img _ _ (record s { p = p }) (omega arith)

rebase_step-nil :
    (img : Image) (s : RebaseState) (p : List ℕ)
    → length p ≡ 0
    → rebase_step img s p ≡ returned true s
unfolding rebase_step
rebase_step-nil img s [] h = refl
rebase_step-nil img s (b ∷ p) h = absurd (omega arith)

returned-ne-stuck : (rc : Bool) (s : RebaseState) → returned rc s ≢ stuck
returned-ne-stuck rc s e = cc

step-ne-stuck :
    (n : ℕ) {f : RebaseFlow} {k : RebaseState → RebaseFlow}
    → Within n f
    → ((s : RebaseState) → length s.p ≤ n → k s ≢ stuck)
    → (f >>= k) ≢ stuck
step-ne-stuck n (goes_on s h) g = g s h
step-ne-stuck n (returns rc s) g = λ e. cc
step-ne-stuck n faults g = λ e. cc

rebase_loop-ne-stuck :
    (fuel : ℕ) (img : Image) (s : RebaseState) → length s.p < fuel → rebase_loop fuel img s ≢ stuck
unfolding rebase_loop
rebase_loop-ne-stuck zero img s h = absurd (omega arith)
rebase_loop-ne-stuck (suc zero) img s h = rw (rebase_step-nil img s s.p (omega arith)) (λ e. cc)
rebase_loop-ne-stuck (suc (suc fuel)) img s h =
    step-ne-stuck fuel (rebase_step-Within fuel img s s.p (omega arith))
      (λ s' g. rebase_loop-ne-stuck (suc fuel) img s' (omega arith))

-- The interpreter of the rebase opcodes always ends: on every range of opcodes the fuel suffices.
pub execute_rebases-ne-stuck :
    (img : Image) (off size file_data file_size : ℕ) (mem : Memory)
    → execute_rebases img off size file_data file_size mem ≢ stuck
unfolding execute_rebases
execute_rebases-ne-stuck img off size file_data file_size mem =
    if_elim (λ f. f ≢ stuck) (size == 0) (returned-ne-stuck true _)
      (if_elim (λ f. f ≢ stuck) (ltb file_size ((off + size) % 2 ^ 32)) (returned-ne-stuck false _)
        (rebase_loop-ne-stuck (suc size) img _
          (omega (arith, length-bytes_at size mem (file_data + off)))))
