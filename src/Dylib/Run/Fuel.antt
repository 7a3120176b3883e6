-- ===== src/Dylib/Run/Fuel.antt =====
-- An interpreter whose every round takes an opcode ends.
use mac_ify.Dylib.Run.{Run, next, returned, undefined, stuck, ◌>>=◌, uleb_operand, sleb_operand}
use mac_ify.Dylib.Run.{run_loop}
use mac_ify.Fixups.Bind.Fuel.{uleb_loop-length, sleb_loop-length}
use mac_ify.Fixups.Leb.{read_uleb128, read_sleb128}
use mac_ify.Prelude.{ℕ, zero, suc, ◌≤◌, ◌<◌, ◌≡◌, ◌≢◌, refl, arith, List, length}
use mac_ify.Prelude.{Option, none, some, Bool, if_elim, if◌then◌else◌}

-- What a round leads on to has at most `n` bytes left; `left` measures the state.
pub data Within {S : Type 0} (left : S → ℕ) (n : ℕ) : Run S → Type 0 where
  goes_on : (s : S) → left s ≤ n → Within left n (next s)
  returns : (s : S) → Within left n (returned s)
  faults : Within left n undefined

module _ {S : Type 0} (left : S → ℕ) (n : ℕ) where
  pub if-Within :
      (b : Bool) {f g : Run S}
      → Within left n f
      → Within left n g
      → Within left n (if b then f else g)
  if-Within b = if_elim (Within left n) b

  pub >>=-Within :
      {f : Run S} {k : S → Run S}
      → Within left n f
      → ((s : S) → left s ≤ n → Within left n (k s))
      → Within left n (f >>= k)
  >>=-Within (goes_on s h) g = g s h
  >>=-Within (returns s) g = returns s
  >>=-Within faults g = faults

  operand-Within :
      (o : Option (ℕ × List ℕ)) (k : ℕ → List ℕ → Run S)
      → ((v : ℕ) (q : List ℕ) → o ≡ some (v, q) → Within left n (k v q))
      → Within left n (elim o [ none ↦ undefined | some (v, q) ↦ k v q ])
  operand-Within none k g = faults
  operand-Within (some (v, q)) k g = g v q refl

  pub uleb_operand-Within :
      (p : List ℕ) (k : ℕ → List ℕ → Run S)
      → ((v : ℕ) (q : List ℕ) → length q ≤ length p → Within left n (k v q))
      → Within left n (uleb_operand p k)
  unfolding uleb_operand read_uleb128
  uleb_operand-Within p k g =
      operand-Within (read_uleb128 p) k (λ v q e. g v q (uleb_loop-length p q 0 0 v e))

  pub sleb_operand-Within :
      (p : List ℕ) (k : ℕ → List ℕ → Run S)
      → ((v : ℕ) (q : List ℕ) → length q ≤ length p → Within left n (k v q))
      → Within left n (sleb_operand p k)
  unfolding sleb_operand read_sleb128
  sleb_operand-Within p k g =
      operand-Within (read_sleb128 p) k (λ v q e. g v q (sleb_loop-length p q 0 0 0 v e))

module _ {S : Type 0} (left : S → ℕ) (step : S → Run S) where
  step-ne-stuck :
      (n : ℕ) {f : Run S} {k : S → Run S}
      → Within left n f
      → ((s : S) → left s ≤ n → k s ≢ stuck)
      → (f >>= k) ≢ stuck
  step-ne-stuck n (goes_on s h) g = g s h
  step-ne-stuck n (returns s) g = λ e. cc
  step-ne-stuck n faults g = λ e. cc

  last_round : (s : S) {f : Run S} (k : S → Run S) → f ≡ returned s → (f >>= k) ≢ stuck
  last_round s k e = rw e (λ e'. cc)

  pub run_loop-ne-stuck :
      ((n : ℕ) (s : S) → left s ≤ suc n → Within left n (step s))
      → ((s : S) → left s ≡ 0 → step s ≡ returned s)
      → (fuel : ℕ) (s : S) → left s < fuel
      → run_loop fuel step s ≢ stuck
  unfolding run_loop
  run_loop-ne-stuck within stops zero s h = absurd (omega arith)
  run_loop-ne-stuck within stops (suc zero) s h = last_round s _ (stops s (omega arith))
  run_loop-ne-stuck within stops (suc (suc fuel)) s h =
      step-ne-stuck fuel (within fuel s (omega arith))
        (λ s' g. run_loop-ne-stuck within stops (suc fuel) s' (omega arith))
