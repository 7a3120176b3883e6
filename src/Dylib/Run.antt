-- ===== src/Dylib/Run.antt =====
-- The opcode interpreters of src/macho_dylib.c: functions that return nothing, and whose loop takes
-- opcodes off a range of bytes.
pub mod Fuel
use mac_ify.Fixups.Leb.{read_uleb128, read_sleb128}
use mac_ify.Prelude.{ℕ, zero, suc, List, Option, none, some}

-- An opcode leads on, returns, or shifts by 64 or more, which C leaves undefined. `stuck` is no value
-- of the program: the loop ran out of fuel.
pub data Run (S : Type 0) : Type 0 where
  next : S → Run S
  returned : S → Run S
  undefined : Run S
  stuck : Run S

infixl 5 ◌>>=◌
abbrev pub ◌>>=◌ : {S : Type 0} → Run S → (S → Run S) → Run S
next s >>= k = k s
returned s >>= k = returned s
undefined >>= k = undefined
stuck >>= k = stuck

-- A ULEB128 operand at the front of `p`, and what is left of `p` after it.
unfoldable pub uleb_operand : {S : Type 0} → List ℕ → (ℕ → List ℕ → Run S) → Run S
uleb_operand p k = elim (read_uleb128 p) [ none ↦ undefined | some (v, q) ↦ k v q ]

unfoldable pub sleb_operand : {S : Type 0} → List ℕ → (ℕ → List ℕ → Run S) → Run S
sleb_operand p k = elim (read_sleb128 p) [ none ↦ undefined | some (v, q) ↦ k v q ]

unfoldable pub run_loop : {S : Type 0} → ℕ → (S → Run S) → S → Run S
run_loop zero step s = stuck
run_loop (suc fuel) step s = step s >>= λ s'. run_loop fuel step s'
