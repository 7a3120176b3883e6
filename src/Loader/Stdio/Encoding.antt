-- ===== src/Loader/Stdio/Encoding.antt =====
-- The instructions that the decoder of src/main.c reads for a getc macro, as x86-64 encodes them.
use mac_ify.Loader.Stdio.Decode.{DecOp, dec_getc_op, decode_modrm, with_disp, is_rex}
use mac_ify.Prelude.{ℕ, ◌+◌, ◌-◌, ◌/◌, ◌%◌, ◌≡◌, ◌≢◌, ◌⊎◌, inl, inr, refl, arith, none, some}
use mac_ify.Prelude.{◌&&◌, Memory, has, bit_and, ◌==◌, Bool-cases, if◌then◌else◌}

-- `r` is the length of the REX prefix at `at`.
abbrev pub IsPrefix : Memory → ℕ → ℕ → Type 0
IsPrefix text at r = (r ≡ 0) ⊎ ((r ≡ 1) × (bit_and (text at) 0xF0 ≡ 0x40))

-- What the bit `bit` of the prefix adds to the number of a register.
abbrev pub high : Memory → ℕ → ℕ → ℕ → ℕ
high text at r bit = if r == 1 && has (text at) bit then 8 else 0

-- The instruction at `at`, of `len` bytes, has the opcode `opcode`, the register `reg` and the memory
-- operand `[base + disp]` with a displacement of one byte, its last.
pub record IsMemory (text : Memory) (at opcode reg base disp len : ℕ) : Type 0 where
  pub r : ℕ
  pub starts : IsPrefix text at r
  pub operation : text (at + r) ≡ opcode
  pub by_disp8 : text (at + r + 1) / 64 ≡ 1
  pub of_reg : reg ≡ text (at + r + 1) / 8 % 8 + high text at r 4
  pub of_base :
      ((text (at + r + 1) % 8 ≢ 4)
        × (base ≡ text (at + r + 1) % 8 + high text at r 1)
        × (len ≡ r + 3))
      ⊎ ((text (at + r + 1) % 8 ≡ 4)
          × (text (at + r + 2) / 8 % 8 ≡ 4)
          × (base ≡ text (at + r + 2) % 8 + high text at r 1)
          × (len ≡ r + 4))
  pub displaced : text (at + len - 1) ≡ disp

-- The instruction at `at`, of `len` bytes, is `test reg, reg`.
pub record IsTest (text : Memory) (at reg len : ℕ) : Type 0 where
  pub r : ℕ
  pub starts : IsPrefix text at r
  pub operation : text (at + r) ≡ 0x85
  pub by_register : text (at + r + 1) / 64 ≡ 3
  pub of_reg : reg ≡ text (at + r + 1) / 8 % 8 + high text at r 4
  pub of_other : reg ≡ text (at + r + 1) % 8 + high text at r 1
  pub long : len ≡ r + 2

decode_modrm-IsMemory :
    (text : Memory) (n at r opcode b : ℕ) (op : DecOp)
    → IsPrefix text at r
    → text (at + r) ≡ opcode
    → decode_modrm text n at (at + r + 2) (high text at r 4) (high text at r 1) (text (at + r + 1))
      ≡ some op
    → op.base ≡ some b
    → IsMemory text at opcode op.reg b op.disp op.len
unfolding decode_modrm with_disp
decode_modrm-IsMemory text n at r opcode b op prefixed operation h memory = record {
  r = r;
  starts = prefixed;
  operation = operation;
  by_disp8 = ground arith;
  of_reg = ground arith;
  of_base = ground arith;
  displaced = ground arith;
}

decode_modrm-IsTest :
    (text : Memory) (n at r : ℕ) (op : DecOp)
    → IsPrefix text at r
    → text (at + r) ≡ 0x85
    → decode_modrm text n at (at + r + 2) (high text at r 4) (high text at r 1) (text (at + r + 1))
      ≡ some op
    → op.base ≡ none
    → IsTest text at op.reg op.len
unfolding decode_modrm with_disp
decode_modrm-IsTest text n at r op prefixed operation h register = record {
  r = r;
  starts = prefixed;
  operation = operation;
  by_register = ground arith;
  of_reg = ground arith;
  of_other = ground arith;
  long = ground arith;
}

-- What the decoder has read: the prefix, the opcode, and what follows them.
dec_getc_op-opcode :
    (text : Memory) (n at opcode : ℕ) (op : DecOp)
    → dec_getc_op text n at opcode ≡ some op
    → (r : ℕ) × IsPrefix text at r
      × (text (at + r) ≡ opcode)
      × (decode_modrm text n at
            (at + r + 2)
            (high text at r 4)
            (high text at r 1)
            (text (at + r + 1))
          ≡ some op)
unfolding dec_getc_op is_rex has
dec_getc_op-opcode text n at opcode op h = elim (Bool-cases (is_rex text n at)) [
  | inl rex ↦ (1, ground (arith, rex), ground (arith, rex), ground (arith, rex))
  | inr plain ↦
      let here : at + 0 ≡ at = omega arith in
      (0, inl refl, rw here (ground (arith, plain)), rw here (ground (arith, plain)))
]

pub dec_getc_op-IsMemory :
    (text : Memory) (n at opcode b : ℕ) (op : DecOp)
    → dec_getc_op text n at opcode ≡ some op
    → op.base ≡ some b
    → IsMemory text at opcode op.reg b op.disp op.len
dec_getc_op-IsMemory text n at opcode b op h memory =
    let (r, prefixed, operation, rest) = dec_getc_op-opcode text n at opcode op h in
    decode_modrm-IsMemory text n at r opcode b op prefixed operation rest memory

pub dec_getc_op-IsTest :
    (text : Memory) (n at : ℕ) (op : DecOp)
    → dec_getc_op text n at 0x85 ≡ some op
    → op.base ≡ none
    → IsTest text at op.reg op.len
dec_getc_op-IsTest text n at op h register =
    let (r, prefixed, operation, rest) = dec_getc_op-opcode text n at 0x85 op h in
    decode_modrm-IsTest text n at r op prefixed operation rest register
