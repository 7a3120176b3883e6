-- ===== src/Fixups/Rebase.antt =====
-- `execute_rebases` of src/fixups.c: the rebase opcodes of LC_DYLD_INFO.
pub mod Slide
pub mod Fuel
use mac_ify.Fixups.Image.{Image, add_u64, target_of, bytes_at}
use mac_ify.Fixups.Leb.{read_uleb128}
use mac_ify.Prelude.{ℕ, zero, suc, ◌+◌, ◌*◌, ◌%◌, ◌^◌, List, [], ◌∷◌, Option, none, some, Bool}
use mac_ify.Prelude.{true, false}
use mac_ify.Prelude.{Memory, load, store, bit_and, leb, ltb, ◌==◌, if◌then◌else◌}

-- The variables of the interpreter.
pub record RebaseState : Type 0 where
  pub p : List ℕ
  pub type : ℕ
  pub seg_offset : ℕ
  pub seg_index : ℕ
  pub mem : Memory

-- As for the binds: 0 is `true`, -1 is `false`, and `stuck` is no value of the program.
pub data RebaseFlow : Type 0 where
  next : RebaseState → RebaseFlow
  returned : Bool → RebaseState → RebaseFlow
  undefined : RebaseFlow
  stuck : RebaseFlow

infixl 5 ◌>>=◌
abbrev pub ◌>>=◌ : RebaseFlow → (RebaseState → RebaseFlow) → RebaseFlow
next s >>= k = k s
returned rc s >>= k = returned rc s
undefined >>= k = undefined
stuck >>= k = stuck

unfoldable pub with_uleb : RebaseState → (ℕ → RebaseState → RebaseFlow) → RebaseFlow
with_uleb s k = elim (read_uleb128 s.p) [
  | none ↦ undefined
  | some (v, p) ↦ k v (record s { p = p })
]

-- `val += g_slide` at `target`.
unfoldable pub slide_at : Image → Memory → ℕ → Memory
slide_at img mem target = store 8 mem target (add_u64 (load 8 mem target) img.slide)

-- DO_ONE_REBASE. Types other than REBASE_TYPE_POINTER (1) skip the slot.
unfoldable pub do_one_rebase : Image → RebaseState → RebaseFlow
do_one_rebase img s =
    let target = target_of img s.seg_index s.seg_offset in
    if leb img.nsegments s.seg_index
    then returned false s
    else next (record s {
      mem = if s.type == 1 then slide_at img s.mem target else s.mem;
      seg_offset = add_u64 s.seg_offset 8;
    })

-- The loops of the opcodes for several slots, with the rounds left and what each skips after it.
unfoldable pub rebase_times : Image → ℕ → ℕ → RebaseState → RebaseFlow
rebase_times img skip zero s = next s
rebase_times img skip (suc left) s =
    do_one_rebase img s
    >>= (λ s'. rebase_times img skip left (record s' { seg_offset = add_u64 s'.seg_offset skip }))

-- The `switch` on `op`, after `p` has passed the opcode.
unfoldable pub rebase_op : Image → ℕ → ℕ → RebaseState → RebaseFlow
rebase_op img op imm s =
    if op == 0x00
    then returned true s
    else if op == 0x10
    then next (record s { type = imm })
    else if op == 0x20
    then with_uleb s (λ v s'. next (record s' { seg_index = imm; seg_offset = v }))
    else if op == 0x30
    then with_uleb s (λ v s'. next (record s' { seg_offset = add_u64 s'.seg_offset v }))
    else if op == 0x40
    then next (record s { seg_offset = add_u64 s.seg_offset (imm * 8) })
    else if op == 0x50
    then rebase_times img 0 imm s
    else if op == 0x60
    then with_uleb s (λ count s'. rebase_times img 0 count s')
    else if op == 0x70
    then do_one_rebase img s
      >>= (λ s1. with_uleb s1 (λ v s'. next (record s' { seg_offset = add_u64 s'.seg_offset v })))
    else if op == 0x80
    then with_uleb s (λ count s1. with_uleb s1 (λ skip s2. rebase_times img skip count s2))
    else returned false s

-- One round of `while (p < end)`.
unfoldable pub rebase_step : Image → RebaseState → List ℕ → RebaseFlow
rebase_step img s [] = returned true s
rebase_step img s (byte ∷ p) =
    rebase_op img (bit_and byte 0xF0) (bit_and byte 0x0F) (record s { p = p })

unfoldable pub rebase_loop : ℕ → Image → RebaseState → RebaseFlow
rebase_loop zero img s = stuck
rebase_loop (suc fuel) img s = rebase_step img s s.p >>= λ s'. rebase_loop fuel img s'

-- A round takes one opcode byte at least, so a fuel of one more than their number is enough.
unfoldable pub execute_rebases : Image → ℕ → ℕ → ℕ → ℕ → Memory → RebaseFlow
execute_rebases img rebase_off rebase_size file_data file_size mem =
    let p = bytes_at rebase_size mem (file_data + rebase_off) in
    let s : RebaseState = record { p = p; type = 0; seg_offset = 0; seg_index = 0; mem = mem } in
    let run = rebase_loop (suc rebase_size) img s in
    if rebase_size == 0
    then returned true s
    else if ltb file_size ((rebase_off + rebase_size) % 2 ^ 32)
    then returned false s
    else run
