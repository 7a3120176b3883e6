-- ===== src/Fixups/Bind.antt =====
-- `execute_binds` and `execute_lazy_binds` of src/fixups.c: the bind opcodes of LC_DYLD_INFO.
pub mod Fuel
pub mod Effect
use mac_ify.Fixups.Image.{Image, add_u64, target_of, bytes_at}
use mac_ify.Fixups.Leb.{read_uleb128, read_sleb128}
use mac_ify.Fixups.Stubs.{Noted, note_stub}
use mac_ify.Prelude.{ℕ, zero, suc, ◌+◌, ◌-◌, ◌*◌, ◌%◌, ◌^◌, List, [], ◌∷◌, Option, none, some}
use mac_ify.Prelude.{Bool, true, false, ◌||◌, ◌&&◌, not}
use mac_ify.Prelude.{ℤ, pos, negsuc, int_of, Memory, store, bit_and, bit_or, leb, ltb, ◌==◌}
use mac_ify.Prelude.{if◌then◌else◌, length, take}

-- The variables of the interpreter: the opcodes left, and what the opcodes set.
pub record BindState : Type 0 where
  pub p : List ℕ
  pub ordinal : ℤ
  pub symbol_name : List ℕ
  pub bind_type : ℕ
  pub addend : ℕ
  pub seg_offset : ℕ
  pub seg_index : ℕ
  pub mem : Memory
  pub noted : Noted

-- An opcode leads on, returns 0 (`true`) or -1 (`false`), or shifts by 64 or more. `stuck` is no
-- value of the program: the loop ran out of fuel.
pub data Flow : Type 0 where
  next : BindState → Flow
  returned : Bool → BindState → Flow
  undefined : Flow
  stuck : Flow

infixl 5 ◌>>=◌
abbrev pub ◌>>=◌ : Flow → (BindState → Flow) → Flow
next s >>= k = k s
returned rc s >>= k = returned rc s
undefined >>= k = undefined
stuck >>= k = stuck

-- A ULEB128 operand is taken off the opcodes and handed on.
unfoldable pub with_uleb : BindState → (ℕ → BindState → Flow) → Flow
with_uleb s k = elim (read_uleb128 s.p) [
  | none ↦ undefined
  | some (v, p) ↦ k v (record s { p = p })
]

unfoldable pub with_sleb : BindState → (ℕ → BindState → Flow) → Flow
with_sleb s k = elim (read_sleb128 s.p) [
  | none ↦ undefined
  | some (v, p) ↦ k v (record s { p = p })
]

-- The bytes before the first 0, and what follows it.
unfoldable pub split_zero : List ℕ → Option (List ℕ × List ℕ)
split_zero [] = none
split_zero (b ∷ p) =
    let rest = split_zero p in
    if b == 0
    then some ([], p)
    else elim rest [ none ↦ none | some (name, p') ↦ some (b ∷ name, p') ]

-- `if (sym[0] == '_') sym++;`
unfoldable pub strip_underscore : List ℕ → List ℕ
strip_underscore [] = []
strip_underscore (c ∷ name) = if c == b'_' then name else c ∷ name

-- `ordinal - 1`, unless `ordinal < 1 || ordinal > g_ndylibs`.
unfoldable pub dylib_index : Image → ℤ → Option ℕ
dylib_index img (negsuc n) = none
dylib_index img (pos n) = if ltb n 1 || ltb img.ndylibs n then none else some (n - 1)

-- `resolve_symbol`, with the stub for what it does not find.
unfoldable pub address_of : Image → ℕ → List ℕ → ℕ
address_of img index name =
    let addr = img.resolve index name in if addr == 0 then img.stub else addr

-- `macify_note_stub(sym)`, if the symbol is not found.
unfoldable pub noted_after : Image → ℕ → BindState → Noted
noted_after img index s =
    let name = strip_underscore s.symbol_name in
    if img.resolve index name == 0 then note_stub (img.copies name) s.noted name else s.noted

-- `*(uint64_t *)target = addr + addend`
unfoldable pub slot_written : Image → ℕ → BindState → Memory
slot_written img index s =
    let addr = address_of img index (strip_underscore s.symbol_name) in
    store 8 s.mem (target_of img s.seg_index s.seg_offset) (add_u64 addr s.addend)

-- The bind of one slot, up to `seg_offset += 8`. Types other than BIND_TYPE_POINTER (1) skip the slot.
unfoldable pub do_bind : Image → BindState → Flow
do_bind img s = elim (dylib_index img s.ordinal) [
  | none ↦ returned false s
  | some index ↦
      let noted = noted_after img index s in
      if leb img.nsegments s.seg_index
      then returned false (record s { noted = noted })
      else next (record s {
        noted = noted;
        mem = if s.bind_type == 1 then slot_written img index s else s.mem;
        seg_offset = add_u64 s.seg_offset 8;
      })
]

-- The loop of DO_BIND_ULEB_TIMES_SKIPPING_ULEB, with the rounds left.
unfoldable pub bind_times : Image → ℕ → ℕ → BindState → Flow
bind_times img skip zero s = next s
bind_times img skip (suc left) s = elim (dylib_index img s.ordinal) [
  | none ↦ returned false s
  | some index ↦
      bind_times img skip left
        (record s { mem = slot_written img index s; seg_offset = add_u64 s.seg_offset (8 + skip) })
]

-- `imm ? (int8_t)(imm | 0xF0) : 0`
unfoldable pub special_ordinal : ℕ → ℤ
special_ordinal imm = if imm == 0 then pos 0 else negsuc (255 - bit_or imm 0xF0)

-- `char symbol_name[256]`, the terminating 0 not counted.
abbrev pub max_name : ℕ
max_name = 255

unfoldable pub set_symbol : BindState → Flow
set_symbol s = elim (split_zero s.p) [
  | none ↦ returned false (record s { p = [] })
  | some (name, p) ↦ next (record s { p = p; symbol_name = take max_name name })
]

-- The opcodes of the `switch` that bind slots, and its default.
unfoldable pub bind_slots : Image → ℕ → ℕ → BindState → Flow
bind_slots img op imm s =
    if op == 0x90
    then do_bind img s
    else if op == 0xA0
    then do_bind img s
      >>= (λ s1. with_uleb s1 (λ v s'. next (record s' { seg_offset = add_u64 s'.seg_offset v })))
    else if op == 0xB0
    then do_bind img s >>= (λ s1. next (record s1 { seg_offset = add_u64 s1.seg_offset (imm * 8) }))
    else if op == 0xC0
    then with_uleb s (λ count s1. with_uleb s1 (λ skip s2. bind_times img skip count s2))
    else returned false s

-- The `switch` on `op`, after `p` has passed the opcode. DONE returns only at the end.
unfoldable pub bind_op : Image → ℕ → ℕ → BindState → Flow
bind_op img op imm s =
    if op == 0x00
    then if length s.p == 0
      then returned true s
      else next (record s { symbol_name = []; seg_offset = 0; seg_index = 0 })
    else if op == 0x10
    then next (record s { ordinal = pos imm })
    else if op == 0x20
    then with_uleb s (λ v s'. next (record s' { ordinal = int_of v }))
    else if op == 0x30
    then next (record s { ordinal = special_ordinal imm })
    else if op == 0x40
    then set_symbol s
    else if op == 0x50
    then next (record s { bind_type = imm })
    else if op == 0x60
    then with_sleb s (λ v s'. next (record s' { addend = v }))
    else if op == 0x70
    then with_uleb s (λ v s'. next (record s' { seg_index = imm; seg_offset = v }))
    else if op == 0x80
    then with_uleb s (λ v s'. next (record s' { seg_offset = add_u64 s'.seg_offset v }))
    else bind_slots img op imm s

-- One round of `while (p < end)`.
unfoldable pub bind_step : Image → BindState → List ℕ → Flow
bind_step img s [] = returned true s
bind_step img s (byte ∷ p) =
    bind_op img (bit_and byte 0xF0) (bit_and byte 0x0F) (record s { p = p })

unfoldable pub bind_loop : ℕ → Image → BindState → Flow
bind_loop zero img s = stuck
bind_loop (suc fuel) img s = bind_step img s s.p >>= λ s'. bind_loop fuel img s'

-- The variables before the first opcode.
unfoldable pub bind_start : List ℕ → Memory → Noted → BindState
bind_start p mem noted = record {
  p = p;
  ordinal = pos 0;
  symbol_name = [];
  bind_type = 1;
  addend = 0;
  seg_offset = 0;
  seg_index = 0;
  mem = mem;
  noted = noted;
}

-- The sum `g_bind_off + g_bind_size` is one of `uint32_t`. A round takes one opcode byte at least, so
-- a fuel of one more than their number is enough.
unfoldable pub execute_binds : Image → ℕ → ℕ → ℕ → ℕ → Memory → Noted → Flow
execute_binds img bind_off bind_size file_data file_size mem noted =
    let p = bytes_at bind_size mem (file_data + bind_off) in
    let s = bind_start p mem noted in
    let run = bind_loop (suc bind_size) img s in
    if bind_size == 0
    then returned true s
    else if ltb file_size ((bind_off + bind_size) % 2 ^ 32)
    then returned false s
    else run

-- The globals that tell where the opcodes are.
pub record Ranges : Type 0 where
  pub bind_off : ℕ
  pub bind_size : ℕ
  pub lazy_bind_off : ℕ
  pub lazy_bind_size : ℕ

-- The lazy range stands in for the other one while the interpreter runs.
unfoldable pub execute_lazy_binds : Image → Ranges → ℕ → ℕ → Memory → Noted → Flow × Ranges
execute_lazy_binds img r file_data file_size mem noted =
    if r.lazy_bind_size == 0
    then (returned true (bind_start [] mem noted), r)
    else let swapped = record r { bind_off = r.lazy_bind_off; bind_size = r.lazy_bind_size } in
      let result =
        execute_binds img swapped.bind_off swapped.bind_size file_data file_size mem noted in
      (result, record swapped { bind_off = r.bind_off; bind_size = r.bind_size })
