-- ===== src/Dylib/Binds.antt =====
-- `process_dylib_binds` of src/macho_dylib.c. The variables `type` and `lib_ordinal`, which are set
-- and never read, are left out, and so is the trace.
pub mod Effect
pub mod Ends
use mac_ify.Dylib.Commands.{File, sum_u64}
use mac_ify.Dylib.Image.{Dylib, DylibSegment, segment_of, slot_of}
use mac_ify.Dylib.Run.{Run, next, returned, uleb_operand, sleb_operand, run_loop}
use mac_ify.Fixups.Bind.{strip_underscore}
use mac_ify.Fixups.Image.{bytes_at}
use mac_ify.Prelude.{ℕ, zero, suc, ◌+◌, ◌*◌, ◌%◌, ◌^◌, List, [], ◌∷◌, Option, none, some, ◌||◌}
use mac_ify.Prelude.{Memory, store, bit_and, ◌==◌, ltb, if◌then◌else◌}

pub record DylibBindState : Type 0 where
  pub p : List ℕ
  pub seg_index : Option ℕ
  pub seg_offset : ℕ
  pub sym_name : List ℕ
  pub addend : ℕ
  pub mem : Memory

-- The loop that fills `sym_name[256]`, with the room left, and `p` after the name: a name that is too
-- long loses the byte after its first 255.
unfoldable pub read_symbol : ℕ → List ℕ → List ℕ × List ℕ
read_symbol room [] = ([], [])
read_symbol zero (b ∷ p) = ([], p)
read_symbol (suc room) (b ∷ p) =
    let (name, rest) = read_symbol room p in if b == 0 then ([], p) else (b ∷ name, rest)

abbrev pub max_symbol : ℕ
max_symbol = 255

-- `resolve_symbol(-1, sym)` without the leading underscore; 0 is NULL.
unfoldable pub symbol_address : Dylib → DylibBindState → ℕ
symbol_address d s = d.resolve (strip_underscore s.sym_name)

-- `*(uint64_t *)target = addr + addend`, or what the opcode does for a symbol that is not found.
unfoldable pub write_bind : Dylib → DylibBindState → DylibSegment → Memory → Memory
write_bind d s seg missing =
    let addr = symbol_address d s in
    if addr == 0
    then missing
    else store 8 s.mem (slot_of d seg s.seg_offset) (sum_u64 addr s.addend)

-- The slot of DO_BIND, which gets the stub if the symbol is not found.
unfoldable pub bind_or_stub : Dylib → DylibBindState → DylibSegment → Memory
bind_or_stub d s seg = write_bind d s seg (store 8 s.mem (slot_of d seg s.seg_offset) d.stub)

-- The slot of the other opcodes, which stays as it is if the symbol is not found.
unfoldable pub bind_or_leave : Dylib → DylibBindState → DylibSegment → Memory
bind_or_leave d s seg = write_bind d s seg s.mem

unfoldable pub bind_if_there : Dylib → DylibBindState → Option DylibSegment → Memory
bind_if_there d s none = s.mem
bind_if_there d s (some seg) = bind_or_leave d s seg

-- A round of the loop of DO_BIND_ULEB_TIMES_SKIPPING_ULEB: the place moves on in any case.
unfoldable pub skip_bind : Dylib → ℕ → DylibBindState → DylibBindState
skip_bind d step s = record s {
  mem = bind_if_there d s (segment_of d s.seg_index);
  seg_offset = sum_u64 s.seg_offset step;
}

unfoldable pub skip_binds : Dylib → ℕ → ℕ → DylibBindState → DylibBindState
skip_binds d step zero s = s
skip_binds d step (suc left) s = skip_binds d step left (skip_bind d step s)

-- The three opcodes for one slot. Where the segment does not exist they do nothing, and a ULEB128
-- operand is left among the opcodes.
unfoldable pub bind_here : Dylib → DylibBindState → Option DylibSegment → Run DylibBindState
bind_here d s none = next s
bind_here d s (some seg) =
    next (record s { mem = bind_or_stub d s seg; seg_offset = sum_u64 s.seg_offset 8 })

unfoldable pub bind_add_uleb : Dylib → DylibBindState → Option DylibSegment → Run DylibBindState
bind_add_uleb d s none = next s
bind_add_uleb d s (some seg) = uleb_operand s.p (λ v q. next (record s {
  p = q;
  mem = bind_or_leave d s seg;
  seg_offset = sum_u64 s.seg_offset (sum_u64 8 v);
}))

unfoldable pub bind_add_scaled :
    Dylib → ℕ → DylibBindState → Option DylibSegment → Run DylibBindState
bind_add_scaled d imm s none = next s
bind_add_scaled d imm s (some seg) =
    next (record s { mem = bind_or_leave d s seg; seg_offset = sum_u64 s.seg_offset (imm * 8 + 8) })

unfoldable pub set_sym_name : DylibBindState → Run DylibBindState
set_sym_name s =
    let (name, p) = read_symbol max_symbol s.p in next (record s { p = p; sym_name = name })

-- The `switch` on `op`, after `p` has passed the opcode.
unfoldable pub dylib_bind_op : Dylib → ℕ → ℕ → DylibBindState → Run DylibBindState
dylib_bind_op d op imm s =
    if op == 0x00
    then returned s
    else if op == 0x10
    then next s
    else if op == 0x20
    then uleb_operand s.p (λ v q. next (record s { p = q }))
    else if op == 0x30
    then next s
    else if op == 0x40
    then set_sym_name s
    else if op == 0x50
    then next s
    else if op == 0x60
    then sleb_operand s.p (λ v q. next (record s { p = q; addend = v }))
    else if op == 0x70
    then uleb_operand s.p (λ v q. next (record s { p = q; seg_index = some imm; seg_offset = v }))
    else if op == 0x80
    then uleb_operand s.p (λ v q. next (record s { p = q; seg_offset = sum_u64 s.seg_offset v }))
    else if op == 0x90
    then bind_here d s (segment_of d s.seg_index)
    else if op == 0xA0
    then bind_add_uleb d s (segment_of d s.seg_index)
    else if op == 0xB0
    then bind_add_scaled d imm s (segment_of d s.seg_index)
    else if op == 0xC0
    then uleb_operand s.p (λ count q.
      uleb_operand q (λ skip q'. next (skip_binds d (sum_u64 skip 8) count (record s { p = q' }))))
    else returned s

-- One round of `while (p < end)`.
unfoldable pub dylib_bind_step : Dylib → DylibBindState → List ℕ → Run DylibBindState
dylib_bind_step d s [] = returned s
dylib_bind_step d s (byte ∷ p) =
    dylib_bind_op d (bit_and byte 0xF0) (bit_and byte 0x0F) (record s { p = p })

abbrev pub no_symbol : List ℕ → Memory → DylibBindState
no_symbol p mem = record {
  p = p;
  seg_index = none;
  seg_offset = 0;
  sym_name = [];
  addend = 0;
  mem = mem;
}

-- The sum of offset and size is one of `uint32_t`. A round takes one opcode byte at least, so a fuel
-- of one more than their number is enough.
unfoldable pub process_dylib_binds : Dylib → File → ℕ → ℕ → ℕ → Memory → Run DylibBindState
process_dylib_binds d file file_size bind_off bind_size mem =
    let start = no_symbol (bytes_at bind_size file bind_off) mem in
    let run = run_loop (suc bind_size) (λ s. dylib_bind_step d s s.p) start in
    if bind_off == 0 || bind_size == 0
    then returned start
    else if ltb file_size ((bind_off + bind_size) % 2 ^ 32)
    then returned start
    else run
