-- ===== src/Dylib/Rebases.antt =====
-- `process_dylib_rebases` of src/macho_dylib.c. The variable `type`, which is set and never read, is
-- left out.
pub mod Agrees
pub mod Ends
use mac_ify.Dylib.Commands.{File, sum_u64}
use mac_ify.Dylib.Image.{Dylib, DylibSegment, segment_of, slot_of}
use mac_ify.Dylib.Run.{Run, next, returned, undefined, uleb_operand, run_loop}
use mac_ify.Fixups.Image.{bytes_at}
use mac_ify.Prelude.{ℕ, zero, suc, ◌+◌, ◌*◌, List, [], ◌∷◌, Option, none, some, ◌||◌}
use mac_ify.Prelude.{Memory, load, store, bit_and, ◌==◌, if◌then◌else◌}

pub record SlideState : Type 0 where
  pub p : List ℕ
  pub seg_index : Option ℕ
  pub seg_offset : ℕ
  pub mem : Memory

-- `*ptr += slide`
unfoldable pub add_slide : Dylib → Memory → ℕ → Memory
add_slide d mem target = store 8 mem target (sum_u64 (load 8 mem target) d.slide)

-- The slot at the current place, if its segment exists.
unfoldable pub slide_slot : Dylib → SlideState → Memory
slide_slot d s = elim (segment_of d s.seg_index) [
  | none ↦ s.mem
  | some seg ↦ add_slide d s.mem (slot_of d seg s.seg_offset)
]

-- A round of the loops over slots: the place moves on whether or not the segment exists.
unfoldable pub slide_one : Dylib → ℕ → SlideState → SlideState
slide_one d step s = record s { mem = slide_slot d s; seg_offset = sum_u64 s.seg_offset step }

unfoldable pub slide_times : Dylib → ℕ → ℕ → SlideState → SlideState
slide_times d step zero s = s
slide_times d step (suc left) s = slide_times d step left (slide_one d step s)

-- The `switch` on `op`, after `p` has passed the opcode.
unfoldable pub slide_op : Dylib → ℕ → ℕ → SlideState → Run SlideState
slide_op d op imm s =
    if op == 0x00
    then returned s
    else if op == 0x10
    then next s
    else if op == 0x20
    then uleb_operand s.p (λ v q. next (record s { p = q; seg_index = some imm; seg_offset = v }))
    else if op == 0x30
    then uleb_operand s.p (λ v q. next (record s { p = q; seg_offset = sum_u64 s.seg_offset v }))
    else if op == 0x40
    then next (record s { seg_offset = sum_u64 s.seg_offset (imm * 8) })
    else if op == 0x50
    then next (slide_times d 8 imm s)
    else if op == 0x60
    then uleb_operand s.p (λ count q. next (slide_times d 8 count (record s { p = q })))
    else if op == 0x70
    then uleb_operand s.p (λ v q.
      next
        (record s { p = q; mem = slide_slot d s; seg_offset = sum_u64 s.seg_offset (sum_u64 8 v) }))
    else if op == 0x80
    then uleb_operand s.p (λ count q.
      uleb_operand q (λ skip q'. next (slide_times d (sum_u64 skip 8) count (record s { p = q' }))))
    else returned s

-- One round of `while (p < end)`.
unfoldable pub slide_step : Dylib → SlideState → List ℕ → Run SlideState
slide_step d s [] = returned s
slide_step d s (byte ∷ p) = slide_op d (bit_and byte 0xF0) (bit_and byte 0x0F) (record s { p = p })

-- A round takes one opcode byte at least, so a fuel of one more than their number is enough.
unfoldable pub process_dylib_rebases : Dylib → File → ℕ → ℕ → Memory → Run SlideState
process_dylib_rebases d file rebase_off rebase_size mem =
    let start : SlideState = record {
      p = bytes_at rebase_size file rebase_off;
      seg_index = none;
      seg_offset = 0;
      mem = mem;
    } in
    let run = run_loop (suc rebase_size) (λ s. slide_step d s s.p) start in
    if rebase_off == 0 || rebase_size == 0 then returned start else run
