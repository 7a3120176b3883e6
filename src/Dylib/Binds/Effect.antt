-- ===== src/Dylib/Binds/Effect.antt =====
-- What the bind opcodes of src/macho_dylib.c do to memory and to the opcodes that follow.
use mac_ify.Dylib.Commands.{sum_u64}
use mac_ify.Dylib.Image.{Dylib, DylibSegment, segment_of, slot_of}
use mac_ify.Dylib.Binds.{DylibBindState, symbol_address, write_bind, bind_or_stub, bind_or_leave}
use mac_ify.Dylib.Binds.{bind_here, bind_add_uleb}
use mac_ify.Dylib.Binds.{bind_add_scaled, dylib_bind_op, dylib_bind_step}
use mac_ify.Dylib.Run.{next, ◌>>=◌}
use mac_ify.Prelude.{ℕ, ◌+◌, ◌*◌, ◌^◌, ◌<◌, ◌≡◌, refl, ap, arith, List}
use mac_ify.Prelude.{◌∷◌, none, some, load, load-store, bit_and, if◌then◌else◌}
use mac_ify.Prelude.{◌==◌}

-- In a segment that exists, DO_BIND and DO_BIND_ADD_ADDR_IMM_SCALED bind a symbol that is found alike:
-- the slot holds its address plus the addend. A symbol that is not found leaves the stub in the slot
-- of the former, without the addend, and the slot of the latter as it was.
bind_slots-found :
    (d : Dylib) (s : DylibBindState) (seg : DylibSegment) (imm : ℕ)
    → segment_of d s.seg_index ≡ some seg
    → d.stub < 2 ^ 64
    → (s1 s2 : DylibBindState) × (dylib_bind_op d 0x90 imm s ≡ next s1)
      × (dylib_bind_op d 0xB0 imm s ≡ next s2)
      × (load 8 s1.mem (slot_of d seg s.seg_offset)
          ≡ (if symbol_address d s == 0 then d.stub else sum_u64 (symbol_address d s) s.addend))
      × (load 8 s2.mem (slot_of d seg s.seg_offset) ≡ (
          if symbol_address d s == 0
          then load 8 s.mem (slot_of d seg s.seg_offset)
          else sum_u64 (symbol_address d s) s.addend))
      × (s1.seg_offset ≡ sum_u64 s.seg_offset 8)
      × (s2.seg_offset ≡ sum_u64 s.seg_offset (imm * 8 + 8))
unfolding dylib_bind_op bind_here bind_add_scaled bind_or_stub bind_or_leave write_bind
bind_slots-found d s seg imm at small = (
  record s { mem = bind_or_stub d s seg; seg_offset = sum_u64 s.seg_offset 8 },
  record s { mem = bind_or_leave d s seg; seg_offset = sum_u64 s.seg_offset (imm * 8 + 8) },
  rw at,
  rw at,
  ground (
    arith,
    load-store 8 s.mem (slot_of d seg s.seg_offset) d.stub (omega arith),
    load-store 8 s.mem (slot_of d seg s.seg_offset) (sum_u64 (symbol_address d s) s.addend)
        (omega arith),
  ),
  ground (
    arith,
    load-store 8 s.mem (slot_of d seg s.seg_offset) (sum_u64 (symbol_address d s) s.addend)
        (omega arith),
  ),
  refl,
  refl,
)

bind_add_uleb-gone :
    (d : Dylib) (s : DylibBindState) (imm : ℕ)
    → segment_of d s.seg_index ≡ none
    → dylib_bind_op d 0xA0 imm s ≡ next s
unfolding dylib_bind_op bind_add_uleb
bind_add_uleb-gone d s imm gone = rw gone

-- Where the segment does not exist, DO_BIND_ADD_ADDR_ULEB changes nothing, and its operand is run as
-- opcodes: the next round begins with the first byte of the operand.
bind_add_uleb-operand :
    (d : Dylib) (s : DylibBindState) (imm : ℕ) (b : ℕ) (p : List ℕ)
    → segment_of d s.seg_index ≡ none
    → s.p ≡ b ∷ p
    → (dylib_bind_op d 0xA0 imm s >>= λ s'. dylib_bind_step d s' s'.p)
      ≡ dylib_bind_op d (bit_and b 0xF0) (bit_and b 0x0F) (record s { p = p })
unfolding dylib_bind_step bind_add_uleb
bind_add_uleb-operand d s imm b p gone e =
    rw (bind_add_uleb-gone d s imm gone) (ap (dylib_bind_step d s) e)
