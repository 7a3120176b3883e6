-- ===== src/Tests/Fixed.antt =====
-- Runs of the fixups of src/macho_dylib.c.
use mac_ify.Dylib.Commands.{sum_u64}
use mac_ify.Dylib.Image.{Dylib, get_elem?, segment_of, slot_of}
use mac_ify.Dylib.Chains.{process_dylib_chained_fixups}
use mac_ify.Dylib.Chains.Safety.{Keeps, process_dylib_chained_fixups-Keeps}
use mac_ify.Dylib.Rebases.{slide_op}
use mac_ify.Dylib.Rebases.Agrees.{Follows, to_slide_state, rebase_op-Follows}
use mac_ify.Fixups.Rebase.{rebase_op}
use mac_ify.Prelude.{ℕ, zero, suc, ◌+◌, ◌*◌, ◌^◌, ◌<◌, ◌≡◌, refl, arith, List, [], ◌∷◌, none, some}
use mac_ify.Prelude.{Memory, load, inl, entry, bit_and, ◌==◌, if◌then◌else◌}
use mac_ify.Tests.Data.{test_image, rebase_at, no_memory}

-- The segments of `test_image`, before the slide. Symbols with the name "b" are missing.
abbrev test_dylib : Dylib
test_dylib = record {
  segs =
      record { vmaddr = 0xB000; vmsize = 0x1000; fileoff = 0; filesize = 0x1000 }
      ∷ record { vmaddr = 0x1B000; vmsize = 0x1000; fileoff = 0x1000; filesize = 0x1000 }
      ∷ [];
  slide = 0x5000;
  resolve = λ name. if mac_ify.Prelude.bytes_eq name (b'b' ∷ []) then 0 else 0x7100;
  stub = 0x6000;
}

test_segments :
    (i : ℕ)
    → i < 2
    → (seg : mac_ify.Dylib.Image.DylibSegment) × (get_elem? test_dylib.segs i ≡ some seg)
      × ((if i == 0 then 0x10000 else 0x20000) ≡ sum_u64 seg.vmaddr 0x5000)
test_segments zero h = (_, refl, refl)
test_segments (suc zero) h = (_, refl, refl)
test_segments (suc (suc i)) h = absurd (omega arith)

-- DO_REBASE_IMM_TIMES for two slots.
rebase_op-Follows_example :
    Follows
      (rebase_op test_image 0x50 2 rebase_at)
      (slide_op test_dylib 0x50 2 (to_slide_state rebase_at))
rebase_op-Follows_example =
    rebase_op-Follows test_image test_dylib (record { slides = refl; segments = test_segments })
      0x50 2 rebase_at (omega arith) refl

process_dylib_chained_fixups-Keeps_example :
    Keeps 0x9000 0 (process_dylib_chained_fixups test_dylib no_memory 4096 8 64 16 no_memory)
process_dylib_chained_fixups-Keeps_example =
    process_dylib_chained_fixups-Keeps test_dylib no_memory 4096 8 64 16 0x9000 no_memory
      (inl (omega arith), (inl (omega arith), tt))
