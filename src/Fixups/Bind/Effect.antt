-- ===== src/Fixups/Bind/Effect.antt =====
-- What the bind opcodes of src/fixups.c do to memory.
use mac_ify.Prelude.{ℕ, zero, suc, ◌+◌, ◌-◌, ◌^◌, ◌≤◌, ◌<◌, ◌≡◌, ◌≢◌, refl, arith, Memory, load}
use mac_ify.Prelude.{false, load-store, pos}
use mac_ify.Fixups.Bind.{BindState, Flow, next, returned, ◌>>=◌, strip_underscore, dylib_index}
use mac_ify.Fixups.Bind.{address_of, noted_after, slot_written, do_bind, bind_times}
use mac_ify.Fixups.Bind.{execute_binds, bind_start, bind_loop, execute_lazy_binds, Ranges}
use mac_ify.Fixups.Image.{Image, add_u64, target_of, bytes_at}
use mac_ify.Fixups.Stubs.{Noted}

-- Where the library and the segment exist and the type is a pointer, a bind succeeds, its slot
-- holds the symbol's address plus the addend afterwards, and the offset passes the slot.
pub do_bind-slot :
    (img : Image) (s : BindState) (n : ℕ)
    → s.ordinal ≡ pos n
    → 1 ≤ n
    → n ≤ img.ndylibs
    → s.seg_index < img.nsegments
    → s.bind_type ≡ 1
    → (s' : BindState) × (do_bind img s ≡ next s')
      × (load 8 s'.mem (target_of img s.seg_index s.seg_offset)
          ≡ add_u64 (address_of img (n - 1) (strip_underscore s.symbol_name)) s.addend)
      × (s'.seg_offset ≡ add_u64 s.seg_offset 8)
unfolding do_bind dylib_index slot_written
do_bind-slot img s n e lo hi seg ty = (
  record s {
    noted = noted_after img (n - 1) s;
    mem = slot_written img (n - 1) s;
    seg_offset = add_u64 s.seg_offset 8;
  },
  rw e (ground arith),
  load-store 8 s.mem _ _ (omega arith),
  refl,
)

-- `count` binds, each followed by the skip of `skip` bytes, as separate opcodes would do them.
unfoldable pub bind_each : Image → ℕ → ℕ → BindState → Flow
bind_each img skip zero s = next s
bind_each img skip (suc left) s =
    do_bind img s
    >>= (λ s1. bind_each img skip left (record s1 { seg_offset = add_u64 s1.seg_offset skip }))

do_bind_found :
    (img : Image) (s : BindState) (n : ℕ)
    → s.ordinal ≡ pos n
    → 1 ≤ n
    → n ≤ img.ndylibs
    → s.seg_index < img.nsegments
    → s.bind_type ≡ 1
    → img.resolve (n - 1) (strip_underscore s.symbol_name) ≢ 0
    → do_bind img s
      ≡ next (record s { mem = slot_written img (n - 1) s; seg_offset = add_u64 s.seg_offset 8 })
unfolding do_bind dylib_index noted_after
do_bind_found img s n e lo hi seg ty found = rw e (ground arith)

skipped_slot : (a skip : ℕ) → add_u64 (add_u64 a 8) skip ≡ add_u64 a (8 + skip)
skipped_slot a skip = omega arith

-- Where the library and the segment exist, the symbol is found and the type is a pointer, the opcode
-- for many slots does what as many single binds do.
bind_times-bind_each :
    (img : Image) (skip count : ℕ) (s : BindState) (n : ℕ)
    → s.ordinal ≡ pos n
    → 1 ≤ n
    → n ≤ img.ndylibs
    → s.seg_index < img.nsegments
    → s.bind_type ≡ 1
    → img.resolve (n - 1) (strip_underscore s.symbol_name) ≢ 0
    → bind_times img skip count s ≡ bind_each img skip count s
unfolding bind_times bind_each dylib_index
bind_times-bind_each img skip zero s n e lo hi seg ty found = refl
bind_times-bind_each img skip (suc left) s n e lo hi seg ty found =
    rw (do_bind_found img s n e lo hi seg ty found, skipped_slot s.seg_offset skip, e)
      (ground (
        arith,
        bind_times-bind_each img skip left
            (record s {
              mem = slot_written img (n - 1) s;
              seg_offset = add_u64 s.seg_offset (8 + skip);
            })
            n e lo hi seg ty found,
      ))

-- Where the library exists and the segment does not, a single bind is refused and leaves memory as
-- it is, while the opcode for many slots writes the slot all the same and does not note a symbol
-- that it stubs.
pub bind_times_unchecked :
    (img : Image) (skip : ℕ) (s : BindState) (n : ℕ)
    → s.ordinal ≡ pos n
    → 1 ≤ n
    → n ≤ img.ndylibs
    → img.nsegments ≤ s.seg_index
    → (s1 s2 : BindState) × (do_bind img s ≡ returned false s1)
      × (s1.mem ≡ s.mem)
      × (bind_times img skip 1 s ≡ next s2)
      × (s2.mem ≡ slot_written img (n - 1) s)
      × (s2.noted ≡ s.noted)
unfolding bind_times do_bind dylib_index
bind_times_unchecked img skip s n e lo hi seg = (
  record s { noted = noted_after img (n - 1) s },
  record s { mem = slot_written img (n - 1) s; seg_offset = add_u64 s.seg_offset (8 + skip) },
  rw e (ground arith),
  refl,
  rw e (ground arith),
  refl,
  refl,
)

-- Opcodes, not none, that begin past the end of the file are interpreted, if the sum of their
-- offset and size is 2 ^ 32 or more and exceeds it by no more than the size of the file.
bounds_check_wraps :
    (img : Image) (off size file_data file_size : ℕ) (mem : Memory) (noted : Noted)
    → size ≢ 0
    → file_size < off
    → 2 ^ 32 ≤ off + size
    → off + size ≤ 2 ^ 32 + file_size
    → execute_binds img off size file_data file_size mem noted
      ≡ bind_loop (suc size) img (bind_start (bytes_at size mem (file_data + off)) mem noted)
unfolding execute_binds
bounds_check_wraps img off size file_data file_size mem noted some_opcodes past wraps small =
    ground arith

-- Opcodes, not none, that end past the end of the file are refused, and memory stays, if the sum
-- of their offset and size is below 2 ^ 32.
pub bounds_check_exact :
    (img : Image) (off size file_data file_size : ℕ) (mem : Memory) (noted : Noted)
    → size ≢ 0
    → off + size < 2 ^ 32
    → file_size < off + size
    → (s : BindState) × (execute_binds img off size file_data file_size mem noted
        ≡ returned false s)
      × (s.mem ≡ mem)
unfolding execute_binds bind_start
bounds_check_exact img off size file_data file_size mem noted some_opcodes fits past =
    (bind_start (bytes_at size mem (file_data + off)) mem noted, ground arith, refl)

-- The lazy opcodes are run as the others would be from their range, and the globals keep their values.
pub execute_lazy_binds_lem :
    (img : Image) (r : Ranges) (file_data file_size : ℕ) (mem : Memory) (noted : Noted)
    → r.lazy_bind_size ≢ 0
    → execute_lazy_binds img r file_data file_size mem noted
      ≡ (execute_binds img r.lazy_bind_off r.lazy_bind_size file_data file_size mem noted, r)
unfolding execute_lazy_binds
execute_lazy_binds_lem img r file_data file_size mem noted h = ground arith
