-- ===== src/Dylib/Segments.antt =====
-- `map_dylib_segments` of src/macho_dylib.c. `mmap` is a parameter: the address of the region that it
-- reserves for a span, or `none` for MAP_FAILED; memory is that after the call.
pub mod Contents
use mac_ify.Dylib.Commands.{File, sum_u64, magic_of, mh_magic_64, ncmds_of, first_command}
use mac_ify.Dylib.Commands.{is_segment, vmaddr_at, vmsize_at, fileoff_at, filesize_at, initprot_at}
use mac_ify.Dylib.Commands.{next_command}
use mac_ify.Prelude.{ℕ, zero, suc, ◌+◌, ◌-◌, ◌*◌, ◌/◌, ◌%◌, ◌^◌, List, [], ◌∷◌, Option, none, some}
use mac_ify.Prelude.{Bool, not, ◌&&◌, ◌||◌, Memory, has, bit_or, ltb, leb, ◌==◌, if◌then◌else◌}
use mac_ify.Prelude.{translate_bits}

-- `memcpy(dst, file_data + src, n)` and `memset(dst, 0, n)`
unfoldable pub copy_file : ℕ → File → ℕ → Memory → ℕ → Memory
copy_file n file src mem dst x =
    if leb dst x && ltb x (dst + n) then file (src + (x - dst)) else mem x

unfoldable pub clear : ℕ → Memory → ℕ → Memory
clear n mem dst x = if leb dst x && ltb x (dst + n) then 0 else mem x

-- A call of `mprotect`.
pub record Protect : Type 0 where
  pub address : ℕ
  pub size : ℕ
  pub prot : ℕ

-- Memory, and the calls of `mprotect`, the last one first.
pub record Mapped : Type 0 where
  pub mem : Memory
  pub protects : List Protect

-- The first pass: the lowest and the highest address of the segments, with the commands left.
abbrev pub counts_for_span : File → ℕ → Bool
counts_for_span file lc =
    is_segment file lc
    && ltb 0 (vmsize_at file lc)
    && not (vmaddr_at file lc == 0 && ltb 0x80000000 (vmsize_at file lc))

unfoldable pub span_of : File → ℕ → ℕ → ℕ × ℕ → ℕ × ℕ
span_of file zero lc (lo, hi) = (lo, hi)
span_of file (suc left) lc (lo, hi) =
    let start = vmaddr_at file lc in
    let stop = sum_u64 (vmaddr_at file lc) (vmsize_at file lc) in
    span_of file left (next_command file lc) (
      if counts_for_span file lc
      then (if ltb start lo then start else lo, if ltb hi stop then stop else hi)
      else (lo, hi))

-- VM_PROT_READ, VM_PROT_WRITE and VM_PROT_EXECUTE, and PROT_READ, PROT_WRITE and PROT_EXEC.
abbrev pub prot_rows : List (ℕ × ℕ)
prot_rows = (1, 1) ∷ (2, 2) ∷ (4, 4) ∷ []

-- `(map_size + 4095) & ~4095UL`
abbrev pub page_rounded : ℕ → ℕ
page_rounded size = sum_u64 size 4095 / 4096 * 4096

-- The body for a segment that is not skipped.
unfoldable pub map_segment : File → ℕ → ℕ → Mapped → Mapped
map_segment file slide seg s =
    let target = sum_u64 (vmaddr_at file seg) slide in
    let size = page_rounded (vmsize_at file seg) in
    let filesize = filesize_at file seg in
    let copied =
      if ltb 0 filesize
      then copy_file filesize file (fileoff_at file seg) s.mem target
      else s.mem in
    record {
      mem =
          if ltb filesize (vmsize_at file seg)
          then clear (vmsize_at file seg - filesize) copied (sum_u64 target filesize)
          else copied;
      protects =
          record {
            address = target;
            size = size;
            prot = translate_bits prot_rows (initprot_at file seg) 0;
          }
          ∷ record { address = target; size = size; prot = 3 }
          ∷ s.protects;
    }

-- `if (seg->vmsize == 0) continue;` and the one for __PAGEZERO
unfoldable pub is_skipped : File → ℕ → Bool
is_skipped file seg =
    vmsize_at file seg == 0 || (vmaddr_at file seg == 0 && leb 0x80000000 (vmsize_at file seg))

-- The second pass, with the rounds left. `continue` leaves `lc` where it is.
unfoldable pub map_pass : File → ℕ → ℕ → ℕ → Mapped → Mapped
map_pass file slide zero lc s = s
map_pass file slide (suc left) lc s =
    let skipped = is_segment file lc && is_skipped file lc in
    map_pass file slide left (if skipped then lc else next_command file lc)
      (if is_segment file lc && not (is_skipped file lc) then map_segment file slide lc s else s)

-- `(int64_t)(uintptr_t)base - (int64_t)lo`
abbrev pub slide_of : ℕ → ℕ → ℕ
slide_of base lo = (base + 2 ^ 64 - lo) % 2 ^ 64

-- The result is the slide as a pattern of 64 bits, or that of -1.
unfoldable pub map_dylib_segments : (ℕ → Option (ℕ × Memory)) → File → Memory → ℕ × Mapped
map_dylib_segments mmap file mem =
    let failed : ℕ × Mapped = (2 ^ 64 - 1, record { mem = mem; protects = [] }) in
    let (lo, hi) = span_of file (ncmds_of file) first_command (2 ^ 64 - 1, 0) in
    let span = (hi + 2 ^ 64 - lo) % 2 ^ 64 in
    if not (magic_of file == mh_magic_64)
    then failed
    else if lo == 2 ^ 64 - 1
    then failed
    else elim (mmap span) [
      | none ↦ failed
      | some (base, mem') ↦
          let slide = slide_of base lo in
          (
            slide,
            map_pass file slide (ncmds_of file) first_command
                (record { mem = mem'; protects = [] }),
          )
    ]
