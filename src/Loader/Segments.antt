-- ===== src/Loader/Segments.antt =====
-- `map_segment` of src/segments.c, and the parts of `main` in src/main.c that reserve the memory of a
-- program, map its segments and find its entry. A file is a memory; `base` is where the program's slice of
-- it begins. The other load commands, which load libraries, are not modelled. Messages are left out.
pub mod Tables
pub mod Region
use mac_ify.Dylib.Commands.{File, sum_u64, lc_segment_64, cmd_at, cmdsize_at, next_command}
use mac_ify.Dylib.Commands.{vmaddr_at, vmsize_at, fileoff_at, filesize_at, initprot_at}
use mac_ify.Dylib.Exports.{copied_name}
use mac_ify.Dylib.Segments.{copy_file, clear, page_rounded, prot_rows, slide_of}
use mac_ify.Prelude.{ℕ, zero, suc, ◌+◌, ◌-◌, ◌*◌, ◌^◌, List, [], ◌∷◌, ◌++◌, Option, none, some}
use mac_ify.Prelude.{Bool, true, false, ◌&&◌, ◌||◌, not, Memory, load, has, translate_bits, codes}
use mac_ify.Prelude.{length, ltb, leb, ◌==◌, if◌then◌else◌}
use mac_ify.Syscall.Patcher.{LoadedSection, LoadedSegment}

-- `strcmp(p, text) == 0`
unfoldable pub name_is : File → ℕ → List ℕ → Bool
name_is file p [] = file p == 0
name_is file p (c ∷ text) = file p == c && name_is file (p + 1) text

unfoldable pub is_pagezero_at : File → ℕ → Bool
is_pagezero_at file seg = name_is file (seg + 8) (codes "__PAGEZERO")

-- A segment that counts for the span.
unfoldable pub is_spanned : File → ℕ → Bool
is_spanned file lc =
    cmd_at file lc == lc_segment_64 && not (is_pagezero_at file lc) && ltb 0 (vmsize_at file lc)

unfoldable pub widen : File → ℕ → ℕ × ℕ → ℕ × ℕ
widen file lc (lo, hi) =
    let start = vmaddr_at file lc in
    let stop = sum_u64 start (vmsize_at file lc) in
    if is_spanned file lc
    then (if ltb start lo then start else lo, if ltb hi stop then stop else hi)
    else (lo, hi)

-- The scan of `main`, with the commands left, for the lowest and the highest address.
unfoldable pub scan_span : ℕ → File → ℕ → ℕ → ℕ × ℕ → ℕ × ℕ
scan_span zero file end lc span = span
scan_span (suc left) file end lc span =
    let rest = scan_span left file end (next_command file lc) (widen file lc span) in
    if leb (lc + 8) end && not (cmdsize_at file lc == 0) then rest else span

abbrev pub no_span : ℕ × ℕ
no_span = (2 ^ 64 - 1, 0)

-- `mmap` of a region without access, at any address or at one (MAP_FIXED), and `mprotect` and `mmap` with
-- MAP_FIXED of a segment: the memory after it. `none` and `false` are failures.
pub record Host : Type 0 where
  pub reserve : ℕ → Option ℕ
  pub reserve_at : ℕ → ℕ → Bool
  pub mprotect : ℕ → ℕ → ℕ → Bool
  pub map_fixed : ℕ → ℕ → ℕ → Memory → Option Memory

unfoldable pub slide_from : Host → ℕ × ℕ → ℕ
slide_from host (lo, hi) = elim (host.reserve (hi - lo)) [ none ↦ 0 | some base ↦ slide_of base lo ]

-- `g_slide`. MH_PIE is 0x200000.
unfoldable pub choose_slide : Host → Bool → ℕ × ℕ → ℕ
choose_slide host is_pie (lo, hi) =
    if lo == 2 ^ 64 - 1 || leb hi lo
    then 0
    else if is_pie
    then slide_from host (lo, hi)
    else if host.reserve_at lo (hi - lo)
    then 0
    else slide_from host (lo, hi)

-- MAX_SEGMENTS and MAX_SECTIONS
abbrev pub max_segments : ℕ
max_segments = 32

abbrev pub max_sections : ℕ
max_sections = 64

-- What `g_sections` has of a section besides what the patcher reads.
pub record SectionEntry : Type 0 where
  pub section : LoadedSection
  pub sectname : List ℕ
  pub offset : ℕ
  pub reserved1 : ℕ
  pub reserved2 : ℕ

-- `g_segments`, `g_sections` and memory.
pub record Mapping : Type 0 where
  pub segments : List LoadedSegment
  pub sections : List SectionEntry
  pub mem : Memory

-- `section_64`
unfoldable pub section_at : File → ℕ → ℕ → SectionEntry
section_at file slide p = record {
  section = record {
    segname = copied_name 15 file (p + 16);
    addr = sum_u64 (load 8 file (p + 32)) slide;
    size = load 8 file (p + 40);
    flags = load 4 file (p + 64);
  };
  sectname = copied_name 15 file p;
  offset = load 4 file (p + 48);
  reserved1 = load 4 file (p + 68);
  reserved2 = load 4 file (p + 72);
}

-- The loop over the sections, with the rounds left.
unfoldable pub add_sections : ℕ → File → ℕ → ℕ → Mapping → Option Mapping
add_sections zero file slide p s = some s
add_sections (suc left) file slide p s =
    let rest =
      add_sections left file slide (p + 80)
        (record s { sections = s.sections ++ section_at file slide p ∷ [] }) in
    if leb max_sections (length s.sections) then none else rest

-- PROT_READ | PROT_WRITE, and PROT_EXEC for code.
unfoldable pub initial_prot : File → ℕ → ℕ
initial_prot file seg = if has (initprot_at file seg) 4 then 7 else 3

unfoldable pub pagezero_entry : File → ℕ → LoadedSegment
pagezero_entry file seg = record {
  name = copied_name 15 file (seg + 8);
  vmaddr = vmaddr_at file seg;
  vmsize = vmsize_at file seg;
  prot = 0;
  target_prot = 0;
  is_pagezero = true;
}

unfoldable pub segment_entry : File → ℕ → ℕ → LoadedSegment
segment_entry file slide seg = record {
  name = copied_name 15 file (seg + 8);
  vmaddr = sum_u64 (vmaddr_at file seg) slide;
  vmsize = vmsize_at file seg;
  prot = initial_prot file seg;
  target_prot = translate_bits prot_rows (initprot_at file seg) 0;
  is_pagezero = false;
}

-- The segment's memory with access.
unfoldable pub open_segment : Host → File → ℕ → ℕ → Memory → Option Memory
open_segment host file slide seg mem =
    let target = sum_u64 (vmaddr_at file seg) slide in
    let size = page_rounded (vmsize_at file seg) in
    if host.mprotect target size (initial_prot file seg)
    then some mem
    else host.map_fixed target size (initial_prot file seg) mem

-- `memcpy` and `memset`
unfoldable pub fill_segment : File → ℕ → ℕ → ℕ → Memory → Memory
fill_segment file base slide seg mem =
    let target = sum_u64 (vmaddr_at file seg) slide in
    let filesize = filesize_at file seg in
    let copied = copy_file filesize file (base + fileoff_at file seg) mem target in
    if ltb filesize (vmsize_at file seg)
    then clear (vmsize_at file seg - filesize) copied (sum_u64 target filesize)
    else copied

-- `seg->filesize > 0 && seg->fileoff + seg->filesize > file_size`
unfoldable pub is_truncated : File → ℕ → ℕ → Bool
is_truncated file file_size seg =
    ltb 0 (filesize_at file seg)
    && ltb file_size (sum_u64 (fileoff_at file seg) (filesize_at file seg))

-- `map_segment`: `none` is -1.
unfoldable pub map_segment_64 : Host → File → ℕ → ℕ → ℕ → ℕ → Mapping → Option Mapping
map_segment_64 host file base file_size slide seg s =
    if leb max_segments (length s.segments)
    then none
    else if vmsize_at file seg == 0
    then some s
    else if is_pagezero_at file seg
    then some (record s { segments = s.segments ++ pagezero_entry file seg ∷ [] })
    else elim (open_segment host file slide seg s.mem) [
      | none ↦ none
      | some mem ↦
          if is_truncated file file_size seg
          then none
          else add_sections (load 4 file (seg + 64)) file slide (seg + 72) (record {
            segments = s.segments ++ segment_entry file slide seg ∷ [];
            sections = s.sections;
            mem = fill_segment file base slide seg mem;
          })
    ]

-- The mapping, `g_entry_rip`, and `main_entryoff` if there is one.
pub record Walk : Type 0 where
  pub mapping : Mapping
  pub entry_rip : ℕ
  pub entryoff : Option ℕ

-- LC_UNIXTHREAD is 5, with x86_THREAD_STATE64 (4) and 42 words, of which rip is the 17th; LC_MAIN is
-- 0x80000028.
unfoldable pub set_entry : File → ℕ → ℕ → Walk → Walk
set_entry file slide lc w =
    if cmd_at file lc == 5
    then (if load 4 file (lc + 8) == 4 && load 4 file (lc + 12) == 42
        then record w { entry_rip = sum_u64 (load 8 file (lc + 144)) slide }
        else w)
    else if cmd_at file lc == 0x80000028
    then record w { entryoff = some (load 8 file (lc + 8)) }
    else w

unfoldable pub walk_command : Host → File → ℕ → ℕ → ℕ → ℕ → Walk → Option Walk
walk_command host file base file_size slide lc w =
    if cmd_at file lc == lc_segment_64
    then elim (map_segment_64 host file base file_size slide lc w.mapping) [
      | none ↦ none
      | some mapping ↦ some (record w { mapping = mapping })
    ]
    else some (set_entry file slide lc w)

-- The walk over the load commands up to `end`, with the commands left; `none` is the exit of `main`.
unfoldable pub walk_commands : ℕ → Host → File → ℕ → ℕ → ℕ → ℕ → ℕ → Walk → Option Walk
walk_commands zero host file base file_size slide end lc w = some w
walk_commands (suc left) host file base file_size slide end lc w =
    if not (leb (lc + 8) end)
    then some w
    else if cmdsize_at file lc == 0 || ltb end (next_command file lc)
    then none
    else elim (walk_command host file base file_size slide lc w) [
      | none ↦ none
      | some w' ↦ walk_commands left host file base file_size slide end (next_command file lc) w'
    ]

-- The parts together: the program's slice begins with its header.
unfoldable pub load_program : Host → File → ℕ → ℕ → Walk → Option Walk
load_program host file base file_size w =
    let ncmds = load 4 file (base + 16) in
    let end = base + 32 + load 4 file (base + 20) in
    let span = scan_span ncmds file end (base + 32) no_span in
    let slide = choose_slide host (has (load 4 file (base + 24)) 0x200000) span in
    walk_commands ncmds host file base file_size slide end (base + 32) w
