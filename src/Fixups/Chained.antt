-- ===== src/Fixups/Chained.antt =====
-- `execute_chained_fixups` of src/fixups.c: LC_DYLD_CHAINED_FIXUPS. The file and the segments lie in
-- the one memory; pointers do not wrap around. The tracing and the dump are not modelled.
pub mod Safety
pub mod Entries
use mac_ify.Fixups.Image.{Image, add_u64, bytes_at}
use mac_ify.Fixups.Bind.{split_zero, strip_underscore}
use mac_ify.Fixups.Stubs.{Noted, note_stub}
use mac_ify.Prelude.{ℕ, zero, suc, ◌+◌, ◌-◌, ◌*◌, ◌/◌, ◌%◌, ◌^◌, List, Option, none, some, Bool}
use mac_ify.Prelude.{true, false, ◌||◌, ◌&&◌, not}
use mac_ify.Prelude.{Memory, load, store, bit_or, leb, ltb, ◌==◌, if◌then◌else◌, min}

-- Memory, the names of the stubbed symbols, and the static `load_base`.
pub record FixState : Type 0 where
  pub mem : Memory
  pub noted : Noted
  pub load_base : ℕ

-- A step whose name has no end is the last one.
abbrev pub and_then : Option FixState → (FixState → Option FixState) → Option FixState
and_then none k = none
and_then (some s) k = k s

-- What the run comes to: 0 is `true` and -1 is `false`; `none` for a name without end.
abbrev pub Fixed : Type 0
Fixed = Option (Bool × FixState)

abbrev pub to_fixed : Option FixState → Fixed
to_fixed none = none
to_fixed (some s) = some (true, s)

-- The loop over the segments goes on after 0.
abbrev pub unless_failed : Fixed → (FixState → Fixed) → Fixed
unless_failed none k = none
unless_failed (some (false, s)) k = some (false, s)
unless_failed (some (true, s)) k = k s

-- Where the tables of the fixups are: `hdr`, `imports_base`, `symbols_base`, and a bound on the
-- length of a name.
pub record Tables : Type 0 where
  pub hdr : ℕ
  pub imports_base : ℕ
  pub symbols_base : ℕ
  pub name_bound : ℕ

abbrev pub imports_count : Tables → Memory → ℕ
imports_count t mem = load 4 mem (t.hdr + 16)

-- DYLD_CHAINED_IMPORT
abbrev pub import_at : Tables → Memory → ℕ → ℕ
import_at t mem ordinal = load 4 mem (t.imports_base + ordinal * 4)

-- A rebase entry.
unfoldable pub rebase_slot : FixState → ℕ → ℕ → FixState
rebase_slot s chain_ptr value =
    let target = value % 2 ^ 36 in
    let high8 = value / 2 ^ 36 % 2 ^ 8 in
    record s {
      mem = store 8 s.mem chain_ptr (add_u64 (bit_or target (high8 * 2 ^ 43)) s.load_base);
    }

-- The special ordinals 0 and 0xFB to 0xFF mean all libraries.
unfoldable pub import_address : Image → ℕ → List ℕ → ℕ
import_address img lib_ordinal sym =
    if lib_ordinal == 0 || leb 0xFB lib_ordinal
    then img.resolve_flat sym
    else img.resolve (lib_ordinal - 1) sym

-- A bind entry whose symbol has the name `sym`.
unfoldable pub bind_slot : Image → FixState → ℕ → ℕ → ℕ → List ℕ → FixState
bind_slot img s chain_ptr addend lib_ordinal sym =
    let addr = import_address img lib_ordinal sym in
    if not (addr == 0)
    then record s { mem = store 8 s.mem chain_ptr (add_u64 addr addend) }
    else record s {
      mem = store 8 s.mem chain_ptr (add_u64 img.stub addend);
      noted = note_stub (img.copies sym) s.noted sym;
    }

-- The name of an import, `none` if it does not end within the bound.
unfoldable pub import_name : Tables → Memory → ℕ → Option (List ℕ × List ℕ)
import_name t mem name_offset =
    split_zero (bytes_at t.name_bound mem (t.symbols_base + name_offset))

unfoldable pub bind_named :
    Image → FixState → ℕ → ℕ → ℕ → Option (List ℕ × List ℕ) → Option FixState
bind_named img s chain_ptr addend lib_ordinal none = none
bind_named img s chain_ptr addend lib_ordinal (some (sym_name, rest)) =
    some (bind_slot img s chain_ptr addend lib_ordinal (strip_underscore sym_name))

-- A bind entry. An index past the imports is left as it is.
unfoldable pub bind_import : Image → Tables → FixState → ℕ → ℕ → Option FixState
bind_import img t s chain_ptr value =
    let ordinal = value % 2 ^ 24 in
    let addend = value / 2 ^ 24 % 2 ^ 8 in
    let imp_raw = import_at t s.mem ordinal in
    let name = import_name t s.mem (imp_raw / 2 ^ 9 % 2 ^ 23) in
    if leb (imports_count t s.mem) ordinal
    then some s
    else bind_named img s chain_ptr addend (imp_raw % 2 ^ 8) name

-- The body of the loop up to the test of `next`.
unfoldable pub fix_entry : Image → Tables → FixState → ℕ → Option FixState
fix_entry img t s chain_ptr =
    let value = load 8 s.mem chain_ptr in
    if value / 2 ^ 63 % 2 == 1
    then bind_import img t s chain_ptr value
    else some (rebase_slot s chain_ptr value)

-- `while (chain_iter < 16384)`, with the rounds left.
unfoldable pub walk_chain : Image → Tables → ℕ → ℕ → ℕ → FixState → Option FixState
walk_chain img t page_end zero chain_ptr s = some s
walk_chain img t page_end (suc left) chain_ptr s =
    let next = load 8 s.mem chain_ptr / 2 ^ 51 % 2 ^ 12 in
    and_then (fix_entry img t s chain_ptr) (λ s'.
      let rest = walk_chain img t page_end left (chain_ptr + next * 4) s' in
      if next == 0
      then some s'
      else if ltb page_end (chain_ptr + next * 4 + 8)
      then some s'
      else rest)

-- The slid address of the first segment that is not __PAGEZERO; `left` segments are left from `si`.
unfoldable pub first_segment : Image → ℕ → ℕ → ℕ
first_segment img si zero = 0
first_segment img si (suc left) =
    let rest = first_segment img (si + 1) left in if img.is_pagezero si then rest else img.vmaddr si

-- `if (load_base == 0)`
unfoldable pub set_load_base : Image → FixState → FixState
set_load_base img s = record s {
  load_base = if s.load_base == 0 then first_segment img 0 img.nsegments else s.load_base;
}

abbrev pub page_end_of : Image → ℕ → ℕ → ℕ → ℕ
page_end_of img seg page_base page_size =
    min (page_base + page_size) (img.vmaddr seg + img.vmsize seg)

-- A page of a segment, with its `page_start`.
unfoldable pub fix_page : Image → Tables → ℕ → ℕ → ℕ → ℕ → FixState → Option FixState
fix_page img t seg page_size page_idx page_start s =
    let page_base = img.vmaddr seg + page_idx * page_size in
    let page_end = page_end_of img seg page_base page_size in
    let chain_ptr = page_base + page_start in
    let s' = set_load_base img s in
    let walked = walk_chain img t page_end 16384 chain_ptr s' in
    if page_start == 0xFFFF
    then some s
    else if ltb page_end (chain_ptr + 8)
    then some s'
    else walked

-- The loop over the pages, with the pages left; `seg_starts` is the table of the segment.
unfoldable pub fix_pages : Image → Tables → ℕ → ℕ → ℕ → ℕ → ℕ → FixState → Option FixState
fix_pages img t seg seg_starts page_size page_idx zero s = some s
fix_pages img t seg seg_starts page_size page_idx (suc left) s =
    and_then
      (fix_page img t seg page_size page_idx (load 2 s.mem (seg_starts + 22 + page_idx * 2)) s)
      (λ s'. fix_pages img t seg seg_starts page_size (page_idx + 1) left s')

-- A segment with a table at `seg_starts`. DYLD_CHAINED_PTR_64 is 2, DYLD_CHAINED_PTR_64_OFFSET 6.
unfoldable pub fix_segment : Image → Tables → ℕ → ℕ → FixState → Fixed
fix_segment img t seg seg_starts s =
    let page_size = load 2 s.mem (seg_starts + 4) in
    let ptr_format = load 2 s.mem (seg_starts + 6) in
    let page_count = load 2 s.mem (seg_starts + 20) in
    if not (ptr_format == 2) && not (ptr_format == 6)
    then some (false, s)
    else to_fixed (fix_pages img t seg seg_starts page_size 0 page_count s)

-- The segment with the index `seg_idx`, which may have no table.
unfoldable pub fix_indexed : Image → Tables → ℕ → ℕ → FixState → Fixed
fix_indexed img t starts_base seg_idx s =
    let start = load 4 s.mem (starts_base + 4 + seg_idx * 4) in
    if start == 0 then some (true, s) else fix_segment img t seg_idx (starts_base + start) s

-- The loop over the segments, with those left.
unfoldable pub fix_segments : Image → Tables → ℕ → ℕ → ℕ → FixState → Fixed
fix_segments img t starts_base seg_idx zero s = some (true, s)
fix_segments img t starts_base seg_idx (suc left) s =
    unless_failed (fix_indexed img t starts_base seg_idx s)
      (λ s'. fix_segments img t starts_base (seg_idx + 1) left s')

-- The tables at `fixups`.
abbrev pub tables_at : Memory → ℕ → ℕ → Tables
tables_at mem fixups name_bound = record {
  hdr = fixups;
  imports_base = fixups + load 4 mem (fixups + 8);
  symbols_base = fixups + load 4 mem (fixups + 12);
  name_bound = name_bound;
}

unfoldable pub execute_chained_fixups : Image → Bool → ℕ → ℕ → ℕ → ℕ → ℕ → FixState → Fixed
execute_chained_fixups img has_chained_fixups off size file_data file_size name_bound s =
    let fixups = file_data + off in
    let starts_base = fixups + load 4 s.mem (fixups + 4) in
    let starts_count = load 4 s.mem starts_base in
    let run =
      fix_segments img (tables_at s.mem fixups name_bound) starts_base 0
        (min starts_count img.nsegments) s in
    if not has_chained_fixups || size == 0
    then some (true, s)
    else if ltb file_size ((off + size) % 2 ^ 32)
    then some (false, s)
    else if not (load 4 s.mem fixups == 0)
    then some (false, s)
    else run
