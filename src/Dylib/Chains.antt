-- ===== src/Dylib/Chains.antt =====
-- `process_dylib_chained_fixups` of src/macho_dylib.c. A name of an import without end is `none`.
-- Pointers into the segments do not wrap around beyond the slide; the messages are left out.
pub mod Safety
pub mod Entries
use mac_ify.Dylib.Commands.{File, sum_u64}
use mac_ify.Dylib.Image.{Dylib, DylibSegment, get_elem?}
use mac_ify.Fixups.Bind.{split_zero, strip_underscore}
use mac_ify.Fixups.Image.{bytes_at}
use mac_ify.Prelude.{ℕ, zero, suc, ◌+◌, ◌*◌, ◌/◌, ◌%◌, ◌^◌, List, [], ◌∷◌, Option, none, some}
use mac_ify.Prelude.{length}
use mac_ify.Prelude.{Bool, not, ◌&&◌, ◌||◌, Memory, load, store, bit_or, min, ltb, leb, ◌==◌}
use mac_ify.Prelude.{if◌then◌else◌}

-- Memory after a step, `none` if a name has no end.
abbrev pub Fixing : Type 0
Fixing = Option Memory

abbrev pub then_fix : Fixing → (Memory → Fixing) → Fixing
then_fix none k = none
then_fix (some mem) k = k mem

-- `fixup_data`, `imports_base` and `symbols_base`, which are NULL or offsets in the file, the number
-- of the imports, and a bound on the length of a name.
pub record Imports : Type 0 where
  pub imports_base : ℕ
  pub symbols_base : Option ℕ
  pub count : ℕ
  pub bound : ℕ

-- `sym_name`; "" without a table of names
unfoldable pub dylib_import_name : File → Imports → ℕ → Option (List ℕ × List ℕ)
dylib_import_name file t name_off = elim t.symbols_base [
  | none ↦ some ([], [])
  | some base ↦ split_zero (bytes_at t.bound file (base + name_off))
]

-- A bind entry whose symbol has the name `sym`: the stub is stored without the addend.
unfoldable pub bind_sym : Dylib → Memory → ℕ → ℕ → List ℕ → Memory
bind_sym d mem chain_ptr addend sym =
    let addr = d.resolve sym in
    store 8 mem chain_ptr (if addr == 0 then d.stub else sum_u64 addr addend)

abbrev pub bind_named_sym : Dylib → Memory → ℕ → ℕ → Option (List ℕ × List ℕ) → Fixing
bind_named_sym d mem chain_ptr addend none = none
bind_named_sym d mem chain_ptr addend (some (name, rest)) =
    some (bind_sym d mem chain_ptr addend (strip_underscore name))

-- A bind entry: 16 bits of ordinal and 16 bits of addend.
unfoldable pub bind_entry : Dylib → File → Imports → Memory → ℕ → ℕ → Fixing
bind_entry d file t mem chain_ptr value =
    let ordinal = value % 2 ^ 16 in
    let addend = value / 2 ^ 16 % 2 ^ 16 in
    let imp_raw = load 4 file (t.imports_base + ordinal * 4) in
    let bound =
      bind_named_sym d mem chain_ptr addend (dylib_import_name file t (imp_raw / 2 ^ 9 % 2 ^ 23)) in
    if ltb ordinal t.count then bound else some mem

-- A rebase entry: 43 bits of target, and 8 bits above them.
unfoldable pub rebase_entry : ℕ → Memory → ℕ → ℕ → Memory
rebase_entry load_base mem chain_ptr value =
    let target = value % 2 ^ 43 in
    let high8 = value / 2 ^ 43 % 2 ^ 8 in
    store 8 mem chain_ptr (sum_u64 (bit_or (high8 * 2 ^ 43) target) load_base)

-- The body of the loop up to the test of `next`.
unfoldable pub chain_entry : Dylib → File → Imports → ℕ → Memory → ℕ → Fixing
chain_entry d file t load_base mem chain_ptr =
    let value = load 8 mem chain_ptr in
    if value / 2 ^ 63 % 2 == 1
    then bind_entry d file t mem chain_ptr value
    else some (rebase_entry load_base mem chain_ptr value)

-- `while (chain_iter < 16384)`, with the rounds left.
unfoldable pub follow_chain : Dylib → File → Imports → ℕ → ℕ → ℕ → ℕ → Memory → Fixing
follow_chain d file t load_base page_end zero chain_ptr mem = some mem
follow_chain d file t load_base page_end (suc left) chain_ptr mem =
    let step = load 8 mem chain_ptr / 2 ^ 51 % 2 ^ 12 in
    then_fix (chain_entry d file t load_base mem chain_ptr) (λ mem'.
      let rest = follow_chain d file t load_base page_end left (chain_ptr + step * 4) mem' in
      if step == 0
      then some mem'
      else if ltb page_end (chain_ptr + step * 4 + 8)
      then some mem'
      else rest)

-- `segs[si].vmaddr + slide`
abbrev pub start_of : Dylib → DylibSegment → ℕ
start_of d seg = sum_u64 seg.vmaddr d.slide

-- A page of a segment, with its `page_start`.
unfoldable pub chain_page : Dylib → File → Imports → ℕ → DylibSegment → ℕ → ℕ → ℕ → Memory → Fixing
chain_page d file t load_base seg page_size pi page_start mem =
    let page_base = start_of d seg + pi * page_size in
    let page_end = min (page_base + page_size) (start_of d seg + seg.vmsize) in
    let chain_ptr = page_base + page_start in
    let followed = follow_chain d file t load_base page_end 16384 chain_ptr mem in
    if page_start == 0xFFFF || ltb page_end (chain_ptr + 8) then some mem else followed

-- The loop over the pages, with the pages left; `seg_starts` is the table of the segment.
unfoldable pub chain_pages :
    Dylib → File → Imports → ℕ → DylibSegment → ℕ → ℕ → ℕ → ℕ → Memory → Fixing
chain_pages d file t load_base seg seg_starts page_size pi zero mem = some mem
chain_pages d file t load_base seg seg_starts page_size pi (suc left) mem =
    then_fix
      (chain_page d file t load_base seg page_size pi (load 2 file (seg_starts + 22 + pi * 2)) mem)
      (λ mem'. chain_pages d file t load_base seg seg_starts page_size (pi + 1) left mem')

-- The segment with the index `si`, if the table has an entry for it.
unfoldable pub chain_segment : Dylib → File → Imports → ℕ → ℕ → ℕ → DylibSegment → Memory → Fixing
chain_segment d file t load_base starts_base si seg mem =
    let seg_offset = load 4 file (starts_base + 4 + si * 4) in
    let seg_starts = starts_base + seg_offset in
    if seg_offset == 0
    then some mem
    else chain_pages d file t load_base seg seg_starts (load 2 file (seg_starts + 4)) 0
        (load 2 file (seg_starts + 20)) mem

-- The loop over the segments from `si` on, as long as the table has `left` more.
unfoldable pub chain_segments :
    Dylib → File → Imports → ℕ → ℕ → ℕ → ℕ → List DylibSegment → Memory → Fixing
chain_segments d file t load_base starts_base si left [] mem = some mem
chain_segments d file t load_base starts_base si zero (seg ∷ segs) mem = some mem
chain_segments d file t load_base starts_base si (suc left) (seg ∷ segs) mem =
    then_fix (chain_segment d file t load_base starts_base si seg mem)
      (λ mem'. chain_segments d file t load_base starts_base (si + 1) left segs mem')

-- The slid address of the first segment that is not __PAGEZERO.
unfoldable pub first_start : Dylib → List DylibSegment → ℕ
first_start d [] = 0
first_start d (seg ∷ segs) =
    let rest = first_start d segs in
    if seg.vmaddr == 0 && ltb 0x80000000 seg.vmsize then rest else start_of d seg

-- `if (load_base == 0) load_base = slide;`
unfoldable pub chain_base : Dylib → ℕ
chain_base d = let base = first_start d d.segs in if base == 0 then d.slide else base

abbrev pub imports_at : File → ℕ → ℕ → Imports
imports_at file fixups bound = record {
  imports_base = fixups + load 4 file (fixups + 8);
  symbols_base =
      if load 4 file (fixups + 12) == 0 then none else some (fixups + load 4 file (fixups + 12));
  count = load 4 file (fixups + 16);
  bound = bound;
}

-- The sum of offset and size is one of `uint32_t`.
unfoldable pub process_dylib_chained_fixups : Dylib → File → ℕ → ℕ → ℕ → ℕ → Memory → Fixing
process_dylib_chained_fixups d file file_size off size bound mem =
    let starts_base = off + load 4 file (off + 4) in
    let run =
      chain_segments d file (imports_at file off bound) (chain_base d) starts_base 0
        (load 4 file starts_base) d.segs mem in
    if off == 0 || size == 0
    then some mem
    else if ltb file_size ((off + size) % 2 ^ 32)
    then some mem
    else if not (load 4 file off == 0)
    then some mem
    else run
