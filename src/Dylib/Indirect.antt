-- ===== src/Dylib/Indirect.antt =====
-- The part of `macho_load_dylib` of src/macho_dylib.c that resolves the sections of symbol pointers
-- through the indirect symbol table.
use mac_ify.Dylib.Commands.{File, sum_u64, cmd_at, next_command, is_segment, lc_symtab}
use mac_ify.Dylib.Exports.{Symtab, no_symtab, nlist_at, n_strx_of, copied_name}
use mac_ify.Dylib.Image.{Dylib}
use mac_ify.Fixups.Bind.{strip_underscore}
use mac_ify.Prelude.{ℕ, zero, suc, ◌+◌, ◌*◌, ◌/◌, ◌%◌, ◌^◌, ◌||◌, ◌&&◌, Memory, load, store, leb}
use mac_ify.Prelude.{ltb}
use mac_ify.Prelude.{has, ◌==◌, if◌then◌else◌}

-- `symtab_off3` to `strtab_size3`, and `indirectsym_off3`, of the last commands that give them.
pub record IndirectTables : Type 0 where
  pub symtab : Symtab
  pub indirectsym_off : ℕ

unfoldable pub find_tables : File → ℕ → ℕ → IndirectTables → IndirectTables
find_tables file zero lc t = t
find_tables file (suc left) lc t =
    let symtab : Symtab = record {
      symoff = load 4 file (lc + 8);
      nsyms = load 4 file (lc + 12);
      stroff = load 4 file (lc + 16);
      strsize = load 4 file (lc + 20);
    } in
    find_tables file left (next_command file lc) (
      if cmd_at file lc == lc_symtab
      then record t { symtab = symtab }
      else if cmd_at file lc == 0x0B
      then record t { indirectsym_off = load 4 file (lc + 56) }
      else t)

-- One slot, for the symbol with the index `sym_idx`. A bound on the length of a name is `bound`.
unfoldable pub resolve_slot : Dylib → File → ℕ → Symtab → ℕ → ℕ → Memory → Memory
resolve_slot d file bound t slot sym_idx mem =
    let n_strx = n_strx_of file (nlist_at t sym_idx) in
    let addr = d.resolve (strip_underscore (copied_name bound file (t.stroff + n_strx))) in
    if has sym_idx 0x80000000 || leb t.nsyms sym_idx || leb t.strsize n_strx
    then mem
    else if addr == 0
    then mem
    else store 8 mem slot addr

-- The slots of a section from `k` on, with those left.
unfoldable pub resolve_slots : Dylib → File → ℕ → IndirectTables → ℕ → ℕ → ℕ → ℕ → Memory → Memory
resolve_slots d file bound t sec_base start_idx k zero mem = mem
resolve_slots d file bound t sec_base start_idx k (suc left) mem =
    resolve_slots d file bound t sec_base start_idx (k + 1) left (
      resolve_slot d file bound t.symtab (sum_u64 sec_base (k * 8))
        (load 4 file (t.indirectsym_off + (start_idx + k) % 2 ^ 32 * 4)) mem)

-- A section at `s`. S_NON_LAZY_SYMBOL_POINTERS is 6, S_LAZY_SYMBOL_POINTERS 7.
unfoldable pub resolve_section : Dylib → File → ℕ → IndirectTables → ℕ → Memory → Memory
resolve_section d file bound t s mem =
    let sec_type = load 4 file (s + 64) % 256 in
    let reserved1 = load 4 file (s + 68) in
    let resolved =
      resolve_slots d file bound t (sum_u64 (load 8 file (s + 32)) d.slide) reserved1 0
        (load 8 file (s + 40) / 8 % 2 ^ 32) mem in
    if (sec_type == 7 || sec_type == 6) && ltb 0 reserved1 then resolved else mem

-- The sections of a segment from `s` on, with those left.
unfoldable pub resolve_sections : Dylib → File → ℕ → IndirectTables → ℕ → ℕ → Memory → Memory
resolve_sections d file bound t s zero mem = mem
resolve_sections d file bound t s (suc left) mem =
    resolve_sections d file bound t (s + 80) left (resolve_section d file bound t s mem)

-- The commands from `lc` on, with those left.
unfoldable pub resolve_segments : Dylib → File → ℕ → IndirectTables → ℕ → ℕ → Memory → Memory
resolve_segments d file bound t zero lc mem = mem
resolve_segments d file bound t (suc left) lc mem =
    resolve_segments d file bound t left (next_command file lc) (
      if is_segment file lc
      then resolve_sections d file bound t (lc + 72) (load 4 file (lc + 64)) mem
      else mem)

unfoldable pub resolve_indirect : Dylib → File → ℕ → ℕ → ℕ → Memory → Memory
resolve_indirect d file bound ncmds lc mem =
    let t = find_tables file ncmds lc (record { symtab = no_symtab; indirectsym_off = 0 }) in
    let resolved = resolve_segments d file bound t ncmds lc mem in
    if ltb 0 t.indirectsym_off && ltb 0 t.symtab.symoff && ltb 0 t.symtab.stroff
    then resolved
    else mem
