-- ===== src/Dylib/Exports.antt =====
-- `parse_dylib_exports` and `macho_dylib_lookup` of src/macho_dylib.c: the exported symbols of the
-- loaded libraries. Names are byte lists without the final 0.
pub mod Lookup
pub mod Parsed
use mac_ify.Dylib.Commands.{File, sum_u64, magic_of, mh_magic_64, ncmds_of, first_command, cmd_at}
use mac_ify.Dylib.Commands.{next_command, lc_symtab}
use mac_ify.Prelude.{ℕ, zero, suc, ◌+◌, ◌*◌, List, [], ◌∷◌, ◌++◌, Option, none, some, length}
use mac_ify.Prelude.{Bool, true, false, not, ◌&&◌, ◌||◌, load, bit_and, ltb, leb, ◌==◌, bytes_eq}
use mac_ify.Prelude.{if◌then◌else◌}

-- An element of `exports`.
pub record Export : Type 0 where
  pub name : List ℕ
  pub addr : ℕ

abbrev pub max_dylib_syms : ℕ
max_dylib_syms = 16384

-- What the function takes from LC_SYMTAB.
pub record Symtab : Type 0 where
  pub symoff : ℕ
  pub nsyms : ℕ
  pub stroff : ℕ
  pub strsize : ℕ

abbrev pub no_symtab : Symtab
no_symtab = record { symoff = 0; nsyms = 0; stroff = 0; strsize = 0 }

-- The first LC_SYMTAB, with the commands left.
unfoldable pub find_symtab : File → ℕ → ℕ → Symtab
find_symtab file zero lc = no_symtab
find_symtab file (suc left) lc =
    let rest = find_symtab file left (next_command file lc) in
    if cmd_at file lc == lc_symtab
    then record {
      symoff = load 4 file (lc + 8);
      nsyms = load 4 file (lc + 12);
      stroff = load 4 file (lc + 16);
      strsize = load 4 file (lc + 20);
    }
    else rest

-- `strncpy(dst, name, n)`, up to the 0: what is copied of a C string.
unfoldable pub copied_name : ℕ → File → ℕ → List ℕ
copied_name zero file p = []
copied_name (suc n) file p =
    let rest = copied_name n file (p + 1) in if file p == 0 then [] else file p ∷ rest

-- nlist_64
abbrev pub nlist_at : Symtab → ℕ → ℕ
nlist_at t i = t.symoff + i * 16

abbrev pub n_strx_of : File → ℕ → ℕ
n_strx_of file nl = load 4 file nl

abbrev pub n_type_of : File → ℕ → ℕ
n_type_of file nl = file (nl + 4)

abbrev pub n_value_of : File → ℕ → ℕ
n_value_of file nl = load 8 file (nl + 8)

-- The tests on the symbol's type and value: N_TYPE and N_SECT are 0x0e, N_EXT is 1.
unfoldable pub is_exported : File → Symtab → ℕ → Bool
is_exported file t i =
    let nl = nlist_at t i in
    bit_and (n_type_of file nl) 0x0e == 0x0e
    && not (bit_and (n_type_of file nl) 0x01 == 0)
    && not (n_value_of file nl == 0)
    && ltb (n_strx_of file nl) t.strsize
    && not (file (t.stroff + n_strx_of file nl) == 0)

-- One symbol: what is stored of it, without a leading underscore, or `none` for `continue`.
unfoldable pub export_of : File → Symtab → ℕ → ℕ → Option Export
export_of file t slide i =
    let name = t.stroff + n_strx_of file (nlist_at t i) in
    if is_exported file t i
    then some (record {
      name = copied_name 255 file (if file name == b'_' then name + 1 else name);
      addr = sum_u64 (n_value_of file (nlist_at t i)) slide;
    })
    else none

abbrev pub and_export : List Export → Option Export → List Export
and_export exports none = exports
and_export exports (some e) = exports ++ (e ∷ [])

-- The loop over the symbols from `i` on, with those left.
unfoldable pub exports_loop : File → Symtab → ℕ → ℕ → ℕ → List Export → List Export
exports_loop file t slide zero i exports = exports
exports_loop file t slide (suc left) i exports =
    let rest =
      exports_loop file t slide left (i + 1) (and_export exports (export_of file t slide i)) in
    if ltb (length exports) max_dylib_syms then rest else exports

unfoldable pub parse_dylib_exports : File → ℕ → List Export → List Export
parse_dylib_exports file slide exports =
    let t = find_symtab file (ncmds_of file) first_command in
    if not (magic_of file == mh_magic_64)
    then exports
    else if t.symoff == 0 || t.nsyms == 0
    then exports
    else exports_loop file t slide t.nsyms 0 exports

-- `sym[0] == '_' && strcmp(name, sym + 1) == 0`
unfoldable pub eq_unstripped : List ℕ → List ℕ → Bool
eq_unstripped name [] = false
eq_unstripped name (c ∷ rest) = c == b'_' && bytes_eq name rest

-- The loop over the exports of one library. In the second search only equal names count.
unfoldable pub find_export : (List ℕ → Bool) → List Export → Option ℕ
find_export wanted [] = none
find_export wanted (e ∷ exports) =
    let rest = find_export wanted exports in if wanted e.name then some e.addr else rest

-- The loop over the libraries.
unfoldable pub find_in_dylibs : (List ℕ → Bool) → List (List Export) → Option ℕ
find_in_dylibs wanted [] = none
find_in_dylibs wanted (exports ∷ dylibs) =
    let rest = find_in_dylibs wanted dylibs in
    elim (find_export wanted exports) [ some addr ↦ some addr | none ↦ rest ]

abbrev pub matches_first : List ℕ → List ℕ → Bool
matches_first sym name = bytes_eq name sym || eq_unstripped name sym

unfoldable pub has_underscore : List ℕ → Bool
has_underscore [] = false
has_underscore (c ∷ rest) = c == b'_'

-- The second search, with `_` before a name that does not fill the buffer of 256 bytes.
unfoldable pub find_underscored : List (List Export) → List ℕ → Option ℕ
find_underscored dylibs sym =
    if not (has_underscore sym) && ltb (length sym) 255
    then find_in_dylibs (λ name. bytes_eq name (b'_' ∷ sym)) dylibs
    else none

-- `none` is NULL.
unfoldable pub macho_dylib_lookup : List (List Export) → List ℕ → Option ℕ
macho_dylib_lookup dylibs sym = elim (find_in_dylibs (matches_first sym) dylibs) [
  | some addr ↦ some addr
  | none ↦ find_underscored dylibs sym
]
