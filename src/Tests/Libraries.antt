-- ===== src/Tests/Libraries.antt =====
-- Runs of the loader of src/macho_dylib.c.
use mac_ify.Dylib.Commands.{File, command_at, is_segment, first_command}
use mac_ify.Dylib.Segments.{span_of, Mapped, map_dylib_segments, is_skipped}
use mac_ify.Dylib.Exports.{Symtab, Export, macho_dylib_lookup, find_symtab}
use mac_ify.Dylib.Exports.{export_of, is_exported, copied_name, parse_dylib_exports, find_in_dylibs}
use mac_ify.Dylib.Exports.Lookup.{Named}
use mac_ify.Dylib.Exports.Parsed.{exports_from, parsed-found}
use mac_ify.Dylib.Depends.{dep_path}
use mac_ify.Dylib.Load.{Loader, Host, stuck, is_dependency, is_loaded, can_load, macho_load_dylib}
use mac_ify.Dylib.Load.Cycles.{DependsOn, macho_load_dylib-cycle}
use mac_ify.Dylib.Load.Frame.{Framed, macho_load_dylib-Framed}
use mac_ify.Dylib.Segments.Contents.{IsWalked, map_dylib_segments-byte}
use mac_ify.Prelude.{ℕ, ◌≡◌, ◌≤◌, zero, suc, refl, arith, List, [], ◌∷◌, Option, some, true}
use mac_ify.Prelude.{false, entry, codes, starts_with, contains, ◌<◌, Memory}
use mac_ify.Prelude.{load, inr, ◌+◌, ◌*◌, ◌%◌, ◌^◌}
use mac_ify.Tests.Data.{no_memory}

-- A library with one segment of 16 bytes at 0x1000, of which the file holds the first four.
abbrev one_segment : File
one_segment = entry (
    (0, 0xCF)
    ∷ (1, 0xFA)
    ∷ (2, 0xED)
    ∷ (3, 0xFE)
    ∷ (12, 6)
    ∷ (16, 1)
    ∷ (32, 0x19)
    ∷ (36, 72)
    ∷ (57, 0x10)
    ∷ (64, 16)
    ∷ (80, 4)
    ∷ [])

abbrev at_0x7000 : ℕ → Option (ℕ × Memory)
at_0x7000 span = some (0x7000, no_memory)

IsWalked-first : (i : ℕ) → i ≤ 0 → IsWalked one_segment (command_at one_segment first_command i)
unfolding entry load is_segment is_skipped command_at
IsWalked-first zero h = refl
IsWalked-first (suc i) h = absurd (omega arith)

map_dylib_segments-byte_example :
    (s : Mapped) × (map_dylib_segments at_0x7000 one_segment no_memory ≡ (0x6000, s))
    × (s.mem 0x7002 ≡ 0xED)
unfolding entry load span_of is_segment is_skipped command_at
map_dylib_segments-byte_example =
    map_dylib_segments-byte at_0x7000 one_segment no_memory no_memory 0x1000 0x1010 0x7000 0 2
      0x7002 refl refl (λ e. absurd (omega arith)) refl (omega arith) IsWalked-first refl
      (record { no_wrap = omega arith; small = omega arith }) (omega arith) refl
      (λ i above below. absurd (omega arith))

-- A file with a symbol table at 64 and the name "_a" at 101.
abbrev symbol_file : File
symbol_file = entry (
    (0, 0xCF)
    ∷ (1, 0xFA)
    ∷ (2, 0xED)
    ∷ (3, 0xFE)
    ∷ (16, 1)
    ∷ (32, 2)
    ∷ (36, 24)
    ∷ (40, 64)
    ∷ (44, 1)
    ∷ (48, 100)
    ∷ (52, 4)
    ∷ (64, 1)
    ∷ (68, 0x0F)
    ∷ (72, 0x10)
    ∷ (101, b'_')
    ∷ (102, b'a')
    ∷ [])

abbrev symbol_table : Symtab
symbol_table = record { symoff = 64; nsyms = 1; stroff = 100; strsize = 4 }

parsed-found_example :
    (j : ℕ) × (e' : Export) × (j < 1)
    × (export_of symbol_file symbol_table 0x6000 j ≡ some e')
    × Named (codes "_a") e'.name
    × (macho_dylib_lookup (parse_dylib_exports symbol_file 0x6000 [] ∷ []) (codes "_a")
        ≡ some ((load 8 symbol_file (64 + j * 16 + 8) + 0x6000) % 2 ^ 64))
unfolding exports_from export_of is_exported load entry copied_name find_symtab find_in_dylibs
parsed-found_example =
    parsed-found symbol_file symbol_table 0x6000 0 (record { name = codes "a"; addr = 0x6010 })
      (codes "_a") [] [] refl refl (omega arith) (omega arith) (omega arith) refl (inr refl) refl

abbrev empty_loader : Loader
empty_loader = record {
  slots = λ i. record { name = []; slide = 0; exports = [] };
  count = 0;
  mem = no_memory;
  text_ranges = [];
}

-- A library whose second command makes it depend on itself.
abbrev self_file : File
self_file = entry (
    (0, 0xCF)
    ∷ (1, 0xFA)
    ∷ (2, 0xED)
    ∷ (3, 0xFE)
    ∷ (12, 6)
    ∷ (16, 2)
    ∷ (32, 0x19)
    ∷ (36, 72)
    ∷ (57, 0x10)
    ∷ (64, 16)
    ∷ (104, 0x0C)
    ∷ (108, 40)
    ∷ (112, 24)
    ∷ (128, b'/')
    ∷ (129, b'a')
    ∷ (130, b'.')
    ∷ (131, b'd')
    ∷ (132, b'y')
    ∷ (133, b'l')
    ∷ (134, b'i')
    ∷ (135, b'b')
    ∷ [])

abbrev self_host : Host
self_host = record {
  load_file = λ path. some (self_file, 144);
  mmap = λ mem span. some (0x7000, mem);
  is_readable = λ path. true;
  prefix = codes "/p";
  resolve = λ st name. 0;
  stub = 0x6000;
  takes_ranges = true;
  bound = 16;
}

macho_load_dylib-Framed_example :
    Framed 0 (empty_loader.slots) (macho_load_dylib 3 self_host (codes "/a.dylib") empty_loader)
macho_load_dylib-Framed_example =
    macho_load_dylib-Framed 3 self_host (codes "/a.dylib") empty_loader

not_before :
    (i : ℕ) → i < 1 → is_dependency self_file (command_at self_file first_command i) ≡ false
unfolding entry load is_dependency command_at
not_before zero h = refl
not_before (suc i) h = absurd (omega arith)

DependsOn-self : (path : List ℕ) → DependsOn self_host path (codes "/a.dylib")
unfolding entry load map_dylib_segments span_of is_segment is_dependency command_at dep_path
    copied_name starts_with contains can_load
DependsOn-self path = record {
  file = self_file;
  size = 144;
  k = 1;
  reads = refl;
  magic = refl;
  is_dylib = refl;
  maps = λ mem. refl;
  in_file = omega arith;
  first_one = not_before;
  depends = refl;
  names = refl;
  loads = refl;
}

macho_load_dylib-cycle_example :
    macho_load_dylib 100 self_host (codes "/a.dylib") empty_loader ≡ stuck
unfolding is_loaded
macho_load_dylib-cycle_example =
    macho_load_dylib-cycle self_host (λ p. Unit {0}) (λ p. codes "/a.dylib")
      (λ p c. (tt, DependsOn-self p)) 100 (codes "/a.dylib") empty_loader tt (omega arith)
      (λ p c. refl)
