-- ===== src/Tests/Loading.antt =====
-- Runs of src/main.c, with the segments of src/segments.c.
use mac_ify.Dylib.Commands.{File}
use mac_ify.Loader.Entry.{Files, macify_resolve_entry, hop_loop, macify_entry_is_macho, entry_argv}
use mac_ify.Loader.Entry.{first_file, is_macho_magic, magic_word, macify_entry_parse_shebang}
use mac_ify.Loader.Entry.{parse_line, skip_blanks, first_line, host_of, in_prefix, before_space}
use mac_ify.Loader.Entry.Exec.{Execs, guest, macify_resolve_entry-Execs}
use mac_ify.Loader.Fat.{be32, fat_loop, is_past_end}
use mac_ify.Loader.Fat.Slices.{Taken, Wraps, fat_loop-within}
use mac_ify.Loader.Options.{Options, parse_options, is_option, start_of, Leads}
use mac_ify.Loader.Options.{parse_options-Leads}
use mac_ify.Loader.Segments.{Host, Walk, load_program, walk_commands, scan_span, choose_slide}
use mac_ify.Loader.Segments.{slide_from, widen, is_spanned, is_pagezero_at, name_is}
use mac_ify.Loader.Segments.{map_segment_64, walk_command, open_segment, fill_segment}
use mac_ify.Loader.Segments.{is_truncated, add_sections, segment_entry, initial_prot}
use mac_ify.Loader.Segments.Region.{load_program-region}
use mac_ify.Loader.Segments.Tables.{IsValid, walk_commands-IsValid}
use mac_ify.Prefix.{Environment, macify_translate_path, translate_in, macify_get_prefix, prefix_of}
use mac_ify.Prefix.{is_absolute, home_prefix, is_host, passes_through, translate_relative}
use mac_ify.Prelude.{◌≡◌, ◌≤◌, ◌+◌, ◌⊎◌, inr, refl, arith, [], ◌∷◌, some, none, true}
use mac_ify.Prelude.{false, codes, bytes_eq, starts_with, is_under, entry, load, has, if◌then◌else◌}

abbrev no_options : Options
no_options = record { verbose = false; no_fast_path = false }

-- `-v -- -x a`
parse_options-Leads_example :
    Leads (codes "-x") (codes "a" ∷ []) (codes "-v" ∷ codes "--" ∷ codes "-x" ∷ codes "a" ∷ [])
unfolding parse_options is_option start_of starts_with bytes_eq
parse_options-Leads_example =
    parse_options-Leads no_options (record { verbose = true; no_fast_path = false }) (codes "-x")
      (codes "a" ∷ []) (codes "-v" ∷ codes "--" ∷ codes "-x" ∷ codes "a" ∷ []) refl

-- "/s" is a script for "/b", which is a program.
abbrev host_files : Files
host_files = record {
  exists = λ path. bytes_eq path (codes "/s");
  content = λ path.
      if bytes_eq path (codes "/s")
      then some (codes "#! /b x")
      else some (0xCF ∷ 0xFA ∷ 0xED ∷ 0xFE ∷ []);
}

abbrev no_prefix : Environment
no_prefix = record { macify_prefix = some (codes "/p"); home = none; is_jailed = false }

macify_resolve_entry-Execs_example :
    Execs host_files
      (guest no_prefix none)
      (codes "/b")
      (codes "/b" ∷ codes "/s" ∷ codes "a" ∷ [])
      5
      (codes "/s")
      (codes "/s")
      (codes "s" ∷ codes "a" ∷ [])
unfolding macify_resolve_entry hop_loop macify_entry_is_macho entry_argv bytes_eq first_file
    is_macho_magic magic_word macify_entry_parse_shebang parse_line skip_blanks first_line host_of
    in_prefix macify_translate_path translate_in macify_get_prefix prefix_of is_under before_space
    is_absolute home_prefix is_host passes_through translate_relative starts_with
macify_resolve_entry-Execs_example =
    macify_resolve_entry-Execs host_files no_prefix none (codes "/s") (codes "s" ∷ codes "a" ∷ [])
      (omega arith)

-- A universal file with one entry: 16 bytes from 64 on.
abbrev universal : File
universal = entry ((7, 2) ∷ (28, 1) ∷ (31, 7) ∷ (39, 64) ∷ (43, 16) ∷ [])

fat_loop-within_example :
    Taken universal 2 (record { base = 64; size = 16 }) (record { base = 0; size = 80 })
    × ((64 + 16 ≤ 0 + 80) ⊎ Wraps universal 2 (record { base = 0; size = 80 }))
unfolding fat_loop be32 entry is_past_end
fat_loop-within_example =
    fat_loop-within 2 universal 0 2 (record { base = 0; size = 80 })
      (record { base = 64; size = 16 }) refl refl

-- A position-independent program with a segment of 16 bytes at 0x1000, of which the file has four.
abbrev program : File
program = entry (
    (0, 0xCF)
    ∷ (1, 0xFA)
    ∷ (2, 0xED)
    ∷ (3, 0xFE)
    ∷ (12, 2)
    ∷ (16, 1)
    ∷ (20, 72)
    ∷ (26, 0x20)
    ∷ (32, 0x19)
    ∷ (36, 72)
    ∷ (57, 0x10)
    ∷ (64, 16)
    ∷ (80, 4)
    ∷ [])

abbrev kernel : Host
kernel = record {
  reserve = λ size. some 0x7000;
  reserve_at = λ start size. true;
  mprotect = λ start size prot. true;
  map_fixed = λ start size prot mem. none;
}

abbrev nothing_mapped : Walk
nothing_mapped = record {
  mapping = record { segments = []; sections = []; mem = λ x. 9 };
  entry_rip = 0;
  entryoff = none;
}

abbrev mapped : Walk
mapped = record {
  mapping = record {
    segments = segment_entry program 0x6000 32 ∷ [];
    sections = [];
    mem = fill_segment program 0 0x6000 32 (λ x. 9);
  };
  entry_rip = 0;
  entryoff = none;
}

load_program-region_example : fill_segment program 0 0x6000 32 (λ x. 9) 0x7010 ≡ 9
unfolding entry load has load_program scan_span widen is_spanned is_pagezero_at name_is
    walk_commands walk_command map_segment_64 open_segment is_truncated add_sections segment_entry
    initial_prot choose_slide slide_from
load_program-region_example =
    load_program-region kernel program 0 100 0x7000 0x7010 nothing_mapped mapped refl
      (λ a n p. refl) ((λ spanned. record { no_wrap = omega arith; small = omega arith }), tt)
      (omega arith) (omega arith) refl (omega arith) (inr (omega arith)) refl

walk_commands-IsValid_example : IsValid mapped.mapping
unfolding entry load scan_span walk_commands walk_command map_segment_64 open_segment is_truncated
    add_sections is_pagezero_at name_is
walk_commands-IsValid_example =
    walk_commands-IsValid 1 kernel program 0 100 0x6000 104 32 nothing_mapped mapped
      (record { few_segments = omega arith; few_sections = omega arith }) refl
