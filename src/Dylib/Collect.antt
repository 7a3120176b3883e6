-- ===== src/Dylib/Collect.antt =====
-- What `macho_load_dylib` of src/macho_dylib.c takes from the load commands for the fixups.
use mac_ify.Dylib.Commands.{File}
use mac_ify.Dylib.Commands.{cmd_at, next_command, is_segment, vmaddr_at, vmsize_at}
use mac_ify.Dylib.Commands.{fileoff_at, filesize_at}
use mac_ify.Dylib.Image.{DylibSegment}
use mac_ify.Prelude.{ℕ, zero, suc, ◌+◌, List, [], ◌∷◌, ◌++◌, Option, none, some, Bool}
use mac_ify.Prelude.{◌&&◌, ◌||◌, load, ltb, ◌==◌, length}
use mac_ify.Prelude.{if◌then◌else◌}

abbrev pub max_dylib_segs : ℕ
max_dylib_segs = 16

-- What the loop over the commands collects.
pub record Collected : Type 0 where
  pub segs : List DylibSegment
  pub rebase_off : ℕ
  pub rebase_size : ℕ
  pub chained_off : ℕ
  pub chained_size : ℕ

-- LC_DYLD_INFO and LC_DYLD_INFO_ONLY
unfoldable pub is_dyld_info : File → ℕ → Bool
is_dyld_info file lc = cmd_at file lc == 0x80000022 || cmd_at file lc == 0x22

unfoldable pub and_segment : File → ℕ → List DylibSegment → List DylibSegment
and_segment file lc segs =
    let seg : DylibSegment = record {
      vmaddr = vmaddr_at file lc;
      vmsize = vmsize_at file lc;
      fileoff = fileoff_at file lc;
      filesize = filesize_at file lc;
    } in
    if ltb 0 (vmsize_at file lc) && ltb (length segs) max_dylib_segs
    then segs ++ (seg ∷ [])
    else segs

unfoldable pub collect : File → ℕ → ℕ → Collected → Collected
collect file zero lc c = c
collect file (suc left) lc c = collect file left (next_command file lc) (
    if is_segment file lc
    then record c { segs = and_segment file lc c.segs }
    else if is_dyld_info file lc
    then record c { rebase_off = load 4 file (lc + 8); rebase_size = load 4 file (lc + 12) }
    else if cmd_at file lc == 0x80000034
    then record c { chained_off = load 4 file (lc + 8); chained_size = load 4 file (lc + 12) }
    else c)

-- The command that gives the bind opcodes, the first of its kind, or `none`.
unfoldable pub find_dyld_info : File → ℕ → ℕ → Option ℕ
find_dyld_info file zero lc = none
find_dyld_info file (suc left) lc =
    let rest = find_dyld_info file left (next_command file lc) in
    if is_dyld_info file lc then some lc else rest
