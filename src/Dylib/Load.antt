-- ===== src/Dylib/Load.antt =====
-- `macho_load_dylib` of src/macho_dylib.c: the table of the loaded libraries and the loading of one
-- with those that it depends on. What the Linux libraries that it opens add to `resolve_symbol` and
-- the messages are left out.
pub mod Cycles
pub mod Frame
use mac_ify.Dylib.Commands.{File, sum_u64, magic_of, mh_magic_64, filetype_of, ncmds_of}
use mac_ify.Dylib.Commands.{first_command, cmd_at, next_command, is_segment, vmaddr_at, vmsize_at}
use mac_ify.Dylib.Commands.{fileoff_at, filesize_at}
use mac_ify.Dylib.Segments.{Mapped, map_dylib_segments}
use mac_ify.Dylib.Exports.{Export, parse_dylib_exports, copied_name}
use mac_ify.Dylib.Image.{DylibSegment, Dylib}
use mac_ify.Dylib.Run.{Run, next, returned}
use mac_ify.Dylib.Rebases.{SlideState, process_dylib_rebases}
use mac_ify.Dylib.Binds.{DylibBindState, process_dylib_binds}
use mac_ify.Dylib.Chains.{Fixing, process_dylib_chained_fixups}
use mac_ify.Dylib.Indirect.{resolve_indirect}
use mac_ify.Dylib.Collect.{Collected, collect, find_dyld_info}
use mac_ify.Dylib.Depends.{dylib_dir, dep_path, is_ncurses_dep}
use mac_ify.Prelude.{ℕ, zero, suc, ◌+◌, ◌^◌, List, [], ◌∷◌, ◌++◌, Option, none, some, Bool, true}
use mac_ify.Prelude.{false, not, ◌&&◌, ◌||◌, Memory, load, leb, ltb, ◌==◌, length, take, codes}
use mac_ify.Prelude.{bytes_eq, contains, if◌then◌else◌}

-- An element of `g_macho_dylibs`.
pub record LoadedDylib : Type 0 where
  pub name : List ℕ
  pub slide : ℕ
  pub exports : List Export

abbrev pub max_macho_dylibs : ℕ
max_macho_dylibs = 64

-- `g_macho_dylibs`, `g_n_macho_dylibs`, memory, and the ranges of text that the shim is told.
pub record Loader : Type 0 where
  pub slots : ℕ → LoadedDylib
  pub count : ℕ
  pub mem : Memory
  pub text_ranges : List (ℕ × ℕ)

-- What the system gives: the contents of a file, `mmap` of a span, whether a file can be read, the
-- prefix, `resolve_symbol(-1, sym)` with the libraries that are loaded, the address of the stub,
-- whether the shim takes ranges of text, and a bound on the length of a name.
pub record Host : Type 0 where
  pub load_file : List ℕ → Option (File × ℕ)
  pub mmap : Memory → ℕ → Option (ℕ × Memory)
  pub is_readable : List ℕ → Bool
  pub prefix : List ℕ
  pub resolve : Loader → List ℕ → ℕ
  pub stub : ℕ
  pub takes_ranges : Bool
  pub bound : ℕ

-- The result (0 is `true`, -1 is `false`) and what is left; what C leaves undefined in the fixups, or
-- a name without end; or no value of the program, where the fuel runs out.
pub data Loading : Type 0 where
  done : Bool → Loader → Loading
  undefined : Loading
  stuck : Loading

unfoldable pub after : Loading → (Loader → Loading) → Loading
after (done rc st) k = k st
after undefined k = undefined
after stuck k = stuck

unfoldable pub set_slot : ℕ → LoadedDylib → Loader → Loader
set_slot idx slot st = record st { slots = λ i. if i == idx then slot else st.slots i }

-- `strcmp(g_macho_dylibs[i].name, path) == 0` for one of the first `n`
unfoldable pub is_loaded : (ℕ → LoadedDylib) → ℕ → List ℕ → Bool
is_loaded slots zero path = false
is_loaded slots (suc n) path = bytes_eq (slots n).name path || is_loaded slots n path

-- The first __TEXT segment with a size is told to the shim.
unfoldable pub add_text_range : File → ℕ → ℕ → ℕ → List (ℕ × ℕ) → List (ℕ × ℕ)
add_text_range file slide zero lc ranges = ranges
add_text_range file slide (suc left) lc ranges =
    let rest = add_text_range file slide left (next_command file lc) ranges in
    let start = sum_u64 (vmaddr_at file lc) slide in
    if is_segment file lc
      && bytes_eq (copied_name 16 file (lc + 8)) (codes "__TEXT")
      && ltb 0 (vmsize_at file lc)
    then (start, sum_u64 start (vmsize_at file lc)) ∷ ranges
    else rest

-- LC_LOAD_DYLIB and LC_LOAD_WEAK_DYLIB
unfoldable pub is_dependency : File → ℕ → Bool
is_dependency file lc = cmd_at file lc == 0x0C || cmd_at file lc == 0x80000018

abbrev pub dep_name_at : Host → File → ℕ → List ℕ
dep_name_at h file lc = copied_name h.bound file (lc + load 4 file (lc + 8))

-- `strstr(dep_path, ".dylib") && access(dep_path, R_OK) == 0`
unfoldable pub can_load : Host → List ℕ → Bool
can_load h path = contains (codes ".dylib") path && h.is_readable path

-- The loop over the dependencies, with the rounds left, for a function that loads one. Its result is
-- not looked at. The `continue` for libncurses leaves the command where it is.
unfoldable pub load_deps :
    (List ℕ → Loader → Loading) → Host → File → List ℕ → ℕ → ℕ → Loader → Loading
load_deps load_one h file dir zero lc st = done true st
load_deps load_one h file dir (suc left) lc st =
    let path = dep_path dir h.prefix (dep_name_at h file lc) in
    let loads = is_dependency file lc && can_load h path in
    let stays =
      is_dependency file lc
      && not (can_load h path)
      && is_ncurses_dep (h.is_readable path) (dep_name_at h file lc) in
    after (if loads then load_one path st else done true st)
      (λ st'. load_deps load_one h file dir left (if stays then lc else next_command file lc) st')

abbrev pub with_mem : Loader → Memory → Loader
with_mem st mem = record st { mem = mem }

-- The functions for the fixups return nothing but what they leave in memory.
abbrev pub after_rebases : Loader → Run SlideState → Loading
after_rebases st (next s) = stuck
after_rebases st (returned s) = done true (with_mem st s.mem)
after_rebases st mac_ify.Dylib.Run.undefined = undefined
after_rebases st mac_ify.Dylib.Run.stuck = stuck

abbrev pub after_binds : Loader → Run DylibBindState → Loading
after_binds st (next s) = stuck
after_binds st (returned s) = done true (with_mem st s.mem)
after_binds st mac_ify.Dylib.Run.undefined = undefined
after_binds st mac_ify.Dylib.Run.stuck = stuck

abbrev pub after_chains : Loader → Fixing → Loading
after_chains st none = undefined
after_chains st (some mem) = done true (with_mem st mem)

-- The opcodes of a range that is not empty.
unfoldable pub bind_range : Dylib → File → ℕ → ℕ → ℕ → Loader → Loading
bind_range d file file_size off size st =
    let bound = after_binds st (process_dylib_binds d file file_size off size st.mem) in
    if ltb 0 off && ltb 0 size then bound else done true st

-- The binds and then the lazy binds.
unfoldable pub bind_ranges : Dylib → File → ℕ → Option ℕ → Loader → Loading
bind_ranges d file file_size none st = done true st
bind_ranges d file file_size (some lc) st =
    after (bind_range d file file_size (load 4 file (lc + 16)) (load 4 file (lc + 20)) st)
      (λ st'. bind_range d file file_size (load 4 file (lc + 32)) (load 4 file (lc + 36)) st')

unfoldable pub rebase_range : Dylib → File → Collected → Loader → Loading
rebase_range d file c st =
    let rebased =
      after_rebases st (process_dylib_rebases d file c.rebase_off c.rebase_size st.mem) in
    if ltb 0 c.rebase_off && ltb 0 c.rebase_size then rebased else done true st

unfoldable pub chained_range : Host → Dylib → File → ℕ → Collected → Loader → Loading
chained_range h d file file_size c st =
    let fixed =
      after_chains st (
        process_dylib_chained_fixups d file file_size c.chained_off c.chained_size h.bound
          st.mem) in
    if ltb 0 c.chained_off && ltb 0 c.chained_size then fixed else done true st

-- All fixups of a library, in the order of the source.
unfoldable pub fix_dylib : Host → File → ℕ → ℕ → Loader → Loading
fix_dylib h file file_size slide st =
    let c =
      collect file (ncmds_of file) first_command (record {
        segs = [];
        rebase_off = 0;
        rebase_size = 0;
        chained_off = 0;
        chained_size = 0;
      }) in
    let d : Dylib = record {
      segs = c.segs;
      slide = slide;
      resolve = h.resolve st;
      stub = h.stub;
    } in
    after (rebase_range d file c st) (λ st1. after (chained_range h d file file_size c st1) (λ st2.
      after (bind_ranges d file file_size (find_dyld_info file (ncmds_of file) first_command) st2)
        (λ st3.
          done true (
            with_mem st3 (resolve_indirect d file h.bound (ncmds_of file) first_command st3.mem)))))

-- The exports of the library are put into its slot, with the slide that the slot has, and the table
-- grows by one.
unfoldable pub register_exports : File → ℕ → Loader → Loader
register_exports file idx st =
    let md = st.slots idx in
    let filled = record md { exports = parse_dylib_exports file md.slide md.exports } in
    record (set_slot idx filled st) { count = st.count + 1 }

-- After the mapping: the dependencies, the exports and the fixups.
unfoldable pub load_mapped :
    (List ℕ → Loader → Loading) → Host → List ℕ → File → ℕ → ℕ → ℕ → Loader → Loading
load_mapped load_one h path file file_size idx slide st =
    after (load_deps load_one h file (dylib_dir path) (ncmds_of file) first_command st)
      (λ st'. fix_dylib h file file_size slide (register_exports file idx st'))

-- The slot at `idx` for the path and the slide, and what the mapping leaves in memory.
abbrev pub put_slot : ℕ → List ℕ → ℕ → Memory → Loader → Loader
put_slot idx path slide mem st =
    with_mem (set_slot idx (record { name = take 255 path; slide = slide; exports = [] }) st) mem

unfoldable pub add_range : Host → File → ℕ → Loader → Loader
add_range h file slide st =
    let ranges = add_text_range file slide (ncmds_of file) first_command st.text_ranges in
    record st { text_ranges = if h.takes_ranges then ranges else st.text_ranges }

-- A file that is read, with the slot at the end of the table, which the table does not count before
-- the dependencies are loaded. A slide below 0 is a failure.
unfoldable pub load_image :
    (List ℕ → Loader → Loading) → Host → List ℕ → File → ℕ → Loader → Loading
load_image load_one h path file file_size st =
    let (slide, mapped) = map_dylib_segments (h.mmap st.mem) file st.mem in
    let loaded =
      load_mapped load_one h path file file_size st.count slide
        (add_range h file slide (put_slot st.count path slide mapped.mem st)) in
    if leb (2 ^ 63) slide then done false (put_slot st.count path 0 mapped.mem st) else loaded

-- The checks of the header. MH_DYLIB is 6.
unfoldable pub load_read :
    (List ℕ → Loader → Loading) → Host → List ℕ → Option (File × ℕ) → Loader → Loading
load_read load_one h path none st = done false st
load_read load_one h path (some (file, file_size)) st =
    let loaded = load_image load_one h path file file_size st in
    if not (magic_of file == mh_magic_64)
    then done false st
    else if not (filetype_of file == 6)
    then done false st
    else loaded

-- The fuel bounds the depth of the dependencies.
unfoldable pub macho_load_dylib : ℕ → Host → List ℕ → Loader → Loading
macho_load_dylib zero h path st = stuck
macho_load_dylib (suc fuel) h path st =
    let loaded = load_read (λ p s. macho_load_dylib fuel h p s) h path (h.load_file path) st in
    if leb max_macho_dylibs st.count
    then done false st
    else if is_loaded st.slots st.count path
    then done true st
    else loaded
