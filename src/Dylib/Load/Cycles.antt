-- ===== src/Dylib/Load/Cycles.antt =====
-- `macho_load_dylib` of src/macho_dylib.c on libraries that depend on one another.
use mac_ify.Dylib.Commands.{File, magic_of, mh_magic_64, filetype_of, ncmds_of, first_command}
use mac_ify.Dylib.Commands.{next_command, command_at}
use mac_ify.Dylib.Depends.{dylib_dir, dep_path}
use mac_ify.Dylib.Load.{LoadedDylib, Loader, Host, Loading, stuck, after, set_slot, is_loaded}
use mac_ify.Dylib.Load.{is_dependency, dep_name_at, can_load, load_deps, put_slot, add_range}
use mac_ify.Dylib.Load.{load_mapped, load_image, load_read, macho_load_dylib, max_macho_dylibs}
use mac_ify.Dylib.Segments.{map_dylib_segments}
use mac_ify.Prelude.{ℕ, zero, suc, ◌^◌, ◌≤◌, ◌<◌, ◌≡◌, refl, ◌∙◌, arith, List}
use mac_ify.Prelude.{some, true, false, leb, Memory}

-- A library that is read and mapped whatever memory holds, and whose first dependency is the file at
-- `dep`, which can be loaded.
pub record DependsOn (h : Host) (path dep : List ℕ) : Type 0 where
  pub file : File
  pub size : ℕ
  pub k : ℕ
  pub reads : h.load_file path ≡ some (file, size)
  pub magic : magic_of file ≡ mh_magic_64
  pub is_dylib : filetype_of file ≡ 6
  pub maps : (mem : Memory) → leb (2 ^ 63) (map_dylib_segments (h.mmap mem) file mem).0 ≡ false
  pub in_file : k < ncmds_of file
  pub first_one : (i : ℕ) → i < k → is_dependency file (command_at file first_command i) ≡ false
  pub depends : is_dependency file (command_at file first_command k) ≡ true
  pub names :
      dep_path (dylib_dir path) h.prefix (dep_name_at h file (command_at file first_command k))
      ≡ dep
  pub loads : can_load h dep ≡ true

load_deps-stuck :
    (load_one : List ℕ → Loader → Loading) (h : Host) (file : File) (dir dep : List ℕ)
    (left lc k : ℕ) (st : Loader)
    → k < left
    → ((i : ℕ) → i < k → is_dependency file (command_at file lc i) ≡ false)
    → is_dependency file (command_at file lc k) ≡ true
    → dep_path dir h.prefix (dep_name_at h file (command_at file lc k)) ≡ dep
    → can_load h dep ≡ true
    → load_one dep st ≡ stuck
    → load_deps load_one h file dir left lc st ≡ stuck
unfolding load_deps after command_at
load_deps-stuck load_one h file dir dep zero lc k st lt before here name can gone =
    absurd (omega arith)
load_deps-stuck load_one h file dir dep (suc left) lc zero st lt before here name can gone =
    ground (arith, here, name, can, gone)
load_deps-stuck load_one h file dir dep (suc left) lc (suc k) st lt before here name can gone =
    ground (
      arith,
      before 0,
      load_deps-stuck load_one h file dir dep left (next_command file lc) k st (omega arith)
          (λ i below. before (suc i) (omega arith)) here name can gone,
    )

is_loaded-above :
    (n idx : ℕ) (slot : LoadedDylib) (st : Loader) (path : List ℕ)
    → n ≤ idx
    → is_loaded (set_slot idx slot st).slots n path ≡ is_loaded st.slots n path
unfolding is_loaded set_slot
is_loaded-above zero idx slot st path le = refl
is_loaded-above (suc n) idx slot st path le =
    ground (arith, is_loaded-above n idx slot st path (omega arith))

load_image-stuck :
    (load_one : List ℕ → Loader → Loading) (h : Host) (path dep : List ℕ) (st : Loader)
    (d : DependsOn h path dep)
    → ((slide : ℕ) (mem : Memory)
        → load_one dep (add_range h d.file slide (put_slot st.count path slide mem st)) ≡ stuck)
    → load_image load_one h path d.file d.size st ≡ stuck
unfolding load_image load_mapped after
load_image-stuck load_one h path dep st d gone =
    let (slide, mapped) = map_dylib_segments (h.mmap st.mem) d.file st.mem in
    let deps =
      load_deps-stuck load_one h d.file (dylib_dir path) dep (ncmds_of d.file) first_command d.k
        (add_range h d.file slide (put_slot st.count path slide mapped.mem st)) d.in_file
        d.first_one d.depends d.names d.loads (gone slide mapped.mem) in
    ground (arith, d.maps st.mem, deps)

-- Libraries of which each has another of them as its first dependency are never loaded: from a table
-- with room that has none of them, the loading of one goes on for ever, whatever the fuel. `next_of`
-- gives the dependency of each library of the set `InCycle`.
pub macho_load_dylib-cycle :
    (h : Host) (InCycle : List ℕ → Type 0) (next_of : List ℕ → List ℕ)
    → ((p : List ℕ) → InCycle p → InCycle (next_of p) × DependsOn h p (next_of p))
    → (fuel : ℕ) (path : List ℕ) (st : Loader) → InCycle path
    → st.count < max_macho_dylibs
    → ((p : List ℕ) → InCycle p → is_loaded st.slots st.count p ≡ false)
    → macho_load_dylib fuel h path st ≡ stuck
unfolding macho_load_dylib load_read add_range set_slot
macho_load_dylib-cycle h InCycle next_of cyc zero path st c room fresh = refl
macho_load_dylib-cycle h InCycle next_of cyc (suc fuel) path st c room fresh =
    let (c', d) = cyc path c in
    let image =
      load_image-stuck (λ p s. macho_load_dylib fuel h p s) h path (next_of path) st d
        (λ slide mem.
          macho_load_dylib-cycle h InCycle next_of cyc fuel (next_of path) _ c' room
            (λ p cp. is_loaded-above st.count st.count _ st p (omega arith) ∙ fresh p cp)) in
    ground (arith, fresh path c, d.reads, d.magic, d.is_dylib, image)
