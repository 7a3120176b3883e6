-- ===== src/Dylib/Depends.antt =====
-- The part of `macho_load_dylib` of src/macho_dylib.c that finds the libraries that a library depends
-- on. Texts are cut to the buffer of 4096 bytes.
use mac_ify.Prefix.{printed}
use mac_ify.Prelude.{ℕ, List, [], ◌∷◌, ◌++◌, Bool, true, false, not, ◌&&◌, codes, drop}
use mac_ify.Prelude.{starts_with, contains, ◌==◌, if◌then◌else◌}

abbrev pub path_size : ℕ
path_size = 4096

abbrev pub or_else : Bool × List ℕ → List ℕ → List ℕ
or_else (true, dir) other = dir
or_else (false, dir) other = other

-- Up to the last slash, if there is one: `*strrchr(dir, '/') = '\0'`.
unfoldable pub before_slash : List ℕ → Bool × List ℕ
before_slash [] = (false, [])
before_slash (c ∷ rest) =
    let (found, dir) = before_slash rest in if found then (true, c ∷ dir) else (c == b'/', [])

-- `dylib_dir`
unfoldable pub dylib_dir : List ℕ → List ℕ
dylib_dir path = or_else (before_slash (printed path_size path)) (codes ".")

-- `dep_path`, with the directory of the library and the prefix.
unfoldable pub dep_path : List ℕ → List ℕ → List ℕ → List ℕ
dep_path dir prefix dep_name = printed path_size (
    if starts_with (codes "@loader_path/") dep_name
    then dir ++ codes "/" ++ drop 13 dep_name
    else if starts_with (codes "@rpath/") dep_name
    then dir ++ codes "/" ++ drop 7 dep_name
    else if contains (codes "@@HOMEBREW_CELLAR@@") dep_name
    then prefix ++ codes "/usr/local/Cellar" ++ drop 19 dep_name
    else if contains (codes "@@HOMEBREW_PREFIX@@") dep_name
    then prefix ++ codes "/usr/local" ++ drop 19 dep_name
    else if starts_with (codes "/usr/local/") dep_name
    then prefix ++ codes "/usr/local/" ++ drop 11 dep_name
    else dep_name)

-- The branch for a library of the system that is not a file of the prefix, up to the one of its
-- cases that ends with `continue`.
unfoldable pub is_ncurses_dep : Bool → List ℕ → Bool
is_ncurses_dep readable dep_name =
    starts_with (codes "/") dep_name
    && not (contains (codes "@@HOMEBREW") dep_name)
    && not (contains (codes "@rpath") dep_name)
    && not (contains (codes "@loader_path") dep_name)
    && not readable
    && not (contains (codes "libz") dep_name)
    && not (contains (codes "libresolv") dep_name)
    && not (contains (codes "libiconv") dep_name)
    && contains (codes "libncurses") dep_name
