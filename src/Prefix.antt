-- ===== src/Prefix.antt =====
-- src/prefix.c: where the files of a macOS program lie. Texts are lists of bytes other than 0; the
-- environment variables are given, NULL is `none`. Setting the prefix up is calls of the system.
pub mod Places
pub mod Again
pub mod Hidden
use mac_ify.Prelude.{ℕ, ◌+◌, ◌-◌, List, [], ◌∷◌, ◌++◌, Option, none, some, Bool, true, false, ◌||◌}
use mac_ify.Prelude.{◌&&◌, not, length, take, drop, codes, bytes_eq, starts_with, is_under, ◌==◌}
use mac_ify.Prelude.{if◌then◌else◌}

-- The variables MACIFY_PREFIX, HOME and MACIFY_JAILED of the environment.
pub record Environment : Type 0 where
  pub macify_prefix : Option (List ℕ)
  pub home : Option (List ℕ)
  pub is_jailed : Bool

-- PATH_MAX
abbrev pub path_max : ℕ
path_max = 4096

-- `snprintf(out, out_size, …)`, for a size that is not 0: what `out` holds.
abbrev pub printed : ℕ → List ℕ → List ℕ
printed out_size text = take (out_size - 1) text

unfoldable pub home_prefix : Option (List ℕ) → List ℕ
home_prefix none = printed path_max (codes "/tmp" ++ codes "/.macify")
home_prefix (some home) = printed path_max (home ++ codes "/.macify")

-- `env_prefix && env_prefix[0]`
unfoldable pub prefix_of : Option (List ℕ) → Option (List ℕ) → List ℕ
prefix_of none home = home_prefix home
prefix_of (some []) home = home_prefix home
prefix_of (some (c ∷ rest)) home = printed path_max (c ∷ rest)

-- The static `macify_prefix`, `none` before it is initialized.
unfoldable pub macify_get_prefix : Environment → Option (List ℕ) → List ℕ
macify_get_prefix env (some prefix) = prefix
macify_get_prefix env none = prefix_of env.macify_prefix env.home

unfoldable pub is_absolute : List ℕ → Bool
is_absolute [] = false
is_absolute (c ∷ rest) = c == b'/'

-- The branch for a path that does not begin with a slash: `~/Library` is looked for.
unfoldable pub translate_relative : List ℕ → Option (List ℕ) → List ℕ → ℕ → Option (List ℕ)
translate_relative prefix none path out_size = none
translate_relative prefix (some home) path out_size =
    let rest = drop (length home + 1) path in
    if starts_with (home ++ codes "/") path
      && (starts_with (codes "Library/") rest || bytes_eq rest (codes "Library"))
    then some (printed out_size (prefix ++ drop (length home) path))
    else none

-- `strncmp(path, "/dev/", 5) == 0 || strcmp(path, "/dev") == 0`
unfoldable pub is_host : List ℕ → List ℕ → Bool
is_host path dir = starts_with (dir ++ codes "/") path || bytes_eq path dir

unfoldable pub passes_through : List ℕ → Bool
passes_through path =
    is_host path (codes "/dev")
    || is_host path (codes "/proc")
    || is_host path (codes "/sys")
    || is_host path (codes "/tmp")

-- The branches after the jail, with the prefix.
unfoldable pub translate_in : List ℕ → Option (List ℕ) → List ℕ → ℕ → Option (List ℕ)
translate_in prefix home path out_size =
    if length prefix == 0
    then none
    else if is_under prefix path
    then some (printed out_size path)
    else if not (is_absolute path)
    then translate_relative prefix home path out_size
    else if passes_through path
    then none
    else some (printed out_size (prefix ++ path))

-- `none` is -1. Neither pointer is NULL; `prefix` is the static one.
unfoldable pub macify_translate_path : Environment → Option (List ℕ) → List ℕ → ℕ → Option (List ℕ)
macify_translate_path env prefix path out_size =
    if out_size == 0
    then none
    else if env.is_jailed
    then some (printed out_size path)
    else translate_in (macify_get_prefix env prefix) env.home path out_size

abbrev pub hidden_dirs : List (List ℕ)
hidden_dirs = codes ".config" ∷ codes ".cache" ∷ codes ".local" ∷ codes ".pki" ∷ codes ".gnupg" ∷ []

-- The loop over `hidden_dirs`.
unfoldable pub is_hidden : List (List ℕ) → List ℕ → Bool
is_hidden [] rest = false
is_hidden (dir ∷ dirs) rest = is_under dir rest || is_hidden dirs rest

-- `strncmp(path, home, home_len) != 0 || path[home_len] != '/'`; the trace is left out.
unfoldable pub hides_below : Option (List ℕ) → List ℕ → Bool
hides_below none path = false
hides_below (some home) path =
    starts_with (home ++ codes "/") path && is_hidden hidden_dirs (drop (length home + 1) path)

unfoldable pub macify_should_hide_path : Environment → List ℕ → Bool
macify_should_hide_path env path = hides_below env.home path
