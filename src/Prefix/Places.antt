-- ===== src/Prefix/Places.antt =====
-- Where `macify_translate_path` of src/prefix.c sends a path.
use mac_ify.Prefix.{Environment, macify_get_prefix, is_absolute, is_host}
use mac_ify.Prefix.{passes_through, translate_in, macify_translate_path}
use mac_ify.Prelude.{ℕ, ◌+◌, ◌-◌, ◌<◌, ◌≡◌, refl, arith, List, []}
use mac_ify.Prelude.{◌∷◌, ◌++◌, Option, none, some, true, false}
use mac_ify.Prelude.{length, length-append, take_all, drop, codes, bytes_eq}
use mac_ify.Prelude.{starts_with, is_under}
use mac_ify.Prelude.{if◌then◌else◌}

-- The test of the source for one of the directories is the test of `is_under`.
is_host-is_under : (dir path : List ℕ) → is_host path dir ≡ is_under dir path
unfolding is_host is_under starts_with bytes_eq
is_host-is_under [] [] = refl
is_host-is_under [] (c ∷ path) = ground arith
is_host-is_under (b ∷ dir) [] = refl
is_host-is_under (b ∷ dir) (c ∷ path) = ground (arith, is_host-is_under dir path)

-- A directory at the front of a path is put back before what follows it.
rejoin : (dir path : List ℕ) → is_under dir path ≡ true → dir ++ drop (length dir) path ≡ path
unfolding is_under starts_with
rejoin [] path h = refl
rejoin (b ∷ dir) [] h = cc
rejoin (b ∷ dir) (c ∷ path) h = ground (arith, rejoin dir path (ground arith))

is_under_root : (path : List ℕ) → is_absolute path ≡ true → is_under [] path ≡ true
unfolding is_under starts_with is_absolute
is_under_root [] h = cc
is_under_root (c ∷ path) h = h

-- A mount table: a directory and where its files lie, the first that fits a path counts.
abbrev pub mount_at : List (List ℕ × List ℕ) → List ℕ → List ℕ
mount_at [] path = path
mount_at ((dir, target) ∷ mounts) path =
    if is_under dir path then target ++ drop (length dir) path else mount_at mounts path

-- The prefix is the root of the program's files; the prefix itself and four directories of the host
-- lie where they are.
unfoldable pub mounts_of : List ℕ → List (List ℕ × List ℕ)
mounts_of prefix =
    (prefix, prefix)
    ∷ (codes "/dev", codes "/dev")
    ∷ (codes "/proc", codes "/proc")
    ∷ (codes "/sys", codes "/sys")
    ∷ (codes "/tmp", codes "/tmp")
    ∷ ([], prefix)
    ∷ []

-- The path that is opened: the caller keeps its own if the translation returns -1.
unfoldable pub opened : List ℕ → Option (List ℕ) → List ℕ
opened path none = path
opened path (some out) = out

-- The part of the table for the host.
host_mounts :
    (prefix path : List ℕ)
    → is_absolute path ≡ true
    → mount_at
        ((codes "/dev", codes "/dev")
          ∷ (codes "/proc", codes "/proc")
          ∷ (codes "/sys", codes "/sys")
          ∷ (codes "/tmp", codes "/tmp")
          ∷ ([], prefix)
          ∷ [])
        path
      ≡ (if passes_through path then path else prefix ++ path)
unfolding passes_through
host_mounts prefix path absolute =
    rw
      (
        is_host-is_under (codes "/dev") path,
        is_host-is_under (codes "/proc") path,
        is_host-is_under (codes "/sys") path,
        is_host-is_under (codes "/tmp") path,
        is_under_root path absolute,
      )
      (ground (
        arith,
        rejoin (codes "/dev") path,
        rejoin (codes "/proc") path,
        rejoin (codes "/sys") path,
        rejoin (codes "/tmp") path,
      ))

-- For a program that is not jailed, an absolute path that fits with the prefix into the buffer is
-- opened where the mount table says: as it is inside the prefix and in /dev, /proc, /sys and /tmp, and else
-- below the prefix, the paths in /etc, /var, /usr and the home directory among them.
pub macify_translate_path-mounts :
    (env : Environment) (cached : Option (List ℕ)) (path : List ℕ) (out_size : ℕ)
    → env.is_jailed ≡ false
    → is_absolute path ≡ true
    → 0 < length (macify_get_prefix env cached)
    → length (macify_get_prefix env cached) + length path < out_size
    → opened path (macify_translate_path env cached path out_size)
      ≡ mount_at (mounts_of (macify_get_prefix env cached)) path
unfolding opened macify_translate_path translate_in mounts_of
macify_translate_path-mounts env cached path out_size free absolute some_prefix fits = ground (
  arith,
  free,
  absolute,
  rejoin (macify_get_prefix env cached) path,
  host_mounts (macify_get_prefix env cached) path absolute,
  take_all (out_size - 1) path,
  take_all (out_size - 1) (macify_get_prefix env cached ++ path),
  length-append {0} (macify_get_prefix env cached) path,
)
