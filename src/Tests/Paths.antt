-- ===== src/Tests/Paths.antt =====
-- Paths through src/prefix.c.
use mac_ify.Prefix.{Environment, macify_get_prefix, macify_translate_path, macify_should_hide_path}
use mac_ify.Prefix.{hidden_dirs, translate_in, prefix_of, is_absolute, passes_through, is_host}
use mac_ify.Prefix.Hidden.{UnderOne, macify_should_hide_path_iff}
use mac_ify.Prefix.Places.{opened, mount_at, mounts_of, macify_translate_path-mounts}
use mac_ify.Prelude.{ℕ, ◌≡◌, ◌↔◌, refl, arith, List, ◌∷◌, ◌++◌, none, some, true, false, codes}
use mac_ify.Prelude.{is_under, bytes_eq}

abbrev pub at_home : Environment
at_home = record {
  macify_prefix = some (codes "/p");
  home = some (codes "/home/u");
  is_jailed = false;
}

macify_translate_path-mounts_example :
    opened (codes "/dev/null") (macify_translate_path at_home none (codes "/dev/null") 64)
    ≡ mount_at (mounts_of (macify_get_prefix at_home none)) (codes "/dev/null")
unfolding macify_get_prefix prefix_of is_absolute
macify_translate_path-mounts_example =
    macify_translate_path-mounts at_home none (codes "/dev/null") 64 refl refl (omega arith)
      (omega arith)

-- /bin/sh is that of the prefix, and /dev/null that of the host.
opened_in_prefix :
    opened (codes "/bin/sh") (macify_translate_path at_home none (codes "/bin/sh") 64)
    ≡ codes "/p/bin/sh"
unfolding opened macify_translate_path translate_in macify_get_prefix prefix_of is_under is_absolute
    passes_through is_host bytes_eq
opened_in_prefix = refl

macify_should_hide_path_iff_example :
    (macify_should_hide_path at_home (codes "/home/u/.cache/bat") ≡ true) ↔ (
      (rest : List ℕ) × (codes "/home/u/.cache/bat" ≡ codes "/home/u" ++ b'/' ∷ rest)
      × UnderOne rest hidden_dirs)
macify_should_hide_path_iff_example =
    macify_should_hide_path_iff at_home (codes "/home/u") (codes "/home/u/.cache/bat") refl
