-- ===== src/Loader/Options.antt =====
-- The options of src/main.c.
use mac_ify.Prelude.{
  refl, ℕ, List, [], ◌∷◌, Bool, true, false, ◌||◌, not, codes, bytes_eq, starts_with,
}
use mac_ify.Prelude.{if◌then◌else◌, ◌≡◌, inl, inr, arith, Bool-cases, bytes_eq_sound}

-- `g_verbose` and `g_no_fast_path`.
pub record Options : Type 0 where
  pub verbose : Bool
  pub no_fast_path : Bool

-- The program with its arguments is started, or the loader ends with an exit code.
pub data Started : Type 0 where
  start : Options → (path : List ℕ) (args : List (List ℕ)) → Started
  exit : ℕ → Started

-- The arguments from the entry on.
unfoldable pub start_of : Options → List (List ℕ) → Started
start_of o [] = exit 1
start_of o (path ∷ args) = start o path args

unfoldable pub is_option : List ℕ → Bool
is_option arg = starts_with (codes "-") arg

-- `argv` without the loader's own name.
unfoldable pub parse_options : Options → List (List ℕ) → Started
parse_options o [] = exit 1
parse_options o (arg ∷ args) =
    let verbose = parse_options (record o { verbose = true }) args in
    let quiet = parse_options (record o { verbose = false }) args in
    let slow = parse_options (record o { no_fast_path = true }) args in
    if not (is_option arg)
    then start o arg args
    else if bytes_eq arg (codes "-v") || bytes_eq arg (codes "--verbose")
    then verbose
    else if bytes_eq arg (codes "-q") || bytes_eq arg (codes "--quiet")
    then quiet
    else if bytes_eq arg (codes "--no-fast-path")
    then slow
    else if bytes_eq arg (codes "--")
    then start_of o args
    else if bytes_eq arg (codes "-h") || bytes_eq arg (codes "--help")
    then exit 0
    else exit 1

-- `argv` has options of the loader, and then the program and its arguments: from the first argument that is
-- no option, or after the first `--`.
pub data Leads (path : List ℕ) (args : List (List ℕ)) : List (List ℕ) → Type 0 where
  direct :
      (argv : List (List ℕ)) → argv ≡ path ∷ args → is_option path ≡ false → Leads path args argv
  dashes :
      (arg : List ℕ) (argv : List (List ℕ))
      → arg ≡ codes "--"
      → argv ≡ path ∷ args
      → Leads path args (arg ∷ argv)
  option :
      (arg : List ℕ) (argv : List (List ℕ))
      → is_option arg ≡ true
      → bytes_eq arg (codes "--") ≡ false
      → Leads path args argv
      → Leads path args (arg ∷ argv)

-- A text that is equal to another one than "--".
not_dashes :
    (arg other : List ℕ)
    → bytes_eq other (codes "--") ≡ false
    → bytes_eq arg other ≡ true
    → bytes_eq arg (codes "--") ≡ false
not_dashes arg other differs same = rw (bytes_eq_sound arg other same) differs

-- The same of one of two spellings.
neither_dashes :
    (arg a b : List ℕ)
    → bytes_eq a (codes "--") ≡ false
    → bytes_eq b (codes "--") ≡ false
    → (bytes_eq arg a || bytes_eq arg b) ≡ true
    → bytes_eq arg (codes "--") ≡ false
neither_dashes arg a b differs differs' same = elim (Bool-cases (bytes_eq arg a)) [
  | inl first ↦ not_dashes arg a differs first
  | inr other ↦ not_dashes arg b differs' (ground (arith, same, other))
]

verbose_dashes :
    (arg : List ℕ)
    → (bytes_eq arg (codes "-v") || bytes_eq arg (codes "--verbose")) ≡ true
    → bytes_eq arg (codes "--") ≡ false
unfolding bytes_eq
verbose_dashes arg = neither_dashes arg (codes "-v") (codes "--verbose") refl refl

quiet_dashes :
    (arg : List ℕ)
    → (bytes_eq arg (codes "-q") || bytes_eq arg (codes "--quiet")) ≡ true
    → bytes_eq arg (codes "--") ≡ false
unfolding bytes_eq
quiet_dashes arg = neither_dashes arg (codes "-q") (codes "--quiet") refl refl

slow_dashes :
    (arg : List ℕ)
    → bytes_eq arg (codes "--no-fast-path") ≡ true
    → bytes_eq arg (codes "--") ≡ false
unfolding bytes_eq
slow_dashes arg = not_dashes arg (codes "--no-fast-path") refl

start_of-path :
    (o o' : Options) (path : List ℕ) (args argv : List (List ℕ))
    → start_of o argv ≡ start o' path args
    → argv ≡ path ∷ args
unfolding start_of
start_of-path o o' path args [] h = cc
start_of-path o o' path args (p ∷ argv) h = ground arith

-- The program that is started and its arguments are those of the command line after the loader's options,
-- none of them left out or taken for an option.
pub parse_options-Leads :
    (o o' : Options) (path : List ℕ) (args argv : List (List ℕ))
    → parse_options o argv ≡ start o' path args
    → Leads path args argv
unfolding parse_options
parse_options-Leads o o' path args [] h = cc
parse_options-Leads o o' path args (arg ∷ argv) h = elim (Bool-cases (is_option arg)) [
  | inr plain ↦ direct (arg ∷ argv) (ground (arith, plain)) (ground (arith, plain))
  | inl opt ↦ elim (Bool-cases (bytes_eq arg (codes "-v") || bytes_eq arg (codes "--verbose"))) [
    | inl v ↦ option arg argv opt (verbose_dashes arg v) (
        parse_options-Leads (record o { verbose = true }) o' path args argv
          (ground (arith, opt, v)))
    | inr nv ↦ elim (Bool-cases (bytes_eq arg (codes "-q") || bytes_eq arg (codes "--quiet"))) [
      | inl q ↦ option arg argv opt (quiet_dashes arg q) (
          parse_options-Leads (record o { verbose = false }) o' path args argv
            (ground (arith, opt, nv, q)))
      | inr nq ↦ elim (Bool-cases (bytes_eq arg (codes "--no-fast-path"))) [
        | inl f ↦ option arg argv opt (slow_dashes arg f) (
            parse_options-Leads (record o { no_fast_path = true }) o' path args argv
              (ground (arith, opt, nv, nq, f)))
        | inr nf ↦ elim (Bool-cases (bytes_eq arg (codes "--"))) [
          | inl d ↦
              dashes arg argv (bytes_eq_sound arg (codes "--") d)
                (start_of-path o o' path args argv (ground (arith, opt, nv, nq, nf, d)))
          | inr nd ↦ absurd (ground (arith, opt, nv, nq, nf, nd))
        ]
      ]
    ]
  ]
]
