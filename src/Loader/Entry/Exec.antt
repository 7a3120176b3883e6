-- ===== src/Loader/Entry/Exec.antt =====
-- `macify_resolve_entry` of src/main.c against the way in which scripts are started.
use mathlib.Core.List.{append_assoc}
use mathlib.Core.Path.{subst}
use mac_ify.Loader.Entry.{Files, macify_entry_is_macho, macify_entry_parse_shebang, first_file}
use mac_ify.Loader.Entry.{host_of, in_prefix, hop_loop, rest_of, take_args, entry_argv}
use mac_ify.Loader.Entry.{macify_resolve_entry}
use mac_ify.Loader.Entry.Shebang.{Names, macify_entry_parse_shebang-Names}
use mac_ify.Prefix.{Environment, macify_translate_path}
use mac_ify.Prelude.{
  ℕ, zero, suc, ◌+◌, ◌-◌, ◌≤◌, ◌≡◌, ◌⊎◌, refl, ◌∙◌, ap, sym, arith, List, [], ◌∷◌,
}
use mac_ify.Prelude.{◌++◌, Option, none, some, Bool-cases, Option-cases, inl, inr, if◌then◌else◌}
use mac_ify.Prelude.{length, length-append, take, true, false}

-- The first of the places that has a file, or `path` itself.
abbrev pub first_found : Files → List (List ℕ) → List ℕ → List ℕ
first_found files [] path = path
first_found files (place ∷ places) path =
    if files.exists place then place else first_found files places path

-- Where the prefix has the file of this name.
abbrev pub guest : Environment → Option (List ℕ) → List ℕ → List (List ℕ)
guest env cached path = elim (macify_translate_path env cached path 4096) [
  | none ↦ []
  | some place ↦ place ∷ []
]

-- A file that is not started through another one: the last that is allowed, a Mach-O file, or one that
-- cannot be read or names no interpreter.
abbrev pub IsLast : Files → ℕ → List ℕ → Type 0
IsLast files left file =
    (left ≡ 0)
    ⊎ (macify_entry_is_macho files file ≡ true)
    ⊎ ((bytes interp : List ℕ) → files.content file ≡ some bytes → ¬ Names (take 511 bytes) interp)

-- The file that is started by the name `name` with `argv` starts the program `out` with `args`: a script
-- starts its interpreter, with the script's name after the interpreter's and before the other arguments,
-- and so on, `left` times at most. The interpreter's file is looked for at the places that `places` gives,
-- and then as it is.
pub data Execs (files : Files) (places : List ℕ → List (List ℕ)) (out : List ℕ)
    (args : List (List ℕ)) : ℕ → List ℕ → List ℕ → List (List ℕ) → Type 0 where
  itself :
      (left : ℕ) (file name : List ℕ) (argv : List (List ℕ))
      → IsLast files left file
      → file ≡ out
      → argv ≡ args
      → Execs files places out args left file name argv
  through :
      (left : ℕ) (file name : List ℕ) (argv : List (List ℕ)) (bytes interp : List ℕ)
      → macify_entry_is_macho files file ≡ false
      → files.content file ≡ some bytes
      → Names (take 511 bytes) interp
      → Execs files places out args left
          (first_found files (places interp) interp)
          interp
          (interp ∷ name ∷ rest_of argv)
      → Execs files places out args (suc left) file name argv

host_of_lem :
    (files : Files) (env : Environment) (cached : Option (List ℕ)) (raw : List ℕ)
    → host_of files env cached raw ≡ first_found files (guest env cached raw) raw
unfolding host_of in_prefix
host_of_lem files env cached raw = ground arith

first_file_lem :
    (files : Files) (env : Environment) (cached : Option (List ℕ)) (path : List ℕ)
    → first_file files env cached path ≡ first_found files (path ∷ guest env cached path) path
unfolding first_file in_prefix
first_file_lem files env cached path = ground arith

shebang_bytes :
    (files : Files) (path interp : List ℕ)
    → macify_entry_parse_shebang files path ≡ some interp
    → (bytes : List ℕ) × (files.content path ≡ some bytes)
unfolding macify_entry_parse_shebang
shebang_bytes files path interp h = elim (Option-cases (files.content path)) [
  | inl unread ↦ absurd (ground (arith, unread))
  | inr read ↦ read
]

-- The arguments when no room is wanting.
abbrev full_argv : List ℕ → List (List ℕ) → List (List ℕ) → List (List ℕ)
full_argv path [] argv = argv
full_argv path (token ∷ tokens) argv = (token ∷ tokens) ++ path ∷ rest_of argv

abbrev name_of : List ℕ → List (List ℕ) → List ℕ
name_of path [] = path
name_of path (token ∷ tokens) = token

argv_step :
    (path raw : List ℕ) (tokens argv : List (List ℕ))
    → raw ∷ name_of path tokens ∷ rest_of (full_argv path tokens argv)
      ≡ full_argv path (raw ∷ tokens) argv
argv_step path raw [] argv = refl
argv_step path raw (token ∷ tokens) argv = refl

both :
    {a b : List ℕ} {c d : List (List ℕ)}
    → a ≡ b
    → c ≡ d
    → ◌≡◌ {A = List ℕ × List (List ℕ)} (a, c) (b, d)
both p q = cc

module _ (files : Files) (env : Environment) (cached : Option (List ℕ)) (path : List ℕ)
    (argv : List (List ℕ)) where
  unnamed :
      (eff : List ℕ)
      → macify_entry_parse_shebang files eff ≡ none
      → (bytes interp : List ℕ) → files.content eff ≡ some bytes
      → ¬ Names (take 511 bytes) interp
  unnamed eff unknown bytes interp read names =
      let found = (macify_entry_parse_shebang-Names files eff bytes interp read).1 names in cc

  Execs-hop_loop :
      (left : ℕ) (eff : List ℕ) (tokens : List (List ℕ))
      → Execs files
          (guest env cached)
          (hop_loop left files env cached eff tokens).0
          (full_argv path (hop_loop left files env cached eff tokens).1 argv)
          left
          eff
          (name_of path tokens)
          (full_argv path tokens argv)
  unfolding hop_loop
  Execs-hop_loop zero eff tokens = itself 0 eff _ _ (inl refl) refl refl
  Execs-hop_loop (suc left) eff tokens = elim (Bool-cases (macify_entry_is_macho files eff)) [
    | inl macho ↦ rw (macho, hop_loop) (itself (suc left) eff _ _ (inr (inl macho)) refl refl)
    | inr script ↦ elim (Option-cases (macify_entry_parse_shebang files eff)) [
      | inl unknown ↦
          rw (script, hop_loop, unknown)
            (itself (suc left) eff _ _ (inr (inr (unnamed eff unknown))) refl refl)
      | inr (raw, found) ↦
          let (bytes, read) = shebang_bytes files eff raw found in
          let names = (macify_entry_parse_shebang-Names files eff bytes raw read).0 found in
          let place = host_of_lem files env cached raw in
          let argv' = argv_step path raw tokens argv in
          let rest = Execs-hop_loop left (host_of files env cached raw) (raw ∷ tokens) in
          rw (script, hop_loop, found)
            (through left eff _ _ bytes raw script read names (
              subst
                (λ (v : List ℕ × List (List ℕ)).
                  Execs files (guest env cached)
                    (hop_loop left files env cached (host_of files env cached raw) (raw ∷ tokens)).0
                    (full_argv path
                      (hop_loop left files env cached (host_of files env cached raw)
                        (raw ∷ tokens)).1
                      argv)
                    left v.0 raw v.1)
                (both place (sym argv')) rest))
    ]
  ]

hop_loop-length :
    (left : ℕ) (files : Files) (env : Environment) (cached : Option (List ℕ)) (eff : List ℕ)
    (tokens : List (List ℕ))
    → length (hop_loop left files env cached eff tokens).1 ≤ left + length tokens
unfolding hop_loop
hop_loop-length zero files env cached eff tokens = omega arith
hop_loop-length (suc left) files env cached eff tokens =
    elim (Bool-cases (macify_entry_is_macho files eff)) [
      | inl macho ↦ ground (arith, macho)
      | inr script ↦ elim (Option-cases (macify_entry_parse_shebang files eff)) [
        | inl unknown ↦ ground (arith, script, unknown)
        | inr (raw, found) ↦ ground (
          arith,
          script,
          found,
          hop_loop-length left files env cached (host_of files env cached raw) (raw ∷ tokens),
        )
      ]
    ]

take_args_all : (n : ℕ) (args : List (List ℕ)) → length args ≤ n → take_args n args ≡ args
take_args_all zero [] h = refl
take_args_all zero (arg ∷ args) h = absurd (omega arith)
take_args_all (suc n) [] h = refl
take_args_all (suc n) (arg ∷ args) h =
    ap (λ (l : List (List ℕ)). arg ∷ l) (take_args_all n args (omega arith))

rest_of-length : (argv : List (List ℕ)) → length (rest_of argv) ≤ length argv
rest_of-length [] = omega arith
rest_of-length (arg ∷ args) = omega arith

entry_argv-full :
    (path : List ℕ) (tokens argv : List (List ℕ))
    → length tokens ≤ 5
    → length argv ≤ 1017
    → entry_argv path tokens argv ≡ full_argv path tokens argv
unfolding entry_argv
entry_argv-full path [] argv few short = refl
entry_argv-full path (token ∷ tokens) argv few short =
    let room : length (rest_of argv) ≤ 1023 - length ((token ∷ tokens) ++ path ∷ []) =
      omega (arith, rest_of-length argv, length-append (token ∷ tokens) (path ∷ [])) in
    ap (λ (l : List (List ℕ)). ((token ∷ tokens) ++ path ∷ []) ++ l)
      (take_args_all _ (rest_of argv) room)
    ∙ append_assoc (token ∷ tokens) (path ∷ []) (rest_of argv)

-- With at most 1017 arguments, the file that is loaded for an entry and the arguments that the program gets
-- are those of starting the entry by its path: up to five times a script starts the interpreter that its
-- first 511 bytes name, whatever follows that name in its first line, with the interpreter's name and the
-- script's before the arguments. The entry is looked for on the host and then in the prefix, an interpreter
-- in the prefix and then on the host.
pub macify_resolve_entry-Execs :
    (files : Files) (env : Environment) (cached : Option (List ℕ)) (path : List ℕ)
    (argv : List (List ℕ))
    → length argv ≤ 1017
    → Execs files
        (guest env cached)
        (macify_resolve_entry files env cached path argv).0
        (macify_resolve_entry files env cached path argv).1
        5
        (first_found files (path ∷ guest env cached path) path)
        path
        argv
unfolding macify_resolve_entry
macify_resolve_entry-Execs files env cached path argv short =
    let eff = first_file files env cached path in
    let full =
      entry_argv-full path (hop_loop 5 files env cached eff []).1 argv
        (omega (arith, hop_loop-length 5 files env cached eff [])) short in
    let started = Execs-hop_loop files env cached path argv 5 eff [] in
    rw (full, ← first_file_lem files env cached path) started
