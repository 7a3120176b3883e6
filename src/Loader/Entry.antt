-- ===== src/Loader/Entry.antt =====
-- `macify_resolve_entry` of src/main.c: the file to load for an entry, through the interpreters that scripts
-- name, and the arguments of the program. Texts are lists of bytes other than 0.
pub mod Shebang
pub mod Exec
use mac_ify.Prefix.{Environment, printed, macify_translate_path}
use mac_ify.Prelude.{ℕ, zero, suc, ◌-◌, ◌+◌, ◌*◌, List, [], ◌∷◌, ◌++◌, Option, none, some, Bool}
use mac_ify.Prelude.{true, false, ◌||◌, ◌&&◌, not, take, length, leb, ltb, ◌==◌, if◌then◌else◌}

-- The host's files: whether `stat` finds one, and the bytes of one that can be opened and read.
pub record Files : Type 0 where
  pub exists : List ℕ → Bool
  pub content : List ℕ → Option (List ℕ)

-- The first four bytes as a number.
unfoldable pub magic_word : List ℕ → Option ℕ
magic_word (a ∷ b ∷ c ∷ d ∷ rest) = some (a + 256 * (b + 256 * (c + 256 * d)))
magic_word bytes = none

unfoldable pub is_macho_magic : Option ℕ → Bool
is_macho_magic none = false
is_macho_magic (some magic) = magic == 0xFEEDFACF || magic == 0xBEBAFECA

unfoldable pub macify_entry_is_macho : Files → List ℕ → Bool
macify_entry_is_macho files path = elim (files.content path) [
  | none ↦ false
  | some bytes ↦ is_macho_magic (magic_word bytes)
]

-- The line as a text of C, cut at the end of the first line.
unfoldable pub first_line : List ℕ → List ℕ
first_line [] = []
first_line (c ∷ rest) =
    let more = first_line rest in if c == 0 || c == 10 || c == 13 then [] else c ∷ more

unfoldable pub skip_blanks : List ℕ → List ℕ
skip_blanks [] = []
skip_blanks (c ∷ rest) = if c == 32 || c == 9 then skip_blanks rest else c ∷ rest

-- The text before the first space.
unfoldable pub before_space : List ℕ → List ℕ
before_space [] = []
before_space (c ∷ rest) = let more = before_space rest in if c == 32 then [] else c ∷ more

abbrev pub token_of : List ℕ → Option (List ℕ)
token_of [] = none
token_of (c ∷ rest) = some (before_space (c ∷ rest))

unfoldable pub parse_line : List ℕ → Option (List ℕ)
parse_line [] = none
parse_line (h ∷ []) = none
parse_line (h ∷ b ∷ line) =
    if h == b'#' && b == b'!' then token_of (skip_blanks (first_line line)) else none

-- `interp`, of 4096 bytes; 511 bytes of the script are read.
unfoldable pub macify_entry_parse_shebang : Files → List ℕ → Option (List ℕ)
macify_entry_parse_shebang files path = elim (files.content path) [
  | none ↦ none
  | some bytes ↦ parse_line (take 511 bytes)
]

-- The translated path, if there is a file.
unfoldable pub in_prefix : Files → Environment → Option (List ℕ) → List ℕ → Option (List ℕ)
in_prefix files env cached path = elim (macify_translate_path env cached path 4096) [
  | none ↦ none
  | some translated ↦ if files.exists translated then some translated else none
]

abbrev pub or_verbatim : Option (List ℕ) → List ℕ → List ℕ
or_verbatim none raw = raw
or_verbatim (some host) raw = host

-- Hop 0: the path as it is, and then in the prefix.
unfoldable pub first_file : Files → Environment → Option (List ℕ) → List ℕ → List ℕ
first_file files env cached path =
    if files.exists path then path else or_verbatim (in_prefix files env cached path) path

-- An interpreter: in the prefix, and then as it is.
unfoldable pub host_of : Files → Environment → Option (List ℕ) → List ℕ → List ℕ
host_of files env cached raw = or_verbatim (in_prefix files env cached raw) raw

-- The loop, with the hops left: the file, and the interpreters as scripts write them, the last one first.
unfoldable pub hop_loop :
    ℕ → Files → Environment → Option (List ℕ) → List ℕ → List (List ℕ) → List ℕ × List (List ℕ)
hop_loop zero files env cached eff tokens = (eff, tokens)
hop_loop (suc left) files env cached eff tokens =
    if macify_entry_is_macho files eff
    then (eff, tokens)
    else elim (macify_entry_parse_shebang files eff) [
      | none ↦ (eff, tokens)
      | some raw ↦ hop_loop left files env cached (host_of files env cached raw) (raw ∷ tokens)
    ]

abbrev pub rest_of : List (List ℕ) → List (List ℕ)
rest_of [] = []
rest_of (arg ∷ args) = args

abbrev pub take_args : ℕ → List (List ℕ) → List (List ℕ)
take_args zero args = []
take_args (suc n) [] = []
take_args (suc n) (arg ∷ args) = arg ∷ take_args n args

-- MACIFY_ENTRY_ARGV_MAX, of which the last is NULL.
unfoldable pub entry_argv : List ℕ → List (List ℕ) → List (List ℕ) → List (List ℕ)
entry_argv path [] argv = argv
entry_argv path (token ∷ tokens) argv =
    let front = (token ∷ tokens) ++ (path ∷ []) in
    front ++ take_args (1023 - length front) (rest_of argv)

unfoldable pub macify_resolve_entry :
    Files → Environment → Option (List ℕ) → List ℕ → List (List ℕ) → List ℕ × List (List ℕ)
macify_resolve_entry files env cached path argv =
    let (eff, tokens) = hop_loop 5 files env cached (first_file files env cached path) [] in
    (eff, entry_argv path tokens argv)
