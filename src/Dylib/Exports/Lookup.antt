-- ===== src/Dylib/Exports/Lookup.antt =====
-- What `macho_dylib_lookup` of src/macho_dylib.c finds.
use mac_ify.Dylib.Exports.{Export}
use mac_ify.Dylib.Exports.{eq_unstripped, find_export, find_in_dylibs, matches_first}
use mac_ify.Dylib.Exports.{find_underscored, macho_dylib_lookup}
use mac_ify.Prelude.{ℕ, ◌≡◌, inl, inr, ◌∙◌, arith}
use mac_ify.Prelude.{List, [], ◌∷◌, some, bytes_eq}
use mac_ify.Prelude.{bytes_eq_sound, Bool, true, Bool-cases, Option-cases}

-- The entry `e` is in the list.
pub data Has (e : Export) : List Export → Type 0 where
  here : (l : List Export) → Has e (e ∷ l)
  there : (a : Export) (l : List Export) → Has e l → Has e (a ∷ l)

-- What a search finds is the address of an entry whose name is wanted.
pub find_export-Has :
    (wanted : List ℕ → Bool) (l : List Export) (a : ℕ)
    → find_export wanted l ≡ some a
    → (e : Export) × Has e l × (wanted e.name ≡ true) × (e.addr ≡ a)
unfolding find_export
find_export-Has wanted [] a h = cc
find_export-Has wanted (e ∷ l) a h = elim (Bool-cases (wanted e.name)) [
  | inl w ↦ (e, here l, w, ground (arith, w))
  | inr n ↦
      let (e', m, w, q) = find_export-Has wanted l a (ground (arith, n)) in (e', there e l m, w, q)
]

-- The entry `e` is among the exports of one of the libraries.
pub data HasIn (e : Export) : List (List Export) → Type 0 where
  within : (l : List Export) (ls : List (List Export)) → Has e l → HasIn e (l ∷ ls)
  beyond : (l : List Export) (ls : List (List Export)) → HasIn e ls → HasIn e (l ∷ ls)

find_in_dylibs-HasIn :
    (wanted : List ℕ → Bool) (ls : List (List Export)) (a : ℕ)
    → find_in_dylibs wanted ls ≡ some a
    → (e : Export) × HasIn e ls × (wanted e.name ≡ true) × (e.addr ≡ a)
unfolding find_in_dylibs
find_in_dylibs-HasIn wanted [] a h = cc
find_in_dylibs-HasIn wanted (l ∷ ls) a h = elim (Option-cases (find_export wanted l)) [
  | inl n ↦
      let (e, m, w, q) = find_in_dylibs-HasIn wanted ls a (ground (arith, n)) in
      (e, beyond l ls m, w, q)
  | inr (b, f) ↦
      let same : b ≡ a = ground (arith, f) in
      let (e, m, w, q) = find_export-Has wanted l b f in (e, within l ls m, w, q ∙ same)
]

pub find_export-finds :
    (wanted : List ℕ → Bool) (e : Export) (l : List Export)
    → Has e l
    → wanted e.name ≡ true
    → (a : ℕ) × (find_export wanted l ≡ some a)
unfolding find_export
find_export-finds wanted e [] m w = elim m [ ]
find_export-finds wanted e (_ ∷ l) (here _) w = (e.addr, ground (arith, w))
find_export-finds wanted e (b ∷ l) (there _ _ m) w = elim (Bool-cases (wanted b.name)) [
  | inl first_one ↦ (b.addr, ground (arith, first_one))
  | inr other ↦ let (a, f) = find_export-finds wanted e l m w in (a, ground (arith, other, f))
]

find_in_dylibs-finds :
    (wanted : List ℕ → Bool) (e : Export) (ls : List (List Export))
    → HasIn e ls
    → wanted e.name ≡ true
    → (a : ℕ) × (find_in_dylibs wanted ls ≡ some a)
unfolding find_in_dylibs
find_in_dylibs-finds wanted e [] m w = elim m [ ]
find_in_dylibs-finds wanted e (l ∷ ls) (within _ _ m) w =
    let (a, f) = find_export-finds wanted e l m w in (a, ground (arith, f))
find_in_dylibs-finds wanted e (l ∷ ls) (beyond _ _ m) w =
    let (a, f) = find_in_dylibs-finds wanted e ls m w in
    elim (Option-cases (find_export wanted l)) [
      | inl n ↦ (a, ground (arith, n, f))
      | inr (b, g) ↦ (b, ground (arith, g))
    ]

-- How the name of an export may differ from the one that is looked up: not at all, by an underscore
-- of the latter, or by one of its own.
pub data Named (sym name : List ℕ) : Type 0 where
  equal : name ≡ sym → Named sym name
  stripped : sym ≡ b'_' ∷ name → Named sym name
  underscored : name ≡ b'_' ∷ sym → Named sym name

eq_unstripped-Named : (sym name : List ℕ) → eq_unstripped name sym ≡ true → Named sym name
unfolding eq_unstripped
eq_unstripped-Named [] name h = cc
eq_unstripped-Named (c ∷ rest) name h =
    let same : name ≡ rest = bytes_eq_sound name rest (ground arith) in
    let under : c ≡ b'_' = ground arith in stripped (rw (under, same))

pub matches_first-Named : (sym name : List ℕ) → matches_first sym name ≡ true → Named sym name
matches_first-Named sym name h = elim (Bool-cases (bytes_eq name sym)) [
  | inl same ↦ equal (bytes_eq_sound name sym same)
  | inr other ↦ eq_unstripped-Named sym name (ground (arith, other))
]

find_underscored-HasIn :
    (ls : List (List Export)) (sym : List ℕ) (a : ℕ)
    → find_underscored ls sym ≡ some a
    → (e : Export) × HasIn e ls × Named sym e.name × (e.addr ≡ a)
unfolding find_underscored
find_underscored-HasIn ls sym a h =
    let found : find_in_dylibs (λ name. bytes_eq name (b'_' ∷ sym)) ls ≡ some a = ground arith in
    let (e, m, w, q) = find_in_dylibs-HasIn (λ name. bytes_eq name (b'_' ∷ sym)) ls a found in
    (e, m, underscored (bytes_eq_sound e.name (b'_' ∷ sym) w), q)

-- What a look-up finds is the address of an export of a loaded library, whose name is the one that
-- is looked up, or that without its leading underscore, or that with one more.
macho_dylib_lookup-Named :
    (dylibs : List (List Export)) (sym : List ℕ) (a : ℕ)
    → macho_dylib_lookup dylibs sym ≡ some a
    → (e : Export) × HasIn e dylibs × Named sym e.name × (e.addr ≡ a)
unfolding macho_dylib_lookup
macho_dylib_lookup-Named dylibs sym a h =
    elim (Option-cases (find_in_dylibs (matches_first sym) dylibs)) [
      | inl n ↦ find_underscored-HasIn dylibs sym a (ground (arith, n))
      | inr (b, f) ↦
          let same : b ≡ a = ground (arith, f) in
          let (e, m, w, q) = find_in_dylibs-HasIn (matches_first sym) dylibs b f in
          (e, m, matches_first-Named sym e.name w, q ∙ same)
    ]

-- A name that an export has, with or without an underscore before it, is found.
pub macho_dylib_lookup-finds :
    (dylibs : List (List Export)) (sym : List ℕ) (e : Export)
    → HasIn e dylibs
    → matches_first sym e.name ≡ true
    → (a : ℕ) × (macho_dylib_lookup dylibs sym ≡ some a)
unfolding macho_dylib_lookup
macho_dylib_lookup-finds dylibs sym e m w =
    let (a, f) = find_in_dylibs-finds (matches_first sym) e dylibs m w in (a, ground (arith, f))
