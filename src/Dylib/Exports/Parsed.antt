-- ===== src/Dylib/Exports/Parsed.antt =====
-- What `parse_dylib_exports` of src/macho_dylib.c collects, and that a look-up finds it.
use mac_ify.Dylib.Commands.{File, magic_of, mh_magic_64, ncmds_of, first_command}
use mac_ify.Dylib.Exports.{Export, Symtab, max_dylib_syms, export_of, find_symtab}
use mac_ify.Dylib.Exports.{exports_loop, eq_unstripped, matches_first, parse_dylib_exports}
use mac_ify.Dylib.Exports.{find_export, find_in_dylibs, macho_dylib_lookup}
use mac_ify.Dylib.Exports.Lookup.{Has, here, there, Named, find_export-Has, find_export-finds}
use mac_ify.Dylib.Exports.Lookup.{matches_first-Named}
use mac_ify.Prelude.{ℕ, zero, suc, ◌+◌, ◌*◌, ◌%◌, ◌^◌, ◌≤◌, ◌<◌, ◌≡◌, ◌≢◌, ◌⊎◌, inl, inr, refl}
use mac_ify.Prelude.{◌∙◌, ap, sym as flip, arith, load}
use mac_ify.Prelude.{List, [], ◌∷◌, ◌++◌, none, some, length, length-append, bytes_eq}
use mac_ify.Prelude.{bytes_eq_refl, Bool, true, Bool-cases, Option-cases}

-- The exports of all symbols from `i` on, `left` of them, with no bound on their number.
unfoldable pub exports_from : File → Symtab → ℕ → ℕ → ℕ → List Export
exports_from file t slide zero i = []
exports_from file t slide (suc left) i =
    let rest = exports_from file t slide left (i + 1) in
    elim (export_of file t slide i) [ none ↦ rest | some e ↦ e ∷ rest ]

abbrev pub first {ℓ} : {A : Type ℓ} → ℕ → List A → List A
first zero xs = []
first (suc n) [] = []
first (suc n) (x ∷ xs) = x ∷ first n xs

append-nil : (xs : List Export) → xs ++ [] ≡ xs
append-nil [] = refl
append-nil (x ∷ xs) = ap (λ l. x ∷ l) (append-nil xs)

append_assoc : (xs ys zs : List Export) → (xs ++ ys) ++ zs ≡ xs ++ (ys ++ zs)
append_assoc [] ys zs = refl
append_assoc (x ∷ xs) ys zs = ap (λ l. x ∷ l) (append_assoc xs ys zs)

-- The table is the first 16384 of the exported symbols, in the order of the symbol table.
exports_loop-first :
    (file : File) (t : Symtab) (slide left i room : ℕ) (l : List Export)
    → length l + room ≡ max_dylib_syms
    → exports_loop file t slide left i l ≡ l ++ first room (exports_from file t slide left i)
unfolding exports_loop exports_from
exports_loop-first file t slide zero i zero l e = flip (append-nil l)
exports_loop-first file t slide zero i (suc room) l e = flip (append-nil l)
exports_loop-first file t slide (suc left) i zero l e = ground (arith, flip (append-nil l))
exports_loop-first file t slide (suc left) i (suc room) l e =
    elim (Option-cases (export_of file t slide i)) [
      | inl n ↦ ground (arith, n, exports_loop-first file t slide left (i + 1) (suc room) l e)
      | inr (x, f) ↦ ground (
        arith,
        f,
        exports_loop-first file t slide left (i + 1) room (l ++ (x ∷ []))
            (omega (arith, length-append l (x ∷ []))),
        append_assoc l (x ∷ []) (first room (exports_from file t slide left (i + 1))),
      )
    ]

first_all : (n : ℕ) (l : List Export) → length l ≤ n → first n l ≡ l
first_all zero [] h = refl
first_all (suc n) [] h = refl
first_all zero (x ∷ l) h = absurd (omega arith)
first_all (suc n) (x ∷ l) h = ap (λ rest. x ∷ rest) (first_all n l (omega arith))

exports_from-Has :
    (file : File) (t : Symtab) (slide left i k : ℕ) (e : Export)
    → k < left
    → export_of file t slide (i + k) ≡ some e
    → Has e (exports_from file t slide left i)
unfolding exports_from
exports_from-Has file t slide zero i k e h x = absurd (omega arith)
exports_from-Has file t slide (suc left) i zero e h x =
    let at : i + 0 ≡ i = omega arith in
    let x' : export_of file t slide i ≡ some e = rw (← at) x in
    rw (x', exports_from) (here (exports_from file t slide left (i + 1)))
exports_from-Has file t slide (suc left) i (suc k) e h x =
    let at : i + suc k ≡ i + 1 + k = omega arith in
    let rest = exports_from-Has file t slide left (i + 1) k e (omega arith) (rw (← at) x) in
    elim (Option-cases (export_of file t slide i)) [
      | inl n ↦ rw (n, exports_from) rest
      | inr (b, f) ↦ rw (f, exports_from) (there b _ rest)
    ]

underscore_matches : (name : List ℕ) → matches_first (b'_' ∷ name) name ≡ true
unfolding eq_unstripped
underscore_matches name = elim (Bool-cases (bytes_eq name (b'_' ∷ name))) [
  | inl same ↦ rw same
  | inr other ↦ rw (other, bytes_eq_refl name)
]

Has-cases : (e b : Export) (l : List Export) → Has e (b ∷ l) → (e ≡ b) ⊎ Has e l
Has-cases e _ l (here _) = inl refl
Has-cases e b l (there _ _ m) = inr m

-- An element of the list is the export of one of the symbols.
exports_from-at :
    (file : File) (t : Symtab) (slide left i : ℕ) (e : Export)
    → Has e (exports_from file t slide left i)
    → (k : ℕ) × (k < left) × (export_of file t slide (i + k) ≡ some e)
unfolding exports_from
exports_from-at file t slide zero i e m = elim m [ ]
exports_from-at file t slide (suc left) i e m =
    let later = λ (rest : Has e (exports_from file t slide left (i + 1))).
      let (k, low, x) = exports_from-at file t slide left (i + 1) e rest in
      let at : i + suc k ≡ i + 1 + k = omega arith in
      let found : (k' : ℕ) × (k' < suc left) × (export_of file t slide (i + k') ≡ some e) =
        (suc k, omega arith, rw at x) in
      found in
    elim (Option-cases (export_of file t slide i)) [
      | inl n ↦ later (rw (n, exports_from) at m)
      | inr (b, f) ↦ elim (Has-cases e b _ (rw (f, exports_from) at m)) [
        | inl same ↦ (0, omega arith, let at : i + 0 ≡ i = omega arith in rw (at, same) f)
        | inr rest ↦ later rest
      ]
    ]

export_of-addr :
    (file : File) (t : Symtab) (slide k : ℕ) (e : Export)
    → export_of file t slide k ≡ some e
    → e.addr ≡ (load 8 file (t.symoff + k * 16 + 8) + slide) % 2 ^ 64
unfolding export_of
export_of-addr file t slide k e x = ground arith

find_in_dylibs_later :
    (wanted : List ℕ → Bool) (before ls : List (List Export))
    → find_in_dylibs wanted before ≡ none
    → find_in_dylibs wanted (before ++ ls) ≡ find_in_dylibs wanted ls
unfolding find_in_dylibs
find_in_dylibs_later wanted [] ls missing = refl
find_in_dylibs_later wanted (l ∷ before) ls missing = elim (Option-cases (find_export wanted l)) [
  | inr (a, f) ↦ absurd (ground (arith, f))
  | inl n ↦ ground (arith, n, find_in_dylibs_later wanted before ls (ground (arith, n)))
]

-- The first match of the library is what the look-up gives.
lookup_first :
    (sym : List ℕ) (l : List Export) (before after : List (List Export)) (a : ℕ)
    → find_in_dylibs (matches_first sym) before ≡ none
    → find_export (matches_first sym) l ≡ some a
    → macho_dylib_lookup (before ++ (l ∷ after)) sym ≡ some a
unfolding macho_dylib_lookup find_in_dylibs
lookup_first sym l before after a missing found =
    ground (arith, found, find_in_dylibs_later (matches_first sym) before (l ∷ after) missing)

-- A stored name, or that with an underscore before it, is looked up.
abbrev pub AsksFor : List ℕ → List ℕ → Type 0
AsksFor sym name = (sym ≡ name) ⊎ (sym ≡ b'_' ∷ name)

AsksFor-matches : (sym name : List ℕ) → AsksFor sym name → matches_first sym name ≡ true
AsksFor-matches sym name (inl same) = rw (same, bytes_eq_refl name) refl
AsksFor-matches sym name (inr under) = rw under (underscore_matches name)

parsed_all :
    (file : File) (t : Symtab) (slide : ℕ)
    → magic_of file ≡ mh_magic_64
    → find_symtab file (ncmds_of file) first_command ≡ t
    → t.symoff ≢ 0
    → t.nsyms ≢ 0
    → length (exports_from file t slide t.nsyms 0) ≤ max_dylib_syms
    → parse_dylib_exports file slide [] ≡ exports_from file t slide t.nsyms 0
unfolding parse_dylib_exports
parsed_all file t slide magic table there_is some_symbols few =
    rw (table, magic)
      (ground (arith, there_is, some_symbols)
        ∙ exports_loop-first file t slide t.nsyms 0 max_dylib_syms [] (omega arith)
        ∙ first_all max_dylib_syms _ few)

-- A Mach-O file's exported symbol `k`, where the file has no more than 16384 of them, is looked up by its
-- stored name or by that with an underscore before it, when no library before has such a name: what is found
-- is the value of a symbol `j` of this file plus the library's slide, by 64 bits, and the name of `j` is
-- the one that is looked up, or that without its leading underscore, or that with one more.
pub parsed-found :
    (file : File) (t : Symtab) (slide k : ℕ) (e : Export) (sym : List ℕ)
    (before after : List (List Export))
    → magic_of file ≡ mh_magic_64
    → find_symtab file (ncmds_of file) first_command ≡ t
    → t.symoff ≢ 0
    → length (exports_from file t slide t.nsyms 0) ≤ max_dylib_syms
    → k < t.nsyms
    → export_of file t slide k ≡ some e
    → AsksFor sym e.name
    → find_in_dylibs (matches_first sym) before ≡ none
    → (j : ℕ) × (e' : Export) × (j < t.nsyms)
      × (export_of file t slide j ≡ some e')
      × Named sym e'.name
      × (macho_dylib_lookup (before ++ (parse_dylib_exports file slide [] ∷ after)) sym
          ≡ some ((load 8 file (t.symoff + j * 16 + 8) + slide) % 2 ^ 64))
parsed-found file t slide k e sym before after magic table there_is few low x asked missing =
    let l = exports_from file t slide t.nsyms 0 in
    let at : 0 + k ≡ k = omega arith in
    let member : Has e l = exports_from-Has file t slide t.nsyms 0 k e low (rw at x) in
    let (a, found) =
      find_export-finds (matches_first sym) e l member (AsksFor-matches sym e.name asked) in
    let (e', member', wanted, addr) = find_export-Has (matches_first sym) l a found in
    let (j, low', x') = exports_from-at file t slide t.nsyms 0 e' member' in
    let at' : 0 + j ≡ j = omega arith in
    let x'' : export_of file t slide j ≡ some e' = rw (← at') x' in
    let parsed = parsed_all file t slide magic table there_is (omega (arith, low)) few in
    (
      j,
      e',
      low',
      x'',
      matches_first-Named sym e'.name wanted,
      rw (parsed, ← export_of-addr file t slide j e' x'', addr)
          (lookup_first sym l before after a missing found),
    )
