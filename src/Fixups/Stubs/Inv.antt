-- ===== src/Fixups/Stubs/Inv.antt =====
-- The invariant of the noted names of src/fixups.c.
use mac_ify.Prelude.{ℕ, ◌≤◌, ◌<◌, ◌≡◌, refl, List, [], ◌∷◌, ◌++◌, Bool, true, false, ◌||◌, arith}
use mac_ify.Prelude.{bytes_eq, bytes_eq_refl, length, length-append, Bool-cases, inl, inr}
use mac_ify.Prelude.{if_elim}
use mac_ify.Fixups.Stubs.{Noted, is_noted, note_stub, max_noted_stubs}

-- No name stands twice.
abbrev pub IsDistinct : List (List ℕ) → Type 0
IsDistinct [] = Unit
IsDistinct (name ∷ names) = (is_noted names name ≡ false) × IsDistinct names

pub record IsValid (n : Noted) : Type 0 where
  pub few : length n.names ≤ max_noted_stubs
  pub distinct : IsDistinct n.names

is_noted-append :
    (xs : List (List ℕ)) (a b : List ℕ)
    → is_noted (xs ++ (a ∷ [])) b ≡ (is_noted xs b || bytes_eq a b)
unfolding is_noted
is_noted-append [] a b = ground arith
is_noted-append (x ∷ xs) a b = ground (arith, is_noted-append xs a b)

bytes_eq_symm : (a b : List ℕ) → bytes_eq a b ≡ false → bytes_eq b a ≡ false
unfolding bytes_eq
bytes_eq_symm [] [] h = cc
bytes_eq_symm [] (y ∷ ys) h = refl
bytes_eq_symm (x ∷ xs) [] h = refl
bytes_eq_symm (x ∷ xs) (y ∷ ys) h = ground (arith, bytes_eq_symm xs ys)

IsDistinct-append :
    (xs : List (List ℕ)) (a : List ℕ)
    → is_noted xs a ≡ false
    → IsDistinct xs
    → IsDistinct (xs ++ (a ∷ []))
unfolding is_noted
IsDistinct-append [] a h d = (refl, tt)
IsDistinct-append (x ∷ xs) a h d = (
  ground (arith, is_noted-append xs a x, d.0, bytes_eq_symm x a),
  IsDistinct-append xs a (ground (arith, h)) d.1,
)

-- Noting a symbol keeps the names distinct and at most 32.
note_stub-IsValid :
    (copied : Bool) (n : Noted) (sym : List ℕ) → IsValid n → IsValid (note_stub copied n sym)
unfolding note_stub
note_stub-IsValid copied n sym v = record {
  few = ground (arith, length-append n.names (sym ∷ []), v.few);
  distinct = elim (Bool-cases (is_noted n.names sym)) [
    | inl old ↦ rw old v.distinct
    | inr new ↦
        rw new (if_elim IsDistinct _ (IsDistinct-append n.names sym new v.distinct) v.distinct)
  ];
}

-- A symbol whose name could be copied is among the names afterwards, if fewer than 32 were noted
-- before.
pub note_stub-noted :
    (n : Noted) (sym : List ℕ)
    → length n.names < max_noted_stubs
    → is_noted (note_stub true n sym).names sym ≡ true
unfolding note_stub
note_stub-noted n sym h = ground (arith, is_noted-append n.names sym sym, bytes_eq_refl sym)
