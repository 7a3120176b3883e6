-- ===== src/Prefix/Hidden.antt =====
-- What `macify_should_hide_path` of src/prefix.c hides.
use mac_ify.Prefix.{Environment, hidden_dirs, is_hidden, hides_below, macify_should_hide_path}
use mac_ify.Prelude.{ℕ, ◌+◌, ◌≡◌, ◌↔◌, refl, arith, List, [], ◌∷◌, ◌++◌, some}
use mac_ify.Prelude.{true, Bool-cases, inl, inr, length, drop, codes}
use mac_ify.Prelude.{starts_with, is_under, Under}
use mac_ify.Prelude.{is_under-Under, Under-is_under}

-- One of the directories is at the front of the path, and a slash or nothing follows it.
pub data UnderOne (s : List ℕ) : List (List ℕ) → Type 0 where
  this_one : (dir : List ℕ) (dirs : List (List ℕ)) → Under dir s → UnderOne s (dir ∷ dirs)
  later_one : (dir : List ℕ) (dirs : List (List ℕ)) → UnderOne s dirs → UnderOne s (dir ∷ dirs)

is_hidden-UnderOne : (dirs : List (List ℕ)) (s : List ℕ) → is_hidden dirs s ≡ true → UnderOne s dirs
unfolding is_hidden
is_hidden-UnderOne [] s h = cc
is_hidden-UnderOne (dir ∷ dirs) s h = elim (Bool-cases (is_under dir s)) [
  | inl yes_here ↦ this_one dir dirs (is_under-Under dir s yes_here)
  | inr not_here ↦ later_one dir dirs (is_hidden-UnderOne dirs s (ground (arith, not_here)))
]

UnderOne-is_hidden : (dirs : List (List ℕ)) (s : List ℕ) → UnderOne s dirs → is_hidden dirs s ≡ true
unfolding is_hidden
UnderOne-is_hidden [] s u = elim u [ ]
UnderOne-is_hidden (dir ∷ dirs) s (this_one _ _ u) = ground (arith, Under-is_under dir s u)
UnderOne-is_hidden (dir ∷ dirs) s (later_one _ _ u) = ground (arith, UnderOne-is_hidden dirs s u)

split_home :
    (home path : List ℕ)
    → starts_with (home ++ codes "/") path ≡ true
    → path ≡ home ++ b'/' ∷ drop (length home + 1) path
unfolding starts_with
split_home [] [] h = cc
split_home [] (c ∷ path) h = ground arith
split_home (b ∷ home) [] h = cc
split_home (b ∷ home) (c ∷ path) h = ground (arith, split_home home path (ground arith))

drop_home : (home rest : List ℕ) → drop (length home + 1) (home ++ b'/' ∷ rest) ≡ rest
drop_home [] rest = refl
drop_home (b ∷ home) rest = ground (arith, drop_home home rest)

starts_home : (home rest : List ℕ) → starts_with (home ++ codes "/") (home ++ b'/' ∷ rest) ≡ true
unfolding starts_with
starts_home [] rest = refl
starts_home (b ∷ home) rest = ground (arith, starts_home home rest)

-- Where HOME is set, exactly the paths are hidden that go on from it with a slash and one of the
-- hidden directories, or with something in one of these.
pub macify_should_hide_path_iff :
    (env : Environment) (home path : List ℕ)
    → env.home ≡ some home
    → ((macify_should_hide_path env path ≡ true)
        ↔ ((rest : List ℕ) × (path ≡ home ++ b'/' ∷ rest) × UnderOne rest hidden_dirs))
unfolding macify_should_hide_path hides_below
macify_should_hide_path_iff env home path e = (
  λ h.
      let inside : starts_with (home ++ codes "/") path ≡ true = ground (arith, e) in
      let hidden : is_hidden hidden_dirs (drop (length home + 1) path) ≡ true = ground (arith, e) in
      (
        drop (length home + 1) path,
        split_home home path inside,
        is_hidden-UnderOne hidden_dirs (drop (length home + 1) path) hidden,
      ),
  λ w.
      rw (e, w.1)
        (ground (
          arith,
          starts_home home w.0,
          drop_home home w.0,
          UnderOne-is_hidden hidden_dirs w.0 w.2,
        )),
)
