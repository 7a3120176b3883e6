-- ===== src/Prefix/Again.antt =====
-- A path that `macify_translate_path` of src/prefix.c has translated stays as it is when it comes again.
use mac_ify.Prefix.{Environment, macify_get_prefix, is_absolute, translate_relative}
use mac_ify.Prefix.{translate_in, macify_translate_path}
use mac_ify.Prelude.{ℕ, zero, suc, ◌+◌, ◌-◌, ◌≤◌, ◌<◌, ◌≡◌, refl, arith, List, [], ◌∷◌}
use mac_ify.Prelude.{◌++◌, Option, none, some, true, false, Bool-cases, inl, inr}
use mac_ify.Prelude.{length, length-append, take_all, drop, codes, starts_with}
use mac_ify.Prelude.{is_under, under, Under-is_under}

prefixed_is_under :
    (prefix path : List ℕ) → is_absolute path ≡ true → is_under prefix (prefix ++ path) ≡ true
unfolding is_absolute
prefixed_is_under prefix [] h = cc
prefixed_is_under prefix (c ∷ path) h =
    let slash : c ≡ b'/' = ground arith in
    Under-is_under prefix (prefix ++ c ∷ path) (under path (rw slash refl))

home_rest_absolute :
    (home path : List ℕ)
    → starts_with (home ++ codes "/") path ≡ true
    → is_absolute (drop (length home) path) ≡ true
unfolding starts_with is_absolute
home_rest_absolute [] [] h = cc
home_rest_absolute [] (c ∷ path) h = ground arith
home_rest_absolute (b ∷ home) [] h = cc
home_rest_absolute (b ∷ home) (c ∷ path) h = home_rest_absolute home path (ground arith)

length-drop : (n : ℕ) (s : List ℕ) → length (drop n s) ≤ length s
length-drop zero s = omega arith
length-drop (suc n) [] = omega arith
length-drop (suc n) (b ∷ s) = omega (arith, length-drop n s)

-- A path under the prefix that fits is kept.
keeps_prefixed :
    (prefix path : List ℕ) (home : Option (List ℕ)) (n : ℕ)
    → 0 < length prefix
    → is_under prefix path ≡ true
    → length path < n
    → translate_in prefix home path n ≡ some path
unfolding translate_in
keeps_prefixed prefix path home n some_prefix inside fits =
    ground (arith, inside, take_all (n - 1) path)

-- What the branches yield: the path itself under the prefix, or the prefix and an absolute path.
relative_result :
    (prefix : List ℕ) (home : Option (List ℕ)) (path out : List ℕ) (n : ℕ)
    → length prefix + length path < n
    → translate_relative prefix home path n ≡ some out
    → (rest : List ℕ) × (out ≡ prefix ++ rest)
      × (is_absolute rest ≡ true)
      × (length rest ≤ length path)
unfolding translate_relative
relative_result prefix none path out n fits h = cc
relative_result prefix (some home) path out n fits h = (
  drop (length home) path,
  ground (
    arith,
    take_all (n - 1) (prefix ++ drop (length home) path),
    length-append {0} prefix (drop (length home) path),
    length-drop (length home) path,
  ),
  ground (arith, home_rest_absolute home path),
  length-drop (length home) path,
)

again_in :
    (prefix : List ℕ) (home : Option (List ℕ)) (path out : List ℕ) (n : ℕ)
    → 0 < length prefix
    → length prefix + length path < n
    → translate_in prefix home path n ≡ some out
    → (is_under prefix out ≡ true) × (length out < n)
unfolding translate_in
again_in prefix home path out n some_prefix fits h = elim (Bool-cases (is_under prefix path)) [
  | inl inside ↦
      let same : out ≡ path = ground (arith, inside, take_all (n - 1) path) in
      (rw same inside, rw same (omega arith))
  | inr outside ↦ elim (Bool-cases (is_absolute path)) [
    | inl absolute ↦
        let joined : out ≡ prefix ++ path = ground (
          arith,
          outside,
          absolute,
          take_all (n - 1) (prefix ++ path),
          length-append {0} prefix path,
        ) in
        (
          rw joined (prefixed_is_under prefix path absolute),
          rw joined (omega (arith, length-append prefix path)),
        )
    | inr relative ↦
        let (rest, e, a, l) =
          relative_result prefix home path out n fits (ground (arith, outside, relative)) in
        (rw e (prefixed_is_under prefix rest a), rw e (omega (arith, length-append prefix rest)))
  ]
]

-- A path that is translated, and fits with the prefix into the buffer, is translated to itself when
-- the program passes the result on.
macify_translate_path-again :
    (env : Environment) (cached : Option (List ℕ)) (path out : List ℕ) (out_size : ℕ)
    → 0 < length (macify_get_prefix env cached)
    → length (macify_get_prefix env cached) + length path < out_size
    → macify_translate_path env cached path out_size ≡ some out
    → macify_translate_path env cached out out_size ≡ some out
unfolding macify_translate_path
macify_translate_path-again env cached path out out_size some_prefix fits h =
    elim (Bool-cases env.is_jailed) [
      | inl jailed ↦
          let same : out ≡ path = ground (arith, jailed, take_all (out_size - 1) path) in
          rw same (ground (arith, jailed, take_all (out_size - 1) path))
      | inr free ↦
          let prefix = macify_get_prefix env cached in
          let (inside, short) =
            again_in prefix env.home path out out_size some_prefix fits (ground (arith, free)) in
          ground (arith, free, keeps_prefixed prefix out env.home out_size some_prefix inside short)
    ]

abbrev pub IsAbsoluteHome : Option (List ℕ) → Type 0
IsAbsoluteHome none = Unit
IsAbsoluteHome (some home) = is_absolute home ≡ true

starts_relative :
    (home path : List ℕ)
    → is_absolute home ≡ true
    → is_absolute path ≡ false
    → starts_with (home ++ codes "/") path ≡ false
unfolding starts_with is_absolute
starts_relative [] path h r = cc
starts_relative (b ∷ home) [] h r = refl
starts_relative (b ∷ home) (c ∷ path) h r = ground arith

relative_none :
    (prefix : List ℕ) (home : Option (List ℕ)) (path : List ℕ) (n : ℕ)
    → IsAbsoluteHome home
    → is_absolute path ≡ false
    → translate_relative prefix home path n ≡ none
unfolding translate_relative
relative_none prefix none path n h r = refl
relative_none prefix (some home) path n h r = ground (arith, starts_relative home path h r)

-- If HOME is an absolute path or not set, the branch for `~/Library` is never taken: a program that is
-- not jailed opens every relative path outside the prefix as it is.
macify_translate_path-relative :
    (env : Environment) (cached : Option (List ℕ)) (path : List ℕ) (out_size : ℕ)
    → env.is_jailed ≡ false
    → IsAbsoluteHome env.home
    → is_absolute path ≡ false
    → is_under (macify_get_prefix env cached) path ≡ false
    → macify_translate_path env cached path out_size ≡ none
unfolding macify_translate_path translate_in
macify_translate_path-relative env cached path out_size free home relative outside = ground (
  arith,
  free,
  relative,
  outside,
  relative_none (macify_get_prefix env cached) env.home path out_size home relative,
)
