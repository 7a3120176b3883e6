-- ===== src/Shim/Errno.antt =====
-- shim/shim_core.c: the numbers of errors that go back to a program.
use mac_ify.Prelude.{ℕ, ◌≤◌, ◌<◌, ◌≡◌, ◌≢◌, refl, ◌∙◌, ap, sym, arith, List, [], ◌∷◌, Bool, true}
use mac_ify.Prelude.{not, ◌&&◌, ◌||◌, entry, leb, ◌==◌, if◌then◌else◌, all_below, all_below_sound}

abbrev pub errno_rows : List (ℕ × ℕ)
errno_rows =
    (11, 35)
    ∷ (36, 63)
    ∷ (37, 77)
    ∷ (38, 78)
    ∷ (39, 66)
    ∷ (40, 62)
    ∷ (88, 38)
    ∷ (89, 39)
    ∷ (90, 40)
    ∷ (91, 41)
    ∷ (92, 42)
    ∷ (93, 43)
    ∷ (94, 44)
    ∷ (95, 45)
    ∷ (96, 46)
    ∷ (97, 47)
    ∷ (98, 48)
    ∷ (99, 49)
    ∷ (100, 50)
    ∷ (101, 51)
    ∷ (102, 52)
    ∷ (103, 53)
    ∷ (104, 54)
    ∷ (105, 55)
    ∷ (106, 56)
    ∷ (107, 57)
    ∷ (108, 58)
    ∷ (109, 59)
    ∷ (110, 60)
    ∷ (111, 61)
    ∷ (112, 64)
    ∷ (113, 65)
    ∷ (114, 37)
    ∷ (115, 36)
    ∷ (116, 70)
    ∷ []

-- Other numbers stay as they are.
unfoldable pub macify_linux_to_macos_errno : ℕ → ℕ
unfolding entry
macify_linux_to_macos_errno e = if entry errno_rows e == 0 then e else entry errno_rows e

kept : (e : ℕ) → entry errno_rows e ≡ 0 → macify_linux_to_macos_errno e ≡ e
unfolding macify_linux_to_macos_errno
kept e plain = rw plain refl

-- The table from right to left.
abbrev pub back_rows : List (ℕ × ℕ)
back_rows =
    (35, 11)
    ∷ (63, 36)
    ∷ (77, 37)
    ∷ (78, 38)
    ∷ (66, 39)
    ∷ (62, 40)
    ∷ (38, 88)
    ∷ (39, 89)
    ∷ (40, 90)
    ∷ (41, 91)
    ∷ (42, 92)
    ∷ (43, 93)
    ∷ (44, 94)
    ∷ (45, 95)
    ∷ (46, 96)
    ∷ (47, 97)
    ∷ (48, 98)
    ∷ (49, 99)
    ∷ (50, 100)
    ∷ (51, 101)
    ∷ (52, 102)
    ∷ (53, 103)
    ∷ (54, 104)
    ∷ (55, 105)
    ∷ (56, 106)
    ∷ (57, 107)
    ∷ (58, 108)
    ∷ (59, 109)
    ∷ (60, 110)
    ∷ (61, 111)
    ∷ (64, 112)
    ∷ (65, 113)
    ∷ (37, 114)
    ∷ (36, 115)
    ∷ (70, 116)
    ∷ []

errno_back : ℕ → ℕ
unfolding entry
errno_back e = if entry back_rows e == 0 then e else entry back_rows e

-- The errors up to ERANGE have the same numbers, but for EAGAIN; the others are those of the table.
abbrev pub is_known : ℕ → Bool
is_known e = leb e 34 || not (entry errno_rows e == 0)

known_table :
    all_below 134 (λ e. not (is_known e) || (errno_back (macify_linux_to_macos_errno e) == e))
    ≡ true
unfolding all_below errno_back macify_linux_to_macos_errno entry
known_table = refl

known_small : (e : ℕ) → is_known e ≡ true → e ≤ 133
unfolding entry
known_small e h = ground arith

known_back : (e : ℕ) → is_known e ≡ true → errno_back (macify_linux_to_macos_errno e) ≡ e
known_back e h =
    let row = all_below_sound 134 _ e known_table (omega (arith, known_small e h)) in
    ground (arith, row, h)

-- Two errors of Linux that the table or the common numbers cover are never given out as one.
macify_linux_to_macos_errno-injective :
    (e e' : ℕ)
    → is_known e ≡ true
    → is_known e' ≡ true
    → macify_linux_to_macos_errno e ≡ macify_linux_to_macos_errno e'
    → e ≡ e'
macify_linux_to_macos_errno-injective e e' known known' same =
    sym (known_back e known) ∙ ap errno_back same ∙ known_back e' known'

clash_table :
    all_below 79 (λ e.
      (entry back_rows e == 0)
      || not (entry errno_rows e == 0)
      || ((macify_linux_to_macos_errno (entry back_rows e) == e) && not (entry back_rows e == e)))
    ≡ true
unfolding all_below macify_linux_to_macos_errno entry
clash_table = refl

taken_small : (e : ℕ) → entry back_rows e ≢ 0 → e < 79
unfolding entry
taken_small e h = ground (arith, h)

-- Any other number that the table gives out for an error is given out for itself too: of EDEADLK, 35,
-- the program hears what it hears of EAGAIN.
macify_linux_to_macos_errno-clash :
    (e : ℕ)
    → entry errno_rows e ≡ 0
    → entry back_rows e ≢ 0
    → (e' : ℕ) × (e' ≢ e) × (macify_linux_to_macos_errno e' ≡ macify_linux_to_macos_errno e)
macify_linux_to_macos_errno-clash e plain taken =
    let row = all_below_sound 79 _ e clash_table (taken_small e taken) in
    let same : macify_linux_to_macos_errno e ≡ e = kept e plain in
    (entry back_rows e, ground (arith, row), ground (arith, row, same))
