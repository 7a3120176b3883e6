-- ===== src/Loader/Entry/Shebang.antt =====
-- The first line of a script, as `macify_entry_parse_shebang` of src/main.c reads it.
use mathlib.Core.List.{append_assoc}
use mac_ify.Loader.Entry.{Files, first_line, skip_blanks, before_space, token_of, parse_line}
use mac_ify.Loader.Entry.{macify_entry_parse_shebang}
use mac_ify.Prelude.{
  ℕ, ◌≡◌, ◌≢◌, ◌⊎◌, ◌↔◌, inl, inr, refl, ◌∙◌, ap, sym, arith, List, [], ◌∷◌, ◌++◌,
}
use mac_ify.Prelude.{some, take, false, ◌==◌, ◌&&◌, ◌||◌, Bool-cases}

-- A character that a line goes on with, other than a space.
abbrev pub IsPlain : ℕ → Type 0
IsPlain c = (c ≢ 0) × (c ≢ 10) × (c ≢ 13) × (c ≢ 32)

abbrev pub IsBlank : ℕ → Type 0
IsBlank c = (c ≡ 32) ⊎ (c ≡ 9)

abbrev pub AllOf : (ℕ → Type 0) → List ℕ → Type 0
AllOf P [] = Unit {0}
AllOf P (c ∷ s) = P c × AllOf P s

-- A name ends with the text, with the line, or at a space.
abbrev pub IsEnd : List ℕ → Type 0
IsEnd [] = Unit {0}
IsEnd (c ∷ s) = (c ≡ 0) ⊎ (c ≡ 10) ⊎ (c ≡ 13) ⊎ (c ≡ 32)

-- Not empty, and not a tab first.
abbrev pub IsToken : List ℕ → Type 0
IsToken [] = ⊥
IsToken (c ∷ s) = (c ≢ 9) × AllOf IsPlain (c ∷ s)

-- After `#!` and blanks stands the name `interp`; what follows it is left out.
pub record Names (line interp : List ℕ) : Type 0 where
  pub blanks : List ℕ
  pub after : List ℕ
  pub split : line ≡ b'#' ∷ b'!' ∷ (blanks ++ (interp ++ after))
  pub leading : AllOf IsBlank blanks
  pub token : IsToken interp
  pub ended : IsEnd after

first_line-blanks :
    (blanks s : List ℕ) → AllOf IsBlank blanks → first_line (blanks ++ s) ≡ blanks ++ first_line s
unfolding first_line
first_line-blanks [] s h = refl
first_line-blanks (c ∷ blanks) s h = ground (arith, first_line-blanks blanks s h.1)

first_line-plain : (t s : List ℕ) → AllOf IsPlain t → first_line (t ++ s) ≡ t ++ first_line s
unfolding first_line
first_line-plain [] s h = refl
first_line-plain (c ∷ t) s h = ground (arith, first_line-plain t s h.1)

skip_blanks-blanks :
    (blanks s : List ℕ) → AllOf IsBlank blanks → skip_blanks (blanks ++ s) ≡ skip_blanks s
unfolding skip_blanks
skip_blanks-blanks [] s h = refl
skip_blanks-blanks (c ∷ blanks) s h = ground (arith, skip_blanks-blanks blanks s h.1)

skip_blanks-token : (t s : List ℕ) → IsToken t → skip_blanks (t ++ s) ≡ t ++ s
unfolding skip_blanks
skip_blanks-token [] s h = elim h [ ]
skip_blanks-token (c ∷ t) s h = ground arith

before_space-plain :
    (t s : List ℕ) → AllOf IsPlain t → IsEnd s → before_space (t ++ first_line s) ≡ t
unfolding before_space first_line
before_space-plain [] [] h e = refl
before_space-plain [] (c ∷ s) h e = ground arith
before_space-plain (c ∷ t) s h e = ground (arith, before_space-plain t s h.1 e)

IsToken-IsPlain : (t : List ℕ) → IsToken t → AllOf IsPlain t
IsToken-IsPlain [] h = elim h [ ]
IsToken-IsPlain (c ∷ t) h = h.1

token_of-token : (t s : List ℕ) → IsToken t → token_of (t ++ s) ≡ some (before_space (t ++ s))
token_of-token [] s h = elim h [ ]
token_of-token (c ∷ t) s h = refl

-- A name that a line has is what the loader takes from it.
Names-parse_line : (line interp : List ℕ) → Names line interp → parse_line line ≡ some interp
unfolding parse_line
Names-parse_line line interp n =
    let plain = IsToken-IsPlain interp n.token in
    let text = interp ++ n.after in
    let cut : skip_blanks (first_line (n.blanks ++ text)) ≡ interp ++ first_line n.after =
      ap skip_blanks (first_line-blanks n.blanks text n.leading)
      ∙ skip_blanks-blanks n.blanks (first_line text) n.leading
      ∙ ap skip_blanks (first_line-plain interp n.after plain)
      ∙ skip_blanks-token interp (first_line n.after) n.token in
    ap parse_line n.split
    ∙ ap token_of cut
    ∙ token_of-token interp (first_line n.after) n.token
    ∙ ap some (before_space-plain interp n.after plain n.ended)

-- What a list is a part of.
record Cut (s front : List ℕ) : Type 0 where
  pub after : List ℕ
  pub whole : s ≡ front ++ after
  pub ended : IsEnd after

Cut-cons : (c : ℕ) (s front : List ℕ) → Cut s front → Cut (c ∷ s) (c ∷ front)
Cut-cons c s front p = record {
  after = p.after;
  whole = ap (λ (l : List ℕ). c ∷ l) p.whole;
  ended = p.ended;
}

first_line-Cut : (s : List ℕ) → Cut s (first_line s)
unfolding first_line
first_line-Cut [] = record { after = []; whole = refl; ended = tt }
first_line-Cut (c ∷ s) = elim (Bool-cases (c == 0 || c == 10 || c == 13)) [
  | inl last ↦ rw last (record { after = c ∷ s; whole = refl; ended = ground (arith, last) })
  | inr more ↦ rw more (Cut-cons c s (first_line s) (first_line-Cut s))
]

before_space-Cut : (s : List ℕ) → Cut s (before_space s)
unfolding before_space
before_space-Cut [] = record { after = []; whole = refl; ended = tt }
before_space-Cut (c ∷ s) = elim (Bool-cases (c == 32)) [
  | inl last ↦ rw last (record { after = c ∷ s; whole = refl; ended = ground (arith, last) })
  | inr more ↦ rw more (Cut-cons c s (before_space s) (before_space-Cut s))
]

-- No end of the line.
abbrev IsInner : ℕ → Type 0
IsInner c = (c ≢ 0) × (c ≢ 10) × (c ≢ 13)

first_line-IsInner : (s : List ℕ) → AllOf IsInner (first_line s)
unfolding first_line
first_line-IsInner [] = tt
first_line-IsInner (c ∷ s) = ground (arith, first_line-IsInner s)

before_space-IsPlain_all : (s : List ℕ) → AllOf IsInner s → AllOf IsPlain (before_space s)
unfolding before_space
before_space-IsPlain_all [] h = tt
before_space-IsPlain_all (c ∷ s) h = ground (arith, before_space-IsPlain_all s h.1)

-- What is left behind the blanks.
record Skipped (s rest : List ℕ) : Type 0 where
  pub blanks : List ℕ
  pub whole : s ≡ blanks ++ rest
  pub leading : AllOf IsBlank blanks
  pub inner : AllOf IsInner rest

skip_blanks-Skipped : (s : List ℕ) → AllOf IsInner s → Skipped s (skip_blanks s)
unfolding skip_blanks
skip_blanks-Skipped [] h = record { blanks = []; whole = refl; leading = tt; inner = tt }
skip_blanks-Skipped (c ∷ s) h = elim (Bool-cases (c == 32 || c == 9)) [
  | inr other ↦ rw other (record { blanks = []; whole = refl; leading = tt; inner = h })
  | inl blank ↦
      let p = skip_blanks-Skipped s h.1 in
      rw blank (record {
        blanks = c ∷ p.blanks;
        whole = ap (λ (l : List ℕ). c ∷ l) p.whole;
        leading = (ground (arith, blank), p.leading);
        inner = p.inner;
      })
]

-- No blank is left in front.
abbrev IsFront : List ℕ → Type 0
IsFront [] = Unit {0}
IsFront (c ∷ s) = (c ≢ 32) × (c ≢ 9)

skip_blanks-IsFront : (s : List ℕ) → IsFront (skip_blanks s)
unfolding skip_blanks
skip_blanks-IsFront [] = tt
skip_blanks-IsFront (c ∷ s) = ground (arith, skip_blanks-IsFront s)

before_space-IsToken :
    (s interp : List ℕ)
    → AllOf IsInner s
    → IsFront s
    → token_of s ≡ some interp
    → (interp ≡ before_space s) × IsToken interp
unfolding before_space
before_space-IsToken [] interp inner front h = cc
before_space-IsToken (c ∷ s) interp inner front h =
    let same : before_space (c ∷ s) ≡ interp = ground arith in
    let plain = before_space-IsPlain_all (c ∷ s) inner in
    let more : (c == 32) ≡ false = ground arith in
    (sym same, rw (← same, more) (front.1, rw more at plain))

IsEnd-append : (a b : List ℕ) → IsEnd a → IsEnd b → IsEnd (a ++ b)
IsEnd-append [] b h k = k
IsEnd-append (c ∷ a) b h k = h

-- What the loader takes from a line is a name that the line has.
parse_line-Names : (line interp : List ℕ) → parse_line line ≡ some interp → Names line interp
unfolding parse_line
parse_line-Names [] interp h = cc
parse_line-Names (c ∷ []) interp h = cc
parse_line-Names (c ∷ d ∷ s) interp h = elim (Bool-cases (c == b'#' && d == b'!')) [
  | inr other ↦ absurd (ground (arith, other))
  | inl magic ↦
      let line = first_line-Cut s in
      let rest = skip_blanks (first_line s) in
      let skipped = skip_blanks-Skipped (first_line s) (first_line-IsInner s) in
      let front = skip_blanks-IsFront (first_line s) in
      let (same, token) =
        before_space-IsToken rest interp skipped.inner front (ground (arith, magic)) in
      let name = before_space-Cut rest in
      let text : s ≡ skipped.blanks ++ (interp ++ (name.after ++ line.after)) =
        line.whole
        ∙ ap (λ (l : List ℕ). l ++ line.after)
            (skipped.whole
              ∙ ap (λ (l : List ℕ). skipped.blanks ++ l)
                  (name.whole ∙ ap (λ (l : List ℕ). l ++ name.after) (sym same)))
        ∙ append_assoc skipped.blanks (interp ++ name.after) line.after
        ∙ ap (λ (l : List ℕ). skipped.blanks ++ l) (append_assoc interp name.after line.after) in
      record {
        blanks = skipped.blanks;
        after = name.after ++ line.after;
        split = ground (arith, magic, text);
        leading = skipped.leading;
        token = token;
        ended = IsEnd-append name.after line.after name.ended line.ended;
      }
]

-- The loader finds an interpreter exactly where the first 511 bytes of the file name it.
pub macify_entry_parse_shebang-Names :
    (files : Files) (path bytes interp : List ℕ)
    → files.content path ≡ some bytes
    → (macify_entry_parse_shebang files path ≡ some interp) ↔ Names (take 511 bytes) interp
unfolding macify_entry_parse_shebang
macify_entry_parse_shebang-Names files path bytes interp read =
    let same : macify_entry_parse_shebang files path ≡ parse_line (take 511 bytes) =
      rw (macify_entry_parse_shebang, read) refl in
    (
      λ h. parse_line-Names (take 511 bytes) interp (sym same ∙ h),
      λ n. same ∙ Names-parse_line (take 511 bytes) interp n,
    )
