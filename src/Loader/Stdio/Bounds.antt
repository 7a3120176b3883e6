-- ===== src/Loader/Stdio/Bounds.antt =====
-- Where the rewriting of stdio macros in src/main.c writes.
use mac_ify.Loader.Stdio.Decode.{GetcSite, getc_site, putc_site}
use mac_ify.Loader.Stdio.Jumps.{nops-away}
use mac_ify.Loader.Stdio.Rewrites.{near_jump-away, rewrite_getc-away}
use mac_ify.Loader.Stdio.Sites.{IsSite, getc_site-IsSite, jump_form-cases}
use mac_ify.Loader.Stdio.{eof_check, rewrite_check, eof_round, eof_loop, rewrite_getc, getc_loop}
use mac_ify.Loader.Stdio.{rewrite_putc, putc_round, putc_loop, patches_eof, patch_stdio}
use mac_ify.Prelude.{ℕ, zero, suc, ◌+◌, ◌-◌, ◌≤◌, ◌<◌, ◌≡◌, inl, inr, refl, ◌∙◌, arith, some}
use mac_ify.Prelude.{Bool, true, false, Memory, poke, if◌then◌else◌, Option-cases}

rewrite_check-away : (text : Memory) (at x : ℕ) → at + 6 ≤ x → rewrite_check text at x ≡ text x
unfolding rewrite_check poke
rewrite_check-away text at x after = ground (
  arith,
  nops-away 2 text at x (inr (omega arith)),
  nops-away 6 text at x (inr (omega arith)),
  near_jump-away text at x (inr after),
)

eof_check-near : (text : Memory) (i at : ℕ) → eof_check text i ≡ some at → at ≤ i + 5
unfolding eof_check
eof_check-near text i at h = ground arith

eof_round-away : (text : Memory) (i x : ℕ) → i + 11 ≤ x → eof_round text i x ≡ text x
unfolding eof_round
eof_round-away text i x after = elim (Option-cases (eof_check text i)) [
  | inl other ↦ rw (other, eof_round) refl
  | inr (at, found) ↦
      rw (found, eof_round)
        (rewrite_check-away text at x (omega (arith, after, eof_check-near text i at found)))
]

eof_loop-away :
    (left : ℕ) (text : Memory) (i x : ℕ)
    → ((j : ℕ) → j < left → i + j + 11 ≤ x)
    → eof_loop left text i x ≡ text x
unfolding eof_loop
eof_loop-away zero text i x after = refl
eof_loop-away (suc left) text i x after =
    eof_loop-away left (eof_round text i) (i + 1) x
      (λ j h. omega (arith, after (j + 1) (omega arith)))
    ∙ eof_round-away text i x (omega (arith, after 0 (omega arith)))

rewrite_getc-end :
    (text : Memory) (size : ℕ) (s : GetcSite) (x : ℕ)
    → IsSite text size s
    → size ≤ x
    → rewrite_getc text s x ≡ text x
rewrite_getc-end text size s x site after =
    let forms = jump_form-cases text size s.jmp_off s.is_forced s.jmp_len site.form in
    let room : s.jmp_off + s.jmp_len ≤ size = ground (arith, forms) in
    rewrite_getc-away text size s x site (inr (omega arith))
    ∙ nops-away s.store_len text s.store_at x (inr (omega (arith, site.after_store, room, after)))

getc_loop-end :
    (left : ℕ) (text : Memory) (size i patched x : ℕ)
    → size ≤ x
    → (getc_loop left text size i patched).0 x ≡ text x
unfolding getc_loop
getc_loop-end zero text size i patched x after = refl
getc_loop-end (suc left) text size i patched x after = elim (Option-cases (getc_site text size i)) [
  | inl other ↦ rw (other, getc_loop) (getc_loop-end left text size (i + 1) patched x after)
  | inr (s, found) ↦
      rw (found, getc_loop)
        (getc_loop-end left (rewrite_getc text s) size (i + 1) (patched + 1) x after
          ∙ rewrite_getc-end text size s x (getc_site-IsSite text size i s found) after)
]

putc_round-away : (text : Memory) (size i x : ℕ) → i + 13 ≤ x → putc_round text size i x ≡ text x
unfolding putc_round rewrite_putc poke
putc_round-away text size i x after = elim (Option-cases (putc_site text size i)) [
  | inl other ↦ rw (other, putc_round) refl
  | inr (s, found) ↦
      rw (found, putc_round) (ground (arith, nops-away 3 text (i + 6) x (inr (omega arith))))
]

putc_loop-end :
    (left : ℕ) (text : Memory) (size i x : ℕ)
    → ((j : ℕ) → j < left → i + j + 13 ≤ x)
    → putc_loop left text size i x ≡ text x
unfolding putc_loop
putc_loop-end zero text size i x after = refl
putc_loop-end (suc left) text size i x after =
    putc_loop-end left (putc_round text size i) size (i + 1) x
      (λ j h. omega (arith, after (j + 1) (omega arith)))
    ∙ putc_round-away text size i x (omega (arith, after 0 (omega arith)))

eof_if :
    (b : Bool) (left : ℕ) (text : Memory) (x : ℕ)
    → ((j : ℕ) → j < left → j + 11 ≤ x)
    → (if b then eof_loop left text 0 else text) x ≡ text x
eof_if true left text x after = eof_loop-away left text 0 x (λ j h. omega (arith, after j h))
eof_if false left text x after = refl

-- The rewriting of the stdio macros changes no byte further than three bytes past the end of the text.
pub patch_stdio-end :
    (forced : Bool) (size : ℕ) (text : Memory) (x : ℕ)
    → size + 3 ≤ x
    → (patch_stdio forced size text).0 x ≡ text x
unfolding patch_stdio
patch_stdio-end forced size text x after =
    let one = getc_loop (size - 17) text size 5 0 in
    putc_loop-end (size - 20) _ size 0 x (λ j h. omega arith)
    ∙ eof_if (patches_eof forced size one.1) (size - 7) one.0 x (λ j h. omega arith)
    ∙ getc_loop-end (size - 17) text size 5 0 x (omega arith)
