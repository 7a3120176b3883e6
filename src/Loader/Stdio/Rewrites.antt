-- ===== src/Loader/Stdio/Rewrites.antt =====
-- Where the rewritten stdio macros of src/main.c lead.
use mac_ify.Loader.Stdio.Decode.{GetcSite, getc_site}
use mac_ify.Loader.Stdio.Jumps.{next_ip, steps, nops-steps, nops-filled, nops-away, nops_lem}
use mac_ify.Loader.Stdio.Jumps.{short_jump_lem, near_jump_lem}
use mac_ify.Loader.Stdio.Macros.{IsMacro, getc_site-IsMacro}
use mac_ify.Loader.Stdio.Sites.{IsSite, getc_site-IsSite, jump_form-cases}
use mac_ify.Loader.Stdio.{nops, near_jump, rewrite_check, rewrite_getc}
use mac_ify.Prelude.{ℕ, ◌+◌, ◌-◌, ◌%◌, ◌^◌, ◌≤◌, ◌<◌, ◌≡◌, ◌≢◌, ◌⊎◌, inl, inr, refl, ◌∙◌, sym}
use mac_ify.Prelude.{arith, some, Bool, true, false, ◌&&◌, ◌||◌, Memory, load, load_cong}
use mac_ify.Prelude.{store_away, poke, ◌==◌, Bool-cases}

-- A text has bytes.
abbrev pub IsText : Memory → Type 0
IsText text = (x : ℕ) → text x < 256

load-word : (text : Memory) (a : ℕ) → IsText text → load 4 text a < 2 ^ 32
unfolding load
load-word text a bytes =
    omega (arith, bytes a, bytes (a + 1), bytes (a + 1 + 1), bytes (a + 1 + 1 + 1))

-- `je` and `jne`, short and near.
abbrev pub is_check_jump : Memory → ℕ → Bool
is_check_jump text at =
    text at == 0x74
    || text at == 0x75
    || (text at == 0x0f && (text (at + 1) == 0x84 || text (at + 1) == 0x85))

poked : (text : Memory) (at v : ℕ) → poke text at v at ≡ v
unfolding poke
poked text at v = ground arith

poked_next : (text : Memory) (at v : ℕ) → poke text at v (at + 1) ≡ text (at + 1)
unfolding poke
poked_next text at v = ground arith

-- The condition of a near jump.
at_code : (taken : ℕ → Bool) (op c : ℕ) → op ≡ 0x80 + c → taken c ≡ true → taken (op - 0x80) ≡ true
at_code taken op c is holds = let code : op - 0x80 ≡ c = omega arith in rw code holds

-- A conditional jump that does not hold leads past it.
not_taken :
    (taken : ℕ → Bool) (text : Memory) (p c : ℕ)
    → text p ≡ 0x70 + c
    → c < 16
    → taken c ≡ false
    → next_ip taken text p ≡ p + 2
unfolding next_ip
not_taken taken text p c op small off =
    let code : 0x70 + c - 0x70 ≡ c = omega arith in rw (op, code, off) (ground (arith, off, code))

not_taken_near :
    (taken : ℕ → Bool) (text : Memory) (p c : ℕ)
    → text p ≡ 0x0f
    → text (p + 1) ≡ 0x80 + c
    → taken c ≡ false
    → next_ip taken text p ≡ p + 6
unfolding next_ip
not_taken_near taken text p c op op' off =
    let code : 0x80 + c - 0x80 ≡ c = omega arith in rw (op, op', code, off) refl

-- After the rewrite of a test of a stream's flags, execution goes, whatever the flags say, where it went
-- before when the tested bit was clear; a near jump must not have the largest displacement.
pub rewrite_check-clear :
    (cond clear : ℕ → Bool) (text : Memory) (at : ℕ)
    → IsText text
    → clear 4 ≡ true
    → clear 5 ≡ false
    → is_check_jump text at ≡ true
    → load 4 text (at + 2) ≢ 2 ^ 31 - 1
    → (n : ℕ) × (steps n cond (rewrite_check text at) at ≡ next_ip clear text at)
unfolding rewrite_check steps
rewrite_check-clear cond clear text at bytes equal unequal found no_max =
    elim (Bool-cases (text at == 0x74)) [
      | inl je ↦ (
        1,
        rw je (
            short_jump_lem cond clear text (poke text at 0xeb) at 4 (ground (arith, je))
              (omega arith) equal (poked text at 0xeb) (poked_next text at 0xeb)),
      )
      | inr no_je ↦ elim (Bool-cases (text at == 0x75)) [
        | inl jne ↦ (
          2,
          rw (no_je, jne)
              (nops_lem 2 cond text at
                ∙ sym (not_taken clear text at 5 (ground (arith, jne)) (omega arith) unequal)),
        )
        | inr no_jne ↦
            let near : text at ≡ 0x0f = ground (arith, found, no_je, no_jne) in
            let equal_near = λ (je : (text (at + 1) == 0x84) ≡ true).
              at_code clear (text (at + 1)) 4 (ground (arith, je)) equal in
            elim (Bool-cases (text (at + 1) == 0x84)) [
              | inl je ↦ (
                1,
                rw (near, je)
                    (near_jump_lem cond clear text at near (equal_near je)
                      (load-word text (at + 2) bytes) no_max),
              )
              | inr no_near ↦
                  let jne : text (at + 1) ≡ 0x85 = ground (arith, found, no_je, no_jne, no_near) in
                  (
                    6,
                    rw (near, jne)
                        (nops_lem 6 cond text at
                          ∙ sym (not_taken_near clear text at 5 near jne unequal)),
                  )
            ]
      ]
    ]

-- What is at `p` and after it decides where the instruction at `p` leads.
next_ip_cong :
    (cond : ℕ → Bool) (text text' : Memory) (p : ℕ)
    → ((x : ℕ) → p ≤ x → text x ≡ text' x)
    → next_ip cond text p ≡ next_ip cond text' p
unfolding next_ip
next_ip_cong cond text text' p same =
    rw
      (
        same p (omega arith),
        same (p + 1) (omega arith),
        load_cong 4 text text' (p + 1) (λ x from to. same x (omega arith)),
        load_cong 4 text text' (p + 2) (λ x from to. same x (omega arith)),
      )
      refl

pub near_jump-away :
    (text : Memory) (at x : ℕ) → (x < at) ⊎ (at + 6 ≤ x) → near_jump text at x ≡ text x
unfolding near_jump poke
near_jump-away text at x (inl before) =
    let d = (load 4 text (at + 2) + 1) % 2 ^ 32 in
    ground (arith, store_away 4 (poke text at 0xe9) (at + 1) d x (inl (omega arith)))
near_jump-away text at x (inr after) =
    let d = (load 4 text (at + 2) + 1) % 2 ^ 32 in
    ground (arith, store_away 4 (poke text at 0xe9) (at + 1) d x (inr (omega arith)))

-- The text with nops in place of the store.
abbrev quiet_of : Memory → GetcSite → Memory
quiet_of text s = nops s.store_len text s.store_at

pub rewrite_getc-away :
    (text : Memory) (size : ℕ) (s : GetcSite) (x : ℕ)
    → IsSite text size s
    → (x < s.jmp_off) ⊎ (s.jmp_off + s.jmp_len ≤ x)
    → rewrite_getc text s x ≡ quiet_of text s x
unfolding rewrite_getc poke
rewrite_getc-away text size s x site away = ground (
  arith,
  jump_form-cases text size s.jmp_off s.is_forced s.jmp_len site.form,
  nops-away s.jmp_len (quiet_of text s) s.jmp_off x away,
  near_jump-away (quiet_of text s) s.jmp_off x,
)

-- The rewritten branch, in the text without the store.
rewrite_getc-branch :
    (cond slow : ℕ → Bool) (text : Memory) (size : ℕ) (s : GetcSite)
    → slow 14 ≡ true
    → slow 15 ≡ false
    → IsSite text size s
    → IsText text
    → load 4 text (s.jmp_off + 2) ≢ 2 ^ 31 - 1
    → (n : ℕ) × (steps n cond (rewrite_getc text s) s.jmp_off
        ≡ next_ip slow (quiet_of text s) s.jmp_off)
unfolding rewrite_getc steps
rewrite_getc-branch cond slow text size s le gt site bytes no_max =
    let q = quiet_of text s in
    let j = s.jmp_off in
    let same = λ (x : ℕ) (p : j ≤ x).
      nops-away s.store_len text s.store_at x (inr (omega (arith, p, site.after_store))) in
    elim (jump_form-cases text size j s.is_forced s.jmp_len site.form) [
      | inl (op, forced, two, room) ↦ (
        1,
        rw (forced, two)
            (short_jump_lem cond slow q (poke q j 0xeb) j 14 (same j (omega arith) ∙ op)
              (omega arith) le (poked q j 0xeb) (poked_next q j 0xeb)),
      )
      | inr (inl (op, forced, two, room)) ↦ (
        2,
        rw (forced, two)
            (nops_lem 2 cond q j
              ∙ sym (not_taken slow q j 15 (same j (omega arith) ∙ op) (omega arith) gt)),
      )
      | inr (inr (inl (op, op', forced, six, room))) ↦
          let word : load 4 q (j + 2) ≡ load 4 text (j + 2) =
            load_cong 4 q text (j + 2) (λ x from to. same x (omega arith)) in
          (
            1,
            rw (forced, six)
                (near_jump_lem cond slow q j (same j (omega arith) ∙ op)
                  (at_code slow (q (j + 1)) 14 (same (j + 1) (omega arith) ∙ op') le)
                  (rw word (load-word text (j + 2) bytes)) (rw word no_max)),
          )
      | inr (inr (inr (op, op', forced, six, room))) ↦ (
        6,
        rw (forced, six)
            (nops_lem 6 cond q j
              ∙ sym (
                  not_taken_near slow q j 15 (same j (omega arith) ∙ op)
                    (same (j + 1) (omega arith) ∙ op') gt)),
      )
    ]

-- Where a getc macro is found, the text has the macro around `i`: the load of the count, the `lea` that takes
-- one off it, the store of the less, the test of the count and the branch, one after the other. After the
-- rewrite execution passes the place of that store, which is nops, and goes from the branch, whatever the
-- count was, where it went before when none was left; a near jump must not have the largest displacement.
pub rewrite_getc-slow :
    (cond slow : ℕ → Bool) (text : Memory) (size i : ℕ) (s : GetcSite)
    → IsText text
    → slow 14 ≡ true
    → slow 15 ≡ false
    → getc_site text size i ≡ some s
    → load 4 text (s.jmp_off + 2) ≢ 2 ^ 31 - 1
    → IsMacro text i s
      × (steps s.store_len cond (rewrite_getc text s) s.store_at ≡ s.store_at + s.store_len)
      × ((n : ℕ) × (steps n cond (rewrite_getc text s) s.jmp_off ≡ next_ip slow text s.jmp_off))
rewrite_getc-slow cond slow text size i s bytes le gt found no_max =
    let site = getc_site-IsSite text size i s found in
    let branch = rewrite_getc-branch cond slow text size s le gt site bytes no_max in
    (
      getc_site-IsMacro text size i s found,
      nops-steps s.store_len cond (rewrite_getc text s) s.store_at (λ x from to.
          rewrite_getc-away text size s x site (inl (omega (arith, to, site.after_store)))
          ∙ nops-filled s.store_len text s.store_at x from to),
      (
        branch.0,
        branch.1
            ∙ next_ip_cong slow (quiet_of text s) text s.jmp_off (λ x p.
              nops-away s.store_len text s.store_at x (inr (omega (arith, p, site.after_store)))),
      ),
    )
