-- ===== src/Loader/Stdio/Jumps.antt =====
-- The instructions that the rewrites of Stdio deal with, and where they lead.
use mac_ify.Loader.Stdio.Decode.{plus_disp8}
use mac_ify.Loader.Stdio.{nops, near_jump}
use mac_ify.Prelude.{ℕ, zero, suc, ◌+◌, ◌-◌, ◌%◌, ◌^◌, ◌≤◌, ◌<◌, ◌≡◌, ◌≢◌, ◌⊎◌, inl, refl, ◌∙◌}
use mac_ify.Prelude.{arith, Bool, true, Memory, load, store, poke, store_away, load_cong}
use mac_ify.Prelude.{load-store, ltb, ◌==◌, if◌then◌else◌}

-- `p` and a displacement of 32 bits, as an offset of 64 bits.
abbrev pub plus_disp32 : ℕ → ℕ → ℕ
plus_disp32 p d = if ltb d (2 ^ 31) then (p + d) % 2 ^ 64 else (p + d + 2 ^ 64 - 2 ^ 32) % 2 ^ 64

-- Where execution goes from the instruction at `p`, a nop, a jump or a conditional jump; `cond` says which of
-- the sixteen conditions hold.
unfoldable pub next_ip : (ℕ → Bool) → Memory → ℕ → ℕ
next_ip cond text p =
    if text p == 0x90
    then p + 1
    else if text p == 0xeb
    then plus_disp8 (p + 2) (text (p + 1))
    else if text p == 0xe9
    then plus_disp32 (p + 5) (load 4 text (p + 1))
    else if text p == 0x0f
    then (if cond (text (p + 1) - 0x80) then plus_disp32 (p + 6) (load 4 text (p + 2)) else p + 6)
    else if cond (text p - 0x70)
    then plus_disp8 (p + 2) (text (p + 1))
    else p + 2

-- Where execution is after `n` instructions.
unfoldable pub steps : ℕ → (ℕ → Bool) → Memory → ℕ → ℕ
steps zero cond text p = p
steps (suc n) cond text p = steps n cond text (next_ip cond text p)

pub nops-steps :
    (n : ℕ) (cond : ℕ → Bool) (text : Memory) (p : ℕ)
    → ((x : ℕ) → p ≤ x → x < p + n → text x ≡ 0x90)
    → steps n cond text p ≡ p + n
unfolding steps next_ip
nops-steps zero cond text p filled = omega arith
nops-steps (suc n) cond text p filled =
    let at : next_ip cond text p ≡ p + 1 = rw (filled p (omega arith) (omega arith)) refl in
    rw at (
      nops-steps n cond text (p + 1) (λ x from to. filled x (omega arith) (omega arith))
      ∙ omega arith)

pub nops-filled : (n : ℕ) (text : Memory) (at x : ℕ) → at ≤ x → x < at + n → nops n text at x ≡ 0x90
unfolding nops
nops-filled n text at x from to = ground arith

pub nops-away :
    (n : ℕ) (text : Memory) (at x : ℕ) → (x < at) ⊎ (at + n ≤ x) → nops n text at x ≡ text x
unfolding nops
nops-away n text at x away = ground arith

-- Nops in place of an instruction lead past it.
pub nops_lem :
    (n : ℕ) (cond : ℕ → Bool) (text : Memory) (p : ℕ) → steps n cond (nops n text p) p ≡ p + n
nops_lem n cond text p = nops-steps n cond (nops n text p) p (nops-filled n text p)

-- A short jump leads where the conditional one leads when its condition holds.
pub short_jump_lem :
    (cond taken : ℕ → Bool) (text text' : Memory) (p c : ℕ)
    → text p ≡ 0x70 + c
    → c < 16
    → taken c ≡ true
    → text' p ≡ 0xeb
    → text' (p + 1) ≡ text (p + 1)
    → next_ip cond text' p ≡ next_ip taken text p
unfolding next_ip
short_jump_lem cond taken text text' p c op small holds jmp same =
    let code : 0x70 + c - 0x70 ≡ c = omega arith in
    rw (op, jmp, same, code, holds) (ground (arith, holds, code))

near_jump-bytes :
    (text : Memory) (at : ℕ)
    → (near_jump text at at ≡ 0xe9)
      × (load 4 (near_jump text at) (at + 1) ≡ (load 4 text (at + 2) + 1) % 2 ^ 32)
unfolding near_jump poke
near_jump-bytes text at =
    let d = (load 4 text (at + 2) + 1) % 2 ^ 32 in
    let jump = store 4 (poke text at 0xe9) (at + 1) d in
    (
      ground (arith, store_away 4 (poke text at 0xe9) (at + 1) d at (inl (omega arith))),
      load_cong 4 (near_jump text at) jump (at + 1) (λ x from to. ground arith)
          ∙ load-store 4 (poke text at 0xe9) (at + 1) d (omega arith),
    )

-- A displacement from one byte before.
plus_disp32-next :
    (p d : ℕ)
    → d < 2 ^ 32
    → d ≢ 2 ^ 31 - 1
    → plus_disp32 (p + 5) ((d + 1) % 2 ^ 32) ≡ plus_disp32 (p + 6) d
plus_disp32-next p d word no_max = ground arith

-- A near jump leads where the conditional one leads when its condition holds, but for the largest
-- displacement.
pub near_jump_lem :
    (cond taken : ℕ → Bool) (text : Memory) (p : ℕ)
    → text p ≡ 0x0f
    → taken (text (p + 1) - 0x80) ≡ true
    → load 4 text (p + 2) < 2 ^ 32
    → load 4 text (p + 2) ≢ 2 ^ 31 - 1
    → next_ip cond (near_jump text p) p ≡ next_ip taken text p
unfolding next_ip
near_jump_lem cond taken text p op holds word no_max =
    let b = near_jump-bytes text p in
    rw (b.0, b.1, op, holds) (plus_disp32-next p (load 4 text (p + 2)) word no_max)
