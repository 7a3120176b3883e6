-- ===== src/Loader/Stdio/Putc.antt =====
-- Where the rewritten putc macros of src/main.c lead.
use mac_ify.Loader.Stdio.Decode.{
  PutcSite, putc_site, putc_prologue, slow_label, slow_check, loads_char,
}
use mac_ify.Loader.Stdio.Decode.{plus_disp8}
use mac_ify.Loader.Stdio.Jumps.{next_ip, steps, nops-steps, nops-filled}
use mac_ify.Loader.Stdio.{rewrite_putc}
use mac_ify.Prelude.{ℕ, ◌+◌, ◌/◌, ◌%◌, ◌≤◌, ◌<◌, ◌≡◌, ◌⊎◌, ◌∙◌, arith, some, Bool, true, Memory}
use mac_ify.Prelude.{poke, ◌==◌, ◌&&◌, Bool-cases, Option-cases, inl, inr}

-- The label of a site.
record IsLabel (text : Memory) (size i : ℕ) (s : PutcSite) : Type 0 where
  pub prologue : putc_prologue text i ≡ true
  pub leads : slow_label text i ≡ some s.slow
  pub inside : s.slow + 2 ≤ size
  pub reached : plus_disp8 (i + 13) s.rel ≡ s.slow
  pub loads : loads_char text s.slow ≡ true

putc_site-IsLabel :
    (text : Memory) (size i : ℕ) (s : PutcSite)
    → putc_site text size i ≡ some s
    → IsLabel text size i s
unfolding putc_site
putc_site-IsLabel text size i s h = elim (Bool-cases (putc_prologue text i)) [
  | inr other ↦ absurd (ground (arith, other))
  | inl prologue ↦ elim (Option-cases (slow_label text i)) [
    | inl unknown ↦ absurd (ground (arith, prologue, unknown))
    | inr (slow, found) ↦ record {
      prologue = prologue;
      leads = ground (arith, prologue, found);
      inside = ground (arith, prologue, found);
      reached = ground (arith, prologue, found);
      loads = ground (arith, prologue, found);
    }
  ]
]

-- The bytes of the store are nops after the rewrite.
rewrite_putc-nops :
    (text : Memory) (i : ℕ) (s : PutcSite) (x : ℕ)
    → i + 6 ≤ x
    → x < i + 9
    → rewrite_putc text i s x ≡ 0x90
unfolding rewrite_putc poke
rewrite_putc-nops text i s x from to =
    ground (arith, nops-filled 3 text (i + 6) x from (omega arith))

rewrite_putc-jump :
    (cond : ℕ → Bool) (text : Memory) (i : ℕ) (s : PutcSite)
    → next_ip cond (rewrite_putc text i s) (i + 11) ≡ plus_disp8 (i + 13) s.rel
unfolding rewrite_putc poke next_ip
rewrite_putc-jump cond text i s = ground arith

-- The check at `q` has its branch to `__swbuf` at `p`: `je`; `cmp al, 10` and `je`; or a `cmp` with memory or
-- with a number and `jle`.
abbrev pub IsCheck : Memory → ℕ → ℕ → Type 0
IsCheck text q p =
    ((p ≡ q) × (text p ≡ 0x74))
    ⊎ ((p ≡ q + 2) × (text q ≡ 0x3c) × (text (q + 1) ≡ 10) × (text p ≡ 0x74))
    ⊎ ((p ≡ q + 3) × (text q ≡ 0x3b) × (text p ≡ 0x7e))
    ⊎ ((p ≡ q + 5) × (text q ≡ 0x3d) × (text p ≡ 0x7e))

-- The branch to `__swbuf` of the macro at `i` is at `p`: the `jle` at `i + 11`, or that of the check after
-- a `jg` there.
abbrev pub IsSlowBranch : Memory → ℕ → ℕ → Type 0
IsSlowBranch text i p =
    ((p ≡ i + 11) × (text p ≡ 0x7e)) ⊎ ((text (i + 11) ≡ 0x7f) × IsCheck text (i + 13) p)

-- The macro at `i` loads the count at `[rB+12]`, and stores it again at `i + 6` with the register that `lea`
-- has put the less into.
abbrev pub StoresCount : Memory → ℕ → Type 0
StoresCount text i =
    (text i ≡ 0x8b)
    × (text (i + 2) ≡ 12)
    × (text (i + 3) ≡ 0x8d)
    × (text (i + 5) ≡ 0xff)
    × (text (i + 6) ≡ 0x89)
    × (text (i + 7) / 8 % 8 ≡ text (i + 4) / 8 % 8)
    × (text (i + 7) % 8 ≡ text (i + 1) % 8)
    × (text (i + 8) ≡ 12)

-- `mov edi` with a number, or `movsbl`.
abbrev pub LoadsChar : Memory → ℕ → Type 0
LoadsChar text p = (text p ≡ 0xbf) ⊎ ((text p ≡ 0x0f) × (text (p + 1) ≡ 0xbe))

prologue-StoresCount : (text : Memory) (i : ℕ) → putc_prologue text i ≡ true → StoresCount text i
unfolding putc_prologue
prologue-StoresCount text i h = ground arith

-- A branch that holds leads by its displacement.
branch_lem :
    (text : Memory) (p : ℕ)
    → (text p ≡ 0x74) ⊎ (text p ≡ 0x7e)
    → next_ip (λ c. true) text p ≡ plus_disp8 (p + 2) (text (p + 1))
unfolding next_ip
branch_lem text p h = ground arith

slow_check-branch :
    (text : Memory) (q slow : ℕ)
    → slow_check text q ≡ some slow
    → (p : ℕ) × IsCheck text q p × (next_ip (λ c. true) text p ≡ slow)
unfolding slow_check
slow_check-branch text q slow h = elim (Bool-cases (text q == 0x74)) [
  | inl je ↦ (q, ground (arith, je), branch_lem text q (ground (arith, je)) ∙ ground (arith, je))
  | inr no_je ↦ elim (Bool-cases (text q == 0x3c && text (q + 1) == 0x0a && text (q + 2) == 0x74)) [
    | inl newline ↦ (
      q + 2,
      ground (arith, newline),
      branch_lem text (q + 2) (ground (arith, newline)) ∙ ground (arith, no_je, newline),
    )
    | inr no_newline ↦ elim (Bool-cases (text q == 0x3b && text (q + 3) == 0x7e)) [
      | inl memory ↦ (
        q + 3,
        ground (arith, memory),
        branch_lem text (q + 3) (ground (arith, memory))
            ∙ ground (arith, no_je, no_newline, memory),
      )
      | inr no_memory ↦ (
        q + 5,
        ground (arith, no_je, no_newline, no_memory),
        branch_lem text (q + 5) (ground (arith, no_je, no_newline, no_memory))
            ∙ ground (arith, no_je, no_newline, no_memory),
      )
    ]
  ]
]

slow_label-branch :
    (text : Memory) (i slow : ℕ)
    → slow_label text i ≡ some slow
    → (p : ℕ) × IsSlowBranch text i p × (next_ip (λ c. true) text p ≡ slow)
unfolding slow_label
slow_label-branch text i slow h = elim (Bool-cases (text (i + 11) == 0x7e)) [
  | inl jle ↦ (
    i + 11,
    ground (arith, jle),
    branch_lem text (i + 11) (ground (arith, jle)) ∙ ground (arith, jle),
  )
  | inr no_jle ↦
      let (p, check, leads) = slow_check-branch text (i + 13) slow (ground (arith, no_jle)) in
      let jg : text (i + 11) ≡ 0x7f = ground (arith, no_jle) in (p, inr (jg, check), leads)
]

loads-LoadsChar : (text : Memory) (p : ℕ) → loads_char text p ≡ true → LoadsChar text p
unfolding loads_char
loads-LoadsChar text p h = ground arith

-- Where a putc macro is found at `i`, it stores the count at `i + 6`. After the rewrite execution passes that
-- place, which is nops, and goes from `i + 11` always to the label where the macro's branch to `__swbuf` led
-- before when it was taken: it lies within the text and loads the character for `__swbuf`.
pub rewrite_putc-slow :
    (cond : ℕ → Bool) (text : Memory) (size i : ℕ) (s : PutcSite)
    → putc_site text size i ≡ some s
    → (steps 3 cond (rewrite_putc text i s) (i + 6) ≡ i + 9)
      × (next_ip cond (rewrite_putc text i s) (i + 11) ≡ s.slow)
      × StoresCount text i
      × ((p : ℕ) × IsSlowBranch text i p × (next_ip (λ c. true) text p ≡ s.slow))
      × (s.slow + 2 ≤ size)
      × LoadsChar text s.slow
rewrite_putc-slow cond text size i s found =
    let label = putc_site-IsLabel text size i s found in
    (
      nops-steps 3 cond (rewrite_putc text i s) (i + 6)
            (λ x from to. rewrite_putc-nops text i s x from (omega arith))
          ∙ omega arith,
      rewrite_putc-jump cond text i s ∙ label.reached,
      prologue-StoresCount text i label.prologue,
      slow_label-branch text i s.slow label.leads,
      label.inside,
      loads-LoadsChar text s.slow label.loads,
    )
