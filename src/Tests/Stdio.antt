-- ===== src/Tests/Stdio.antt =====
-- Runs of the rewriting of stdio macros in src/main.c.
use mac_ify.Loader.Stdio.{rewrite_check, rewrite_getc, rewrite_putc, patch_stdio}
use mac_ify.Loader.Stdio.Bounds.{patch_stdio-end}
use mac_ify.Loader.Stdio.Decode.{GetcSite, PutcSite, getc_site, getc_load, getc_store, getc_test}
use mac_ify.Loader.Stdio.Decode.{getc_jump, jump_form, dec_getc_op, decode_modrm, with_disp}
use mac_ify.Loader.Stdio.Decode.{is_rex, base_is, putc_site, putc_prologue, has_mod1, slow_label}
use mac_ify.Loader.Stdio.Decode.{plus_disp8, rel8, loads_char}
use mac_ify.Loader.Stdio.Jumps.{next_ip, steps}
use mac_ify.Loader.Stdio.Macros.{IsMacro}
use mac_ify.Loader.Stdio.Putc.{IsSlowBranch, StoresCount, LoadsChar, rewrite_putc-slow}
use mac_ify.Loader.Stdio.Rewrites.{rewrite_check-clear, rewrite_getc-slow}
use mac_ify.Prelude.{ℕ, ◌+◌, ◌%◌, ◌≤◌, ◌≡◌, refl, arith, List, [], ◌∷◌, Bool, true, false}
use mac_ify.Prelude.{Memory, load, ◌==◌, ◌||◌, has}
use mac_ify.Tests.Data.{from_list}

abbrev text_of : List ℕ → Memory
text_of bytes x = from_list bytes x % 256

-- The conditions with the zero flag set, and without it.
abbrev when_zero : ℕ → Bool
when_zero c = (c == 4) || (c == 14)

abbrev never : ℕ → Bool
never c = false

-- `je` to 22.
abbrev je_text : Memory
je_text = text_of (0x0f ∷ 0x84 ∷ 0x10 ∷ [])

rewrite_check-clear_example :
    (n : ℕ) × (steps n never (rewrite_check je_text 0) 0 ≡ next_ip when_zero je_text 0)
unfolding load
rewrite_check-clear_example =
    rewrite_check-clear never when_zero je_text 0 (λ x. omega arith) refl refl refl (omega arith)

-- `mov eax, [rdi+8]; lea ecx, [rax-1]; mov [rdi+8], ecx; test eax, eax; jle` to 18.
abbrev getc_text : Memory
getc_text =
    text_of (
      0x8b ∷ 0x47 ∷ 0x08 ∷ 0x8d ∷ 0x48 ∷ 0xff ∷ 0x89 ∷ 0x4f ∷ 0x08 ∷ 0x85 ∷ 0xc0 ∷ 0x7e ∷ 0x05 ∷ [])

abbrev getc_at_3 : GetcSite
getc_at_3 = record { store_at = 6; store_len = 3; jmp_off = 11; is_forced = true; jmp_len = 2 }

rewrite_getc-slow_example :
    IsMacro getc_text 3 getc_at_3
    × (steps 3 never (rewrite_getc getc_text getc_at_3) 6 ≡ 6 + 3)
    × ((n : ℕ) × (steps n never (rewrite_getc getc_text getc_at_3) 11
          ≡ next_ip when_zero getc_text 11))
unfolding load getc_site getc_load getc_store getc_test getc_jump jump_form dec_getc_op decode_modrm
    with_disp is_rex base_is has
rewrite_getc-slow_example =
    rewrite_getc-slow never when_zero getc_text 30 3 getc_at_3 (λ x. omega arith) refl refl refl
      (omega arith)

-- The same with the count of putc, and a character at 18.
abbrev putc_text : Memory
putc_text = text_of (
    0x8b ∷ 0x47 ∷ 0x0c ∷ 0x8d ∷ 0x48 ∷ 0xff ∷ 0x89 ∷ 0x4f ∷ 0x0c ∷ 0x85 ∷ 0xc0 ∷ 0x7e ∷ 0x05 ∷ 0 ∷ 0
    ∷ 0 ∷ 0 ∷ 0 ∷ 0xbf ∷ [])

abbrev putc_at_0 : PutcSite
putc_at_0 = record { slow = 18; rel = 5 }

rewrite_putc-slow_example :
    (steps 3 never (rewrite_putc putc_text 0 putc_at_0) 6 ≡ 0 + 9)
    × (next_ip never (rewrite_putc putc_text 0 putc_at_0) 11 ≡ 18)
    × StoresCount putc_text 0
    × ((p : ℕ) × IsSlowBranch putc_text 0 p × (next_ip (λ c. true) putc_text p ≡ 18))
    × (18 + 2 ≤ 40)
    × LoadsChar putc_text 18
unfolding putc_site putc_prologue has_mod1 slow_label plus_disp8 rel8 loads_char
rewrite_putc-slow_example = rewrite_putc-slow never putc_text 40 0 putc_at_0 refl

patch_stdio-end_example : (patch_stdio true 13 getc_text).0 16 ≡ getc_text 16
patch_stdio-end_example = patch_stdio-end true 13 getc_text 16 (omega arith)
