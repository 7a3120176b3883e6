-- ===== src/Syscall/Patcher/Trampolines.antt =====
-- The code that `patch_go_systemstack` of src/syscall/patcher.c writes, and the probe.
use mac_ify.Prelude.{ℕ, zero, suc, ◌+◌, ◌-◌, ◌^◌, ◌≤◌, ◌<◌, ◌≡◌, ◌⊎◌, inl, inr, refl, ◌∙◌, arith}
use mac_ify.Prelude.{[], ◌∷◌, ◌++◌, List}
use mac_ify.Prelude.{Memory, poke, load, store, load-store, load-store_away, load_cong, ltb, ◌==◌}
use mac_ify.Prelude.{true, false, length, if◌then◌else◌, if_elim, Bool-cases, max}
use mac_ify.Syscall.Patcher.Go.{set_tls_g, write_all, write_t1, write_t2, write_switch}
use mac_ify.Syscall.Patcher.Go.{install_trampolines, is_switch, padded, find_padding}
use mac_ify.Syscall.Patcher.Go.{find_pop_ret, systemstack_loop, patch_go_systemstack, rel32}
use mac_ify.Syscall.Patcher.Go.{je_off, probe_loop, patch_go_gs_probe, is_probe, matches}

-- Where the jump whose four-byte displacement stands at `at` leads, in a text of less than 2 GiB.
unfoldable pub jump_target : Memory → ℕ → ℕ
jump_target base at =
    let rel = load 4 base at in if ltb rel (2 ^ 31) then at + 4 + rel else at + 4 + rel - 2 ^ 32

write_all_away :
    (bytes : List ℕ) (m : Memory) (a x : ℕ)
    → (x < a) ⊎ (a + length bytes ≤ x)
    → write_all m a bytes x ≡ m x
unfolding write_all poke
write_all_away [] m a x h = refl
write_all_away (b ∷ bytes) m a x h = ground (arith, write_all_away bytes (poke m a b) (a + 1) x)

-- A displacement that more code follows is read back.
jump_written :
    (m : Memory) (at after v : ℕ) (bytes : List ℕ)
    → after ≡ at + 4
    → v < 2 ^ 32
    → load 4 (write_all (store 4 m at v) after bytes) at ≡ v
jump_written m at after v bytes e small =
    load_cong 4 (write_all (store 4 m at v) after bytes) (store 4 m at v) at
      (λ x p q. write_all_away bytes (store 4 m at v) after x (inl (omega arith)))
    ∙ load-store 4 m at v small

-- A displacement leads to its target.
rel32-target :
    (m : Memory) (at target end : ℕ)
    → end ≡ at + 4
    → end < 2 ^ 31
    → target < 2 ^ 31
    → load 4 m at ≡ rel32 target end
    → jump_target m at ≡ target
unfolding jump_target
rel32-target m at target end after h k e = rw e (ground arith)

-- The code of `write_switch` up to its first jump, without and with that jump.
abbrev test_written : Memory → ℕ → Memory
test_written base i = write_all base i (0x48 ∷ 0x85 ∷ 0xC0 ∷ 0x0F ∷ 0x84 ∷ [])

abbrev je_written : Memory → ℕ → ℕ → Memory
je_written base i t1_off = store 4 (test_written base i) (i + 5) (rel32 t1_off (i + 3 + 6))

module _ (base : Memory) (i t1_off pop_ret_off : ℕ) where
  write_t1-away :
      (x : ℕ) → (x < t1_off) ⊎ (t1_off + 22 ≤ x) → write_t1 base t1_off pop_ret_off x ≡ base x
  unfolding write_t1 write_all store poke load
  write_t1-away x h = ground arith

  write_t1-jump :
      load 4 (write_t1 base t1_off pop_ret_off) (t1_off + 13) ≡ rel32 pop_ret_off (t1_off + 17)
  unfolding write_t1
  write_t1-jump =
      jump_written (write_all base t1_off (0x48 ∷ 0x8b ∷ 0x03 ∷ set_tls_g ++ (0xE9 ∷ [])))
        (t1_off + 13) (t1_off + 17) (rel32 pop_ret_off (t1_off + 17))
        (0x90 ∷ 0x90 ∷ 0x90 ∷ 0x90 ∷ 0x90 ∷ []) (omega arith) (omega arith)

  write_t2-away : (x : ℕ) → (x < t1_off) ⊎ (t1_off + 22 ≤ x) → write_t2 base t1_off i x ≡ base x
  unfolding write_t2 write_all store poke load
  write_t2-away x h = ground arith

  write_t2-jump : load 4 (write_t2 base t1_off i) (t1_off + 18) ≡ rel32 (i + 17) (t1_off + 22)
  unfolding write_t2
  write_t2-jump =
      load-store 4
        (write_all base t1_off (
          set_tls_g
          ++ (0x48 ∷ 0x8b ∷ 0x60 ∷ 0x38 ∷ 0x48 ∷ 0x8b ∷ 0x68 ∷ base (i + 16) ∷ 0xE9 ∷ [])))
        (t1_off + 18) (rel32 (i + 17) (t1_off + 22)) (omega arith)

  write_switch-away :
      (x t2_off : ℕ) → (x < i) ⊎ (i + 14 ≤ x) → write_switch base i t1_off t2_off x ≡ base x
  unfolding write_switch write_all store poke load
  write_switch-away x t2_off h = ground arith

  write_switch-jumps :
      (t2_off : ℕ)
      → (load 4 (write_switch base i t1_off t2_off) (i + 5) ≡ rel32 t1_off (i + 3 + 6))
        × (load 4 (write_switch base i t1_off t2_off) (i + 10) ≡ rel32 t2_off (i + 14))
  unfolding write_switch
  write_switch-jumps t2_off = (
    load-store_away 4 4 (poke (je_written base i t1_off) (i + 9) 0xE9) (i + 10) (i + 5)
          (rel32 t2_off (i + 14)) (inl (omega arith))
        ∙ load_cong 4 (poke (je_written base i t1_off) (i + 9) 0xE9) (je_written base i t1_off)
            (i + 5) (λ x p q. unfold poke in ground arith)
        ∙ load-store 4 (test_written base i) (i + 5) (rel32 t1_off (i + 3 + 6)) (omega arith),
    load-store 4 (poke (je_written base i t1_off) (i + 9) 0xE9) (i + 10) (rel32 t2_off (i + 14))
        (omega arith),
  )

-- Where the jumps of the three pieces of code lead.
pub record Jumps (m : Memory) (i t1_off pop_ret_off : ℕ) : Type 0 where
  pub no_curg : jump_target m (i + 5) ≡ t1_off
  pub curg : jump_target m (i + 10) ≡ t1_off + 22
  pub back_to_pop : jump_target m (t1_off + 13) ≡ pop_ret_off
  pub back_to_switch : jump_target m (t1_off + 22 + 18) ≡ i + 17

install_trampolines-Jumps :
    (base : Memory) (i t1_off pop_ret_off : ℕ)
    → i + 20 ≤ t1_off
    → t1_off + 44 < 2 ^ 31
    → pop_ret_off < 2 ^ 31
    → Jumps (install_trampolines base i t1_off pop_ret_off) i t1_off pop_ret_off
unfolding install_trampolines
install_trampolines-Jumps base i t1_off pop_ret_off apart small small' = record {
  no_curg =
      rel32-target m (i + 5) t1_off (i + 3 + 6) (omega arith) (omega arith) (omega arith)
        ((write_switch-jumps m2 i t1_off pop_ret_off (t1_off + 22)).0);
  curg =
      rel32-target m (i + 10) (t1_off + 22) (i + 14) (omega arith) (omega arith) (omega arith)
        ((write_switch-jumps m2 i t1_off pop_ret_off (t1_off + 22)).1);
  back_to_pop =
      rel32-target m (t1_off + 13) pop_ret_off (t1_off + 17) (omega arith) (omega arith)
        (omega arith)
        (load_cong 4 m m1 (t1_off + 13) (λ x p q.
            write_switch-away m2 i t1_off pop_ret_off x (t1_off + 22) (inr (omega arith))
            ∙ write_t2-away m1 i (t1_off + 22) pop_ret_off x (inl (omega arith)))
          ∙ write_t1-jump base i t1_off pop_ret_off);
  back_to_switch =
      rel32-target m (t1_off + 22 + 18) (i + 17) (t1_off + 22 + 22) (omega arith) (omega arith)
        (omega arith)
        (load_cong 4 m m2 (t1_off + 22 + 18)
            (λ x p q. write_switch-away m2 i t1_off pop_ret_off x (t1_off + 22) (inr (omega arith)))
          ∙ write_t2-jump m1 i (t1_off + 22) pop_ret_off);
}
  where
    m1 : Memory
    m1 = write_t1 base t1_off pop_ret_off

    m2 : Memory
    m2 = write_t2 m1 (t1_off + 22) i

    m : Memory
    m = write_switch m2 i t1_off (t1_off + 22)

find_padding-bounds :
    (vmsize : ℕ) (base : Memory) (j left : ℕ)
    → let t = find_padding vmsize base j left in
      (t ≡ 0) ⊎ ((j ≤ t) × (t < j + left) × (padded vmsize base t 39 ≡ true))
unfolding find_padding
find_padding-bounds vmsize base j zero = inl refl
find_padding-bounds vmsize base j (suc left) =
    ground (arith, find_padding-bounds vmsize base (j + 1) left)

find_pop_ret-bounds :
    (base : Memory) (j left : ℕ)
    → let t = find_pop_ret base j left in
      (t ≡ 0) ⊎ ((j ≤ t) × (t < j + left) × (base t ≡ 0x5d) × (base (t + 1) ≡ 0xc3))
unfolding find_pop_ret
find_pop_ret-bounds base j zero = inl refl
find_pop_ret-bounds base j (suc left) = ground (arith, find_pop_ret-bounds base (j + 1) left)

-- A place of the switch in the text, with the padding and the return that were found for it.
pub record Found (vmsize : ℕ) (base : Memory) (i t1_off pop_ret_off : ℕ) : Type 0 where
  pub switch : is_switch base i ≡ true
  pub padding : padded vmsize base t1_off 39 ≡ true
  pub pop : (base pop_ret_off ≡ 0x5d) × (base (pop_ret_off + 1) ≡ 0xc3)
  pub apart : (i + 20 ≤ t1_off) × (t1_off + 39 < vmsize)
  pub near : (i + 17 ≤ pop_ret_off) × (pop_ret_off < i + 50)

pub data Patch (vmsize : ℕ) (base : Memory) : Memory → Type 0 where
  no_match : Patch vmsize base base
  patched :
      (i t1_off pop_ret_off : ℕ)
      → Found vmsize base i t1_off pop_ret_off
      → Jumps (install_trampolines base i t1_off pop_ret_off) i t1_off pop_ret_off
      → Patch vmsize base (install_trampolines base i t1_off pop_ret_off)

systemstack_loop-Patch :
    (vmsize : ℕ) (base : Memory) (i left : ℕ)
    → vmsize + 50 < 2 ^ 31
    → i + left ≤ vmsize
    → Patch vmsize base (systemstack_loop vmsize base i left)
unfolding systemstack_loop
systemstack_loop-Patch vmsize base i zero small inside = no_match
systemstack_loop-Patch vmsize base i (suc left) small inside =
    let rest = systemstack_loop-Patch vmsize base (i + 1) left small (omega arith) in
    let t1_off = find_padding vmsize base (i + 20) (vmsize - (i + 20 + 39)) in
    let pop_ret_off = find_pop_ret base (i + 17) 33 in
    elim (Bool-cases (is_switch base i)) [
      | inr misses ↦ rw misses rest
      | inl here ↦ elim (find_padding-bounds vmsize base (i + 20) (vmsize - (i + 20 + 39))) [
        | inl no_padding ↦ rw (here, no_padding) rest
        | inr (lo, hi, padding) ↦ elim (find_pop_ret-bounds base (i + 17) 33) [
          | inl no_pop ↦ rw (here, no_pop) (if_elim (Patch vmsize base) (t1_off == 0) rest rest)
          | inr (lo', hi', pop, ret) ↦
              let found : (t1_off == 0) ≡ false = ground arith in
              let found' : (pop_ret_off == 0) ≡ false = ground arith in
              rw (here, found, found')
                (patched i t1_off pop_ret_off
                  (record {
                    switch = here;
                    padding = padding;
                    pop = (pop, ret);
                    apart = (lo, omega arith);
                    near = (lo', omega arith);
                  })
                  (install_trampolines-Jumps base i t1_off pop_ret_off lo (omega arith)
                    (omega arith)))
        ]
      ]
    ]

-- In a text that is more than 50 bytes short of 2 GiB the patch leaves all as it is, or it is applied
-- at one place where the code matches, with 39 bytes of padding after it and a return within 50
-- bytes, and then the four jumps lead where they should: to the first piece of code without a
-- current goroutine, to the second with one, from the first to the return, and from the second to
-- the code after the switch.
pub patch_go_systemstack-Patch :
    (vmsize : ℕ) (base : Memory)
    → vmsize + 50 < 2 ^ 31
    → Patch vmsize base (patch_go_systemstack vmsize base)
unfolding patch_go_systemstack
patch_go_systemstack-Patch vmsize base small =
    systemstack_loop-Patch vmsize base 0 (vmsize - 34) small (omega arith)

write_t2-byte : (base : Memory) (i t2_off : ℕ) → write_t2 base t2_off i (t2_off + 17) ≡ 0xE9
unfolding write_t2 write_all store poke
write_t2-byte base i t2_off = ground arith

-- The two pieces of code take 44 bytes, and 39 of padding are looked for: whatever the padding that
-- was found, the byte after it becomes the opcode of a jump.
install_trampolines-overrun :
    (vmsize : ℕ) (base : Memory) (i t1_off pop_ret_off : ℕ)
    → Found vmsize base i t1_off pop_ret_off
    → install_trampolines base i t1_off pop_ret_off (t1_off + 39) ≡ 0xE9
unfolding install_trampolines
install_trampolines-overrun vmsize base i t1_off pop_ret_off found =
    let (before, inside) = found.apart in
    write_switch-away m2 i t1_off pop_ret_off (t1_off + 39) (t1_off + 22) (inr (omega arith))
    ∙ rw byte_39 (write_t2-byte m1 i (t1_off + 22))
  where
    m1 : Memory
    m1 = write_t1 base t1_off pop_ret_off

    m2 : Memory
    m2 = write_t2 m1 (t1_off + 22) i

    byte_39 : t1_off + 39 ≡ t1_off + 22 + 17
    byte_39 = omega arith

is_probe-je : (base : Memory) (i : ℕ) → is_probe base i ≡ true → base (i + je_off) ≡ 0x74
unfolding is_probe matches
is_probe-je base i h = ground arith

-- What the probe patch does: nothing, or one conditional jump becomes unconditional.
pub data OneJump (vmsize : ℕ) (base : Memory) : Memory → Type 0 where
  no_probe : OneJump vmsize base base
  one_jump :
      (i : ℕ)
      → is_probe base i ≡ true
      → base (i + je_off) ≡ 0x74
      → i + je_off + 2 < vmsize
      → OneJump vmsize base (poke base (i + je_off) 0xeb)

probe_loop-OneJump :
    (vmsize : ℕ) (base : Memory) (i left : ℕ)
    → i + left + 28 ≤ max vmsize 28
    → OneJump vmsize base (probe_loop base i left)
unfolding probe_loop
probe_loop-OneJump vmsize base i zero h = no_probe
probe_loop-OneJump vmsize base i (suc left) h = elim (Bool-cases (is_probe base i)) [
  | inl here ↦ rw here (one_jump i here (is_probe-je base i here) (omega arith))
  | inr missing ↦ rw missing (probe_loop-OneJump vmsize base (i + 1) left (omega arith))
]

-- The patch of the probe changes nothing, or one byte in the text: the opcode 0x74 of the
-- conditional jump of a probe becomes 0xEB, the jump of the same length without a condition.
patch_go_gs_probe-OneJump :
    (vmsize : ℕ) (base : Memory) → OneJump vmsize base (patch_go_gs_probe vmsize base)
unfolding patch_go_gs_probe
patch_go_gs_probe-OneJump vmsize base = probe_loop-OneJump vmsize base 0 (vmsize - 28) (omega arith)
