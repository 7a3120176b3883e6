-- ===== src/Syscall/Patcher/Sites.antt =====
-- What `patch_syscalls_in_range` of src/syscall/patcher.c changes.
use mac_ify.Prelude.{ℕ, zero, suc, ◌+◌, ◌-◌, ◌^◌, ◌≤◌, ◌<◌, ◌≡◌, ◌≢◌, ◌⊎◌, inl, inr, refl, ◌∙◌}
use mac_ify.Prelude.{arith}
use mac_ify.Prelude.{Option, none, some, Memory, poke, load, Bool, true, false, Bool-cases}
use mac_ify.Syscall.Patcher.Scan.{PatchState, patch_site, patch_sites, patch_found}
use mac_ify.Syscall.Patcher.Scan.{patch_syscalls_in_range}
use mac_ify.Syscall.Patcher.Scan.{find_mov, has_pattern, found_pattern, to_slow, to_fast, is_fast}
use mac_ify.Syscall.Patcher.Scan.{mov_number, end_of_range}
use mac_ify.Syscall.Table.{bsd_to_linux, bsd_to_linux-bound, bsd_arg_flags}

-- The `mov` that is found lies between the ends of the search.
find_mov-bounds :
    (base : Memory) (start j k : ℕ) → find_mov base start j ≡ some k → (start ≤ k) × (k ≤ j)
unfolding find_mov
find_mov-bounds base start zero k e = ground arith
find_mov-bounds base start (suc j) k e = ground (arith, find_mov-bounds base start j k)

-- A pattern is found only before an instruction that leaves room for it.
found_pattern-room :
    (base : Memory) (i start : ℕ) → found_pattern base i start (i - 5) ≡ true → 5 ≤ i
unfolding found_pattern has_pattern
found_pattern-room base zero start e = ground arith
found_pattern-room base (suc zero) start e = ground arith
found_pattern-room base (suc (suc zero)) start e = ground arith
found_pattern-room base (suc (suc (suc zero))) start e = ground arith
found_pattern-room base (suc (suc (suc (suc zero)))) start e = ground arith
found_pattern-room base (suc (suc (suc (suc (suc i))))) start e = omega arith

-- Bytes more than 31 before a site, or after its two, stay.
module _ (no_fast_path : Bool) (st : PatchState) (i x : ℕ) (away : (x + 32 ≤ i) ⊎ (i + 1 < x)) where
  to_slow-kept : (to_slow st i).text x ≡ st.text x
  unfolding to_slow poke
  to_slow-kept = ground arith

  to_fast-kept : (k n : ℕ) → i ≤ k + 32 → k + 5 ≤ i → (to_fast st k n).text x ≡ st.text x
  unfolding to_fast poke
  to_fast-kept k n lo hi = ground arith

  patch_found-kept :
      (o : Option ℕ)
      → ((k : ℕ) → o ≡ some k → (i ≤ k + 32) × (k + 5 ≤ i))
      → (patch_found no_fast_path st i o).text x ≡ st.text x
  unfolding patch_found
  patch_found-kept none near = to_slow-kept
  patch_found-kept (some k) near =
      ground
        (arith, to_slow-kept, to_fast-kept k (bsd_to_linux (mov_number st.text k)), near k refl)

  patch_site-kept : (patch_site no_fast_path st i).text x ≡ st.text x
  unfolding patch_site
  patch_site-kept = elim (Bool-cases (found_pattern st.text i (i - 32) (i - 5))) [
    | inl found ↦
        let room = found_pattern-room st.text i (i - 32) found in
        ground (
          arith,
          patch_found-kept (find_mov st.text (i - 32) (i - 5)) (λ k e.
              let near = find_mov-bounds st.text (i - 32) (i - 5) k e in
              (omega arith, omega arith)),
        )
    | inr missing ↦ ground (arith, missing)
  ]

patch_sites-kept :
    (no_fast_path : Bool) (st : PatchState) (i left x : ℕ)
    → (x + 32 ≤ i) ⊎ (i + left < x)
    → (patch_sites no_fast_path st i left).text x ≡ st.text x
unfolding patch_sites
patch_sites-kept no_fast_path st i zero x away = refl
patch_sites-kept no_fast_path st i (suc left) x away =
    patch_sites-kept no_fast_path (patch_site no_fast_path st i) (i + 1) left x (later away)
    ∙ patch_site-kept no_fast_path st i x (now away)
  where
    later : (x + 32 ≤ i) ⊎ (i + suc left < x) → (x + 32 ≤ i + 1) ⊎ (i + 1 + left < x)
    later (inl h) = inl (omega arith)
    later (inr h) = inr (omega arith)

    now : (x + 32 ≤ i) ⊎ (i + suc left < x) → (x + 32 ≤ i) ⊎ (i + 1 < x)
    now (inl h) = inl h
    now (inr h) = inr (omega arith)

-- Patching a range whose end does not wrap around changes no byte past its end or past the end of
-- the segment, and none more than 31 before its start.
pub patch_syscalls_in_range_frame :
    (no_fast_path : Bool) (vmsize : ℕ) (st : PatchState) (range_start range_len x : ℕ)
    → range_start + range_len < 2 ^ 64
    → (x + 32 ≤ range_start) ⊎ ((range_start + range_len ≤ x) ⊎ (vmsize ≤ x))
    → (patch_syscalls_in_range no_fast_path vmsize st range_start range_len).text x ≡ st.text x
unfolding patch_syscalls_in_range patch_sites
patch_syscalls_in_range_frame no_fast_path vmsize st range_start range_len x fits away = at _ refl
  where
    last : ℕ
    last = end_of_range vmsize range_start range_len

    outside :
        (left : ℕ)
        → suc left ≡ last - (range_start + 1)
        → (x + 32 ≤ range_start) ⊎ (range_start + suc left < x)
    outside left e = ground arith

    at :
        (left : ℕ)
        → left ≡ last - (range_start + 1)
        → (patch_sites no_fast_path st range_start left).text x ≡ st.text x
    at zero e = refl
    at (suc left) e = patch_sites-kept no_fast_path st range_start (suc left) x (outside left e)

-- With the fast path on, and where the `mov` that ends before a site holds a number below 600 with
-- a Linux number other than 0 and no flags, the immediate becomes the Linux number, every byte
-- outside it stays, the site's among them, and the site is counted as fast.
pub patch_found-fast :
    (st : PatchState) (i k nr : ℕ)
    → k + 5 ≤ i
    → mov_number st.text k ≡ nr
    → nr < 600
    → bsd_to_linux nr ≢ 0
    → bsd_arg_flags nr ≡ 0
    → let st' = patch_found false st i (some k) in
      (load 4 st'.text (k + 1) ≡ bsd_to_linux nr)
      × ((x : ℕ) → (x ≤ k) ⊎ (k + 5 ≤ x) → st'.text x ≡ st.text x)
      × (st'.fast ≡ st.fast + 1)
      × (st'.slow ≡ st.slow)
unfolding to_fast
patch_found-fast st i k nr room e small mapped plain = rw taken (number, others, refl, refl)
  where
    chosen : is_fast false nr ≡ true
    chosen = unfold is_fast in rw plain (ground arith)

    taken : patch_found false st i (some k) ≡ to_fast st k (bsd_to_linux nr)
    taken = unfold patch_found in rw (e, chosen) (ground arith)

    small_number : bsd_to_linux nr < 2 ^ 16
    small_number = omega (arith, bsd_to_linux-bound nr)

    number : load 4 (to_fast st k (bsd_to_linux nr)).text (k + 1) ≡ bsd_to_linux nr
    number = unfold to_fast load poke in ground (arith, small_number)

    others : (x : ℕ) → (x ≤ k) ⊎ (k + 5 ≤ x) → (to_fast st k (bsd_to_linux nr)).text x ≡ st.text x
    others x away = unfold to_fast poke in ground arith
