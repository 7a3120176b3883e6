-- ===== src/Fixups/Chained/Entries.antt =====
-- The entries of the chains of src/fixups.c, and how far a chain is followed.
use mac_ify.Fixups.Chained.{FixState, Tables, and_then, fix_entry, rebase_slot, walk_chain}
use mac_ify.Fixups.Image.{Image, add_u64}
use mac_ify.Prelude.{ℕ, zero, suc, ◌+◌, ◌*◌, ◌/◌, ◌%◌, ◌^◌, ◌≤◌, ◌<◌, ◌≡◌, refl, ◌∙◌, arith}
use mac_ify.Prelude.{Option, none, some, false, inl, inr, Bool-cases}
use mac_ify.Prelude.{load, load-store, bit_or_above, ltb, ◌==◌}

module _ (img : Image) (t : Tables) where
  -- A rebase entry with the fields `target` of 36 bits, `high8` of 8 and `next` of 12 becomes the
  -- address that these stand for: `high8` above bit 43, the target below, and the load address
  -- added.
  pub fix_entry-rebase :
      (s : FixState) (p target high8 next : ℕ)
      → target < 2 ^ 36
      → high8 < 2 ^ 8
      → next < 2 ^ 12
      → load 8 s.mem p ≡ target + high8 * 2 ^ 36 + next * 2 ^ 51
      → (s' : FixState) × (fix_entry img t s p ≡ some s')
        × (load 8 s'.mem p ≡ add_u64 (target + high8 * 2 ^ 43) s.load_base)
  unfolding fix_entry rebase_slot
  fix_entry-rebase s p target high8 next ht hh hn e =
      let value = target + high8 * 2 ^ 36 + next * 2 ^ 51 in
      let is_rebase : (value / 2 ^ 63 % 2 == 1) ≡ false = ground arith in
      let low : value % 2 ^ 36 ≡ target = omega arith in
      let high : value / 2 ^ 36 % 2 ^ 8 ≡ high8 = omega arith in
      (
        rebase_slot s p value,
        rw (e, is_rebase) refl,
        load-store 8 s.mem p _ (omega arith)
            ∙ rw (low, high, bit_or_above 43 high8 target (omega arith)) refl,
      )

  and_then_cong :
      (o : Option FixState) (k k' : FixState → Option FixState)
      → ((s : FixState) → k s ≡ k' s)
      → and_then o k ≡ and_then o k'
  and_then_cong none k k' h = refl
  and_then_cong (some s) k k' h = h s

  walk_chain-more :
      (page_end n extra p : ℕ) (s : FixState)
      → p + 8 ≤ page_end
      → page_end < p + 4 * n
      → walk_chain img t page_end n p s ≡ walk_chain img t page_end (n + extra) p s
  unfolding walk_chain
  walk_chain-more page_end zero extra p s fits far = absurd (omega arith)
  walk_chain-more page_end (suc n) extra p s fits far = rw suc-add (
      and_then_cong (fix_entry img t s p) _ _ (λ s'. elim (Bool-cases (next == 0)) [
        | inl last ↦ rw last refl
        | inr more ↦ elim (Bool-cases (ltb page_end (p + next * 4 + 8))) [
          | inl past ↦ rw past refl
          | inr fits' ↦
              rw (more, fits')
                (walk_chain-more page_end n extra (p + next * 4) s' (ground arith) (ground arith))
        ]
      ]))
    where
      next : ℕ
      next = load 8 s.mem p / 2 ^ 51 % 2 ^ 12

      suc-add : suc n + extra ≡ suc (n + extra)
      suc-add = omega arith

-- From an entry that ends within its page, and lies less than 2 ^ 16 bytes before the end of that,
-- the limit of 16384 entries never ends a chain: with any number of rounds more the result is the
-- same.
walk_chain-limit :
    (img : Image) (t : Tables) (page_end extra p : ℕ) (s : FixState)
    → p + 8 ≤ page_end
    → page_end < p + 2 ^ 16
    → walk_chain img t page_end 16384 p s ≡ walk_chain img t page_end (16384 + extra) p s
walk_chain-limit img t page_end extra p s fits small =
    walk_chain-more img t page_end 16384 extra p s fits (omega arith)
