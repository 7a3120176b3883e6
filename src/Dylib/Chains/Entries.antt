-- ===== src/Dylib/Chains/Entries.antt =====
-- How src/macho_dylib.c reads the entries of a chain. The linker writes a rebase entry with 36 bits of
-- target and 8 high bits above them, and a bind entry with 24 bits of ordinal and 8 of addend, which
-- is how src/fixups.c reads them.
use mac_ify.Dylib.Commands.{File, sum_u64}
use mac_ify.Dylib.Image.{Dylib}
use mac_ify.Dylib.Chains.{Imports, dylib_import_name, bind_sym, bind_entry}
use mac_ify.Dylib.Chains.{rebase_entry, chain_entry}
use mac_ify.Fixups.Bind.{strip_underscore}
use mac_ify.Fixups.Chained.{FixState, rebase_slot}
use mac_ify.Prelude.{ℕ, ◌+◌, ◌*◌, ◌/◌, ◌%◌, ◌^◌, ◌<◌, ◌≡◌, ◌≢◌, refl, ◌∙◌, arith, List}
use mac_ify.Prelude.{true, some, Memory, load, store, load-store, bit_or, zero-or, bit_or_above}
use mac_ify.Prelude.{◌==◌}

-- `base` plus a sum that fits, stored by each of the two.
dylib_target :
    (value target high8 rest : ℕ)
    → value ≡ target + high8 * 2 ^ 36 + rest * 2 ^ 51
    → target < 2 ^ 36
    → high8 < 2 ^ 7
    → bit_or (value / 2 ^ 43 % 2 ^ 8 * 2 ^ 43) (value % 2 ^ 43) ≡ target + high8 * 2 ^ 36
dylib_target value target high8 rest e small low =
    let none_above : value / 2 ^ 43 % 2 ^ 8 * 2 ^ 43 ≡ 0 = omega arith in
    rw (none_above, zero-or (value % 2 ^ 43)) (omega arith)

-- A rebase entry of a library whose high bits are below 128 is given the target with these bits
-- directly above it, where the main program has them at bit 43: the two agree if there are none.
rebase_entry-high8 :
    (s : FixState) (p value target high8 rest : ℕ)
    → value ≡ target + high8 * 2 ^ 36 + rest * 2 ^ 51
    → target < 2 ^ 36
    → high8 < 2 ^ 7
    → (load 8 (rebase_entry s.load_base s.mem p value) p
        ≡ sum_u64 (target + high8 * 2 ^ 36) s.load_base)
      × (load 8 (rebase_slot s p value).mem p ≡ sum_u64 (target + high8 * 2 ^ 43) s.load_base)
      × (high8 ≡ 0 → rebase_entry s.load_base s.mem p value ≡ (rebase_slot s p value).mem)
unfolding rebase_entry rebase_slot
rebase_entry-high8 s p value target high8 rest e small low = (
  load-store 8 s.mem p _ (omega arith) ∙ rw (dylib_target value target high8 rest e small low) refl,
  load-store 8 s.mem p _ (omega arith) ∙ rw main_target refl,
  λ z. rw (dylib_target value target high8 rest e small low, main_target) (rw z refl),
)
  where
    low_bits : value % 2 ^ 36 ≡ target
    low_bits = omega arith

    high_bits : value / 2 ^ 36 % 2 ^ 8 ≡ high8
    high_bits = omega arith

    main_target :
        bit_or (value % 2 ^ 36) (value / 2 ^ 36 % 2 ^ 8 * 2 ^ 43) ≡ target + high8 * 2 ^ 43
    main_target = rw (low_bits, high_bits) (bit_or_above 43 high8 target (omega arith))

-- A bind entry of a library whose ordinal is below 2 ^ 16 binds a symbol that is found to its address
-- plus 256 times the addend of the entry.
chain_entry-addend :
    (d : Dylib) (file : File) (t : Imports) (load_base p ordinal addend step : ℕ) (mem : Memory)
    (name rest : List ℕ)
    → load 8 mem p ≡ ordinal + addend * 2 ^ 24 + step * 2 ^ 51 + 2 ^ 63
    → ordinal < 2 ^ 16
    → addend < 2 ^ 8
    → step < 2 ^ 12
    → ordinal < t.count
    → dylib_import_name file t (load 4 file (t.imports_base + ordinal * 4) / 2 ^ 9 % 2 ^ 23)
      ≡ some (name, rest)
    → d.resolve (strip_underscore name) ≢ 0
    → (mem' : Memory) × (chain_entry d file t load_base mem p ≡ some mem')
      × (load 8 mem' p ≡ sum_u64 (d.resolve (strip_underscore name)) (256 * addend))
unfolding chain_entry bind_entry bind_sym
chain_entry-addend d file t load_base p ordinal addend step mem name rest e o a st few named found =
    (
      store 8 mem p (sum_u64 (d.resolve (strip_underscore name)) (256 * addend)),
      rw (is_bind, ordinal_bits, addend_bits, named) (ground arith),
      load-store 8 mem p _ (omega arith),
    )
  where
    is_bind : (load 8 mem p / 2 ^ 63 % 2 == 1) ≡ true
    is_bind = ground arith

    ordinal_bits : load 8 mem p % 2 ^ 16 ≡ ordinal
    ordinal_bits = omega arith

    addend_bits : load 8 mem p / 2 ^ 16 % 2 ^ 16 ≡ 256 * addend
    addend_bits = omega arith
