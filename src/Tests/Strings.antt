-- ===== src/Tests/Strings.antt =====
-- Runs of shim/misc/string.c.
use mac_ify.Prelude.{◌+◌, ◌%◌, ◌≡◌, refl, arith, inl, inr, [], ◌∷◌, some, codes, entry, Memory}
use mac_ify.Shim.Strings.{strlcat, memset_pattern16}
use mac_ify.Shim.Strings.Copies.{Holds, ends, char, strlcat-Holds}
use mac_ify.Shim.Strings.Pattern.{memset_pattern16_lem}

-- "ab" at 0x10 and "cd" at 0x20.
abbrev texts : Memory
texts = entry ((0x10, 97) ∷ (0x11, 98) ∷ (0x20, 99) ∷ (0x21, 100) ∷ [])

ab-Holds : Holds texts 0x10 (codes "ab")
unfolding entry
ab-Holds = char 0x10 97 _ refl (omega arith) (char 0x11 98 _ refl (omega arith) (ends 0x12 refl))

cd-Holds : Holds texts 0x20 (codes "cd")
unfolding entry
cd-Holds = char 0x20 99 _ refl (omega arith) (char 0x21 100 _ refl (omega arith) (ends 0x22 refl))

-- Four bytes have room for "abc".
strlcat-Holds_example :
    (mem' : Memory) × (strlcat 9 texts 0x10 0x20 4 ≡ some (mem', 4))
    × Holds mem' 0x10 (codes "abc")
    × (mem' 0x14 ≡ texts 0x14)
strlcat-Holds_example =
    strlcat-Holds 9 texts 0x10 0x20 4 (codes "ab") (codes "cd") 0x14 ab-Holds cd-Holds (omega arith)
      (omega arith) (inr (omega arith))

memset_pattern16_lem_example :
    (memset_pattern16 texts 0x40 0x10 20 (0x40 + 17) ≡ texts (0x10 + 17 % 16))
    × (memset_pattern16 texts 0x40 0x10 20 0x54 ≡ texts 0x54)
memset_pattern16_lem_example =
    memset_pattern16_lem texts 0x40 0x10 20 0x54 17 (inl (omega arith)) (inr (omega arith))
      (omega arith)
