-- ===== src/Loader/Fat/Slices.antt =====
-- The slices of universal files that src/main.c takes.
use mac_ify.Dylib.Commands.{File}
use mac_ify.Loader.Fat.{be32, Slice, fat_arch, is_x86_64, is_past_end, slice_at, fat_loop}
use mac_ify.Prelude.{ℕ, zero, suc, ◌+◌, ◌*◌, ◌^◌, ◌≤◌, ◌<◌, ◌≡◌, ◌⊎◌, inl, inr, arith, some, true}
use mac_ify.Prelude.{false, ltb, Bool-cases}

-- The number of four bytes at `p`, the highest first.
abbrev pub big_endian : File → ℕ → ℕ
big_endian file p = file p * 2 ^ 24 + file (p + 1) * 2 ^ 16 + file (p + 2) * 2 ^ 8 + file (p + 3)

be32_lem : (file : File) (p : ℕ) → be32 file p ≡ big_endian file p
unfolding be32
be32_lem file p = omega arith

-- The entry `j` of the table of `s`: entries of 20 bytes after a header of 8, each with the type of its
-- processor, 0x01000007 for x86-64, and in its third and fourth word its offset and size.
abbrev pub IsMine : File → Slice → ℕ → Type 0
IsMine file s j = big_endian file (s.base + 8 + j * 20) ≡ 0x01000007

abbrev pub offset_of : File → Slice → ℕ → ℕ
offset_of file s j = big_endian file (s.base + 8 + j * 20 + 8)

abbrev pub size_of : File → Slice → ℕ → ℕ
size_of file s j = big_endian file (s.base + 8 + j * 20 + 12)

-- `s'` is `s`, or is given by an x86-64 entry of the first `n` of its table, as often as need be.
pub data Taken (file : File) (n : ℕ) (s' : Slice) : Slice → Type 0 where
  whole : (s : Slice) → s ≡ s' → Taken file n s' s
  entry_at :
      (s t : Slice) (j : ℕ)
      → j < n
      → IsMine file s j
      → t.base ≡ s.base + offset_of file s j
      → t.size ≡ size_of file s j
      → Taken file n s' t
      → Taken file n s' s

-- Some entry has an offset and a size whose sum does not fit into 32 bits.
pub data Wraps (file : File) (n : ℕ) : Slice → Type 0 where
  sum_at :
      (s : Slice) (j : ℕ)
      → j < n
      → IsMine file s j
      → 2 ^ 32 ≤ offset_of file s j + size_of file s j
      → Wraps file n s
  within :
      (s t : Slice) (j : ℕ)
      → j < n
      → IsMine file s j
      → t.base ≡ s.base + offset_of file s j
      → t.size ≡ size_of file s j
      → Wraps file n t
      → Wraps file n s

be32-entry :
    (file : File) (s : Slice) (i : ℕ) → is_x86_64 file (fat_arch s i) ≡ true → IsMine file s i
be32-entry file s i mine = ground (arith, mine, be32_lem file (fat_arch s i))

-- A slice within one that passed the test is within the whole, or the sum of the test did not fit.
slice_within :
    (file : File) (s t s' : Slice) (i n : ℕ)
    → i < n
    → IsMine file s i
    → t.base ≡ s.base + offset_of file s i
    → t.size ≡ size_of file s i
    → is_past_end file s (fat_arch s i) ≡ false
    → s'.base + s'.size ≤ t.base + t.size
    → (s'.base + s'.size ≤ s.base + s.size) ⊎ Wraps file n s
unfolding is_past_end
slice_within file s t s' i n low mine from long fits inside =
    let o = be32_lem file (fat_arch s i + 8) in
    let z = be32_lem file (fat_arch s i + 12) in
    elim (Bool-cases (ltb (offset_of file s i + size_of file s i) (2 ^ 32))) [
      | inr wraps ↦ inr (sum_at s i low mine (ground (arith, wraps)))
      | inl plain ↦ inl (ground (arith, plain, o, z, fits))
    ]

-- The slice that is taken is the whole, or is given by x86-64 entries of the table, which are those before
-- the number `n` at which the loop ends; and it lies within the whole, or one of those entries has an
-- offset and a size whose sum is 2 ^ 32 or more.
pub fat_loop-within :
    (left : ℕ) (file : File) (i n : ℕ) (s s' : Slice)
    → i + left ≡ n
    → fat_loop left file i s ≡ some s'
    → Taken file n s' s × ((s'.base + s'.size ≤ s.base + s.size) ⊎ Wraps file n s)
unfolding fat_loop
fat_loop-within zero file i n s s' at h = (whole s (ground arith), inl (ground arith))
fat_loop-within (suc left) file i n s s' at h = elim (Bool-cases (is_x86_64 file (fat_arch s i))) [
  | inr other ↦ fat_loop-within left file (i + 1) n s s' (omega arith) (ground (arith, other))
  | inl mine ↦
      let t = slice_at file s (fat_arch s i) in
      let type = be32-entry file s i mine in
      let from : t.base ≡ s.base + offset_of file s i =
        omega (arith, be32_lem file (fat_arch s i + 8)) in
      let long : t.size ≡ size_of file s i = be32_lem file (fat_arch s i + 12) in
      elim (Bool-cases (is_past_end file s (fat_arch s i))) [
        | inl past ↦ absurd (ground (arith, mine, past))
        | inr fits ↦
            let (taken, rest) =
              fat_loop-within left file (i + 1) n t s' (omega arith) (ground (arith, mine, fits)) in
            (
              entry_at s t i (omega arith) type from long taken,
              elim rest [
                | inr wraps ↦ inr (within s t i (omega arith) type from long wraps)
                | inl inside ↦ slice_within file s t s' i n (omega arith) type from long fits inside
              ],
            )
      ]
]
