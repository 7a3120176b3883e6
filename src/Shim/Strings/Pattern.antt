-- ===== src/Shim/Strings/Pattern.antt =====
-- What `memset_pattern16` of shim/misc/string.c leaves in memory.
use mac_ify.Prelude.{ℕ, zero, suc, ◌+◌, ◌-◌, ◌*◌, ◌/◌, ◌%◌, ◌≤◌, ◌<◌, ◌≡◌, ◌⊎◌, inl, inr, refl}
use mac_ify.Prelude.{◌∙◌, ap, arith, Memory, poke, ltb, ◌==◌, if◌then◌else◌, Bool-cases}
use mac_ify.Shim.Strings.{fill_chunk, fill_chunks, memset_pattern16}

fill_chunk-away :
    (left : ℕ) (mem : Memory) (d p j x : ℕ)
    → (x < d + j) ⊎ (d + j + left ≤ x)
    → fill_chunk left mem d p j x ≡ mem x
unfolding fill_chunk poke
fill_chunk-away zero mem d p j x away = refl
fill_chunk-away (suc left) mem d p j x away = ground (
  arith,
  fill_chunk-away left (poke mem (d + j) (mem (p + j))) d p (j + 1) x (ground (arith, away)),
)

-- A chunk that does not meet the pattern.
fill_chunk-inside :
    (left : ℕ) (mem : Memory) (d p j k : ℕ)
    → (p + 16 ≤ d) ⊎ (d + j + left ≤ p)
    → j + left ≤ 16
    → j ≤ k
    → k < j + left
    → fill_chunk left mem d p j (d + k) ≡ mem (p + k)
unfolding fill_chunk poke
fill_chunk-inside zero mem d p j k apart small from to = absurd (omega arith)
fill_chunk-inside (suc left) mem d p j k apart small from to =
    let mem' = poke mem (d + j) (mem (p + j)) in
    elim (Bool-cases (k == j)) [
      | inl here ↦
          let at : k ≡ j = ground (arith, here) in
          fill_chunk-away left mem' d p (j + 1) (d + k) (inl (omega (arith, at)))
          ∙ ground (arith, at, ap (λ (i : ℕ). mem (p + i)) at)
      | inr later ↦
          fill_chunk-inside left mem' d p (j + 1) k (ground (arith, apart)) (omega arith)
            (ground (arith, later)) (omega arith)
          ∙ ground (arith, apart)
    ]

abbrev chunk_at : ℕ → ℕ → ℕ
chunk_at len i = if ltb (len - i) 16 then len - i else 16

fill_chunks-away :
    (left : ℕ) (mem : Memory) (dst p len i x : ℕ)
    → (x < dst + i) ⊎ (dst + len ≤ x)
    → fill_chunks left mem dst p len i x ≡ mem x
unfolding fill_chunks
fill_chunks-away zero mem dst p len i x away = refl
fill_chunks-away (suc left) mem dst p len i x away =
    fill_chunks-away left (fill_chunk (chunk_at len i) mem (dst + i) p 0) dst p len (i + 16) x
      (ground (arith, away))
    ∙ fill_chunk-away (chunk_at len i) mem (dst + i) p 0 x (ground (arith, away))

fill_chunks-inside :
    (left : ℕ) (mem : Memory) (dst p len i k : ℕ)
    → (p + 16 ≤ dst) ⊎ (dst + len ≤ p)
    → i % 16 ≡ 0
    → i ≤ k
    → k < len
    → k < i + 16 * left
    → fill_chunks left mem dst p len i (dst + k) ≡ mem (p + k % 16)
unfolding fill_chunks
fill_chunks-inside zero mem dst p len i k apart start from low to = absurd (omega arith)
fill_chunks-inside (suc left) mem dst p len i k apart start from low to =
    let chunk = chunk_at len i in
    let mem' = fill_chunk chunk mem (dst + i) p 0 in
    elim (Bool-cases (ltb k (i + 16))) [
      | inl here ↦
          let at : dst + k ≡ dst + i + (k - i) = omega arith in
          let rem : k % 16 ≡ k - i = ground (arith, start, here) in
          fill_chunks-away left mem' dst p len (i + 16) (dst + k) (inl (ground (arith, here)))
          ∙ rw (at, rem)
              (fill_chunk-inside chunk mem (dst + i) p 0 (k - i) (ground (arith, apart))
                (ground arith) (omega arith) (ground (arith, here)))
      | inr later ↦
          fill_chunks-inside left mem' dst p len (i + 16) k apart (omega (arith, start))
            (ground (arith, later)) low (omega arith)
          ∙ fill_chunk-away chunk mem (dst + i) p 0 (p + k % 16) (ground (arith, apart))
    ]

-- `memset_pattern16` puts at each of the `len` bytes the byte of the pattern at its remainder by 16, and
-- writes nothing else, if the 16 bytes of the pattern lie apart from them.
pub memset_pattern16_lem :
    (mem : Memory) (dst p len x k : ℕ)
    → (p + 16 ≤ dst) ⊎ (dst + len ≤ p)
    → (x < dst) ⊎ (dst + len ≤ x)
    → k < len
    → (memset_pattern16 mem dst p len (dst + k) ≡ mem (p + k % 16))
      × (memset_pattern16 mem dst p len x ≡ mem x)
unfolding memset_pattern16
memset_pattern16_lem mem dst p len x k apart away low = (
  fill_chunks-inside ((len + 15) / 16) mem dst p len 0 k apart refl (omega arith) low (omega arith),
  fill_chunks-away ((len + 15) / 16) mem dst p len 0 x (ground (arith, away)),
)
