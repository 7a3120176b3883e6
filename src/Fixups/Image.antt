-- ===== src/Fixups/Image.antt =====
-- What the interpreters of src/fixups.c know of the image: its segments, libraries and slide, and
-- `resolve_symbol` of src/segments.c, which is a parameter here.
use mac_ify.Prelude.{ℕ, ◌+◌, ◌%◌, ◌^◌, List, Bool, Memory, suc, zero, [], ◌∷◌}

pub record Image : Type 0 where
  -- `g_nsegments`, and `g_segments[i].vmaddr`, slid
  pub nsegments : ℕ
  pub vmaddr : ℕ → ℕ
  -- `g_segments[i].vmsize`, and whether `i` is __PAGEZERO
  pub vmsize : ℕ → ℕ
  pub is_pagezero : ℕ → Bool
  -- `g_ndylibs`
  pub ndylibs : ℕ
  -- `g_slide` as a pattern of 64 bits
  pub slide : ℕ
  -- the address of the symbol in the library with this index, 0 for NULL
  pub resolve : ℕ → List ℕ → ℕ
  -- the same for the index -1, all libraries
  pub resolve_flat : List ℕ → ℕ
  -- the address of `macify_unresolved_stub`
  pub stub : ℕ
  -- whether `strdup` of the name succeeds
  pub copies : List ℕ → Bool

-- `uint64_t` addition.
abbrev pub add_u64 : ℕ → ℕ → ℕ
add_u64 a b = (a + b) % 2 ^ 64

-- `g_segments[seg_index].vmaddr + seg_offset`
abbrev pub target_of : Image → ℕ → ℕ → ℕ
target_of img seg_index seg_offset = add_u64 (img.vmaddr seg_index) seg_offset

-- The bytes from `p` on.
unfoldable pub bytes_at : ℕ → Memory → ℕ → List ℕ
bytes_at zero mem p = []
bytes_at (suc n) mem p = mem p ∷ bytes_at n mem (p + 1)
