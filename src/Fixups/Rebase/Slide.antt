-- ===== src/Fixups/Rebase/Slide.antt =====
-- What the rebases of src/fixups.c do to memory, and that the interpreter ends.
use mac_ify.Prelude.{ℕ, zero, suc, ◌+◌, ◌*◌, ◌^◌, ◌≤◌, ◌<◌, ◌≡◌, inl, inr, refl, ◌∙◌, arith}
use mac_ify.Prelude.{Memory, load, load-store, load-store_away}
use mac_ify.Fixups.Image.{Image, add_u64, target_of}
use mac_ify.Fixups.Rebase.{RebaseState, next, slide_at, do_one_rebase, rebase_times}

-- A pointer slot in a segment of the image is slid, and the offset passes it.
do_one_rebase_lem :
    (img : Image) (s : RebaseState)
    → s.seg_index < img.nsegments
    → s.type ≡ 1
    → do_one_rebase img s
      ≡ next (record s {
        mem = slide_at img s.mem (target_of img s.seg_index s.seg_offset);
        seg_offset = add_u64 s.seg_offset 8;
      })
unfolding do_one_rebase
do_one_rebase_lem img s h ty = ground arith

-- The memory after `count` slots from `a`, `8 + skip` bytes apart.
unfoldable pub slid : Image → ℕ → ℕ → ℕ → Memory → Memory
slid img skip zero a mem = mem
slid img skip (suc left) a mem = slid img skip left (a + (8 + skip)) (slide_at img mem a)

-- Slots that do not wrap around the address space are those of `slid`.
rebase_times-slid :
    (img : Image) (skip count : ℕ) (s : RebaseState)
    → s.seg_index < img.nsegments
    → s.type ≡ 1
    → img.vmaddr s.seg_index + s.seg_offset + count * (8 + skip) < 2 ^ 64
    → (s' : RebaseState) × (rebase_times img skip count s ≡ next s')
      × (s'.mem ≡ slid img skip count (img.vmaddr s.seg_index + s.seg_offset) s.mem)
unfolding rebase_times slid
rebase_times-slid img skip zero s h ty fits = (s, refl, refl)
rebase_times-slid img skip (suc left) s h ty fits =
    let (s', runs, mem) = rebase_times-slid img skip left s1 h ty rest_fits in
    (s', rw (do_one_rebase_lem img s h ty) runs, mem ∙ same_slots)
  where
    a : ℕ
    a = img.vmaddr s.seg_index + s.seg_offset

    s1 : RebaseState
    s1 = record s {
      mem = slide_at img s.mem (target_of img s.seg_index s.seg_offset);
      seg_offset = add_u64 (add_u64 s.seg_offset 8) skip;
    }

    at : target_of img s.seg_index s.seg_offset ≡ a
    at = omega arith

    after : img.vmaddr s.seg_index + s1.seg_offset ≡ a + (8 + skip)
    after = omega arith

    rest_fits : img.vmaddr s.seg_index + s1.seg_offset + left * (8 + skip) < 2 ^ 64
    rest_fits = rw after (omega arith)

    same_slots :
        slid img skip left (img.vmaddr s.seg_index + s1.seg_offset) s1.mem
        ≡ slid img skip left (a + (8 + skip)) (slide_at img s.mem a)
    same_slots = rw (after, at) refl

slid-before :
    (img : Image) (skip count a b k : ℕ) (mem : Memory)
    → b + k ≤ a
    → load k (slid img skip count a mem) b ≡ load k mem b
unfolding slid slide_at
slid-before img skip zero a b k mem h = refl
slid-before img skip (suc left) a b k mem h =
    slid-before img skip left (a + (8 + skip)) b k (slide_at img mem a) (omega arith)
    ∙ load-store_away 8 k mem a b (add_u64 (load 8 mem a) img.slide) (inl h)

slid-slot :
    (img : Image) (skip count a i b : ℕ) (mem : Memory)
    → i < count
    → b ≡ a + i * (8 + skip)
    → load 8 (slid img skip count a mem) b ≡ add_u64 (load 8 mem b) img.slide
unfolding slid slide_at
slid-slot img skip zero a i b mem h e = absurd (omega arith)
slid-slot img skip (suc left) a zero b mem h e =
    slid-before img skip left (a + (8 + skip)) b 8 (slide_at img mem a) (omega arith)
    ∙ rw here (load-store 8 mem a (add_u64 (load 8 mem a) img.slide) (omega arith))
  where
    here : b ≡ a
    here = omega arith
slid-slot img skip (suc left) a (suc i) b mem h e =
    slid-slot img skip left (a + (8 + skip)) i b (slide_at img mem a) (omega arith) (omega arith)
    ∙ rw (load-store_away 8 8 mem a b (add_u64 (load 8 mem a) img.slide) (inr (omega arith))) refl

-- An opcode for `count` pointer slots in a segment of the image, which `skip` bytes part, adds the
-- slide once to each of them, when they do not wrap around the address space, and changes nothing
-- before the first.
pub rebase_times-slots :
    (img : Image) (skip count : ℕ) (s : RebaseState)
    → s.seg_index < img.nsegments
    → s.type ≡ 1
    → img.vmaddr s.seg_index + s.seg_offset + count * (8 + skip) < 2 ^ 64
    → (s' : RebaseState) × (rebase_times img skip count s ≡ next s')
      × ((i b : ℕ)
          → i < count
          → b ≡ img.vmaddr s.seg_index + s.seg_offset + i * (8 + skip)
          → load 8 s'.mem b ≡ add_u64 (load 8 s.mem b) img.slide)
      × ((b k : ℕ)
          → b + k ≤ img.vmaddr s.seg_index + s.seg_offset
          → load k s'.mem b ≡ load k s.mem b)
rebase_times-slots img skip count s h ty fits =
    let (s', runs, mem) = rebase_times-slid img skip count s h ty fits in
    let a = img.vmaddr s.seg_index + s.seg_offset in
    (
      s',
      runs,
      (λ i b lt e. rw mem (slid-slot img skip count a i b s.mem lt e)),
      (λ b k before. rw mem (slid-before img skip count a b k s.mem before)),
    )
