-- ===== src/Dylib/Segments/Contents.antt =====
-- What `map_dylib_segments` of src/macho_dylib.c leaves in memory.
use mac_ify.Dylib.Commands.{File, sum_u64, is_segment, vmaddr_at, vmsize_at, fileoff_at}
use mac_ify.Dylib.Commands.{filesize_at, next_command, command_at, magic_of, mh_magic_64, ncmds_of}
use mac_ify.Dylib.Commands.{first_command}
use mac_ify.Dylib.Segments.{map_dylib_segments, span_of, slide_of, Mapped, copy_file, clear}
use mac_ify.Dylib.Segments.{map_segment, is_skipped, map_pass}
use mac_ify.Prelude.{ℕ, zero, suc, ◌+◌, ◌-◌, ◌^◌, ◌≤◌, ◌<◌, ◌≡◌, ◌⊎◌, inl, inr, refl, ◌∙◌, arith}
use mac_ify.Prelude.{true, false, ◌&&◌, Bool-cases, if◌then◌else◌, ltb, Memory, Option, some, ◌%◌}
use mac_ify.Prelude.{◌≢◌, []}

-- A command that is no segment, or a segment that is not skipped.
abbrev pub IsWalked : File → ℕ → Type 0
IsWalked file lc = (is_segment file lc && is_skipped file lc) ≡ false

-- The byte `x` is outside what mapping the segment at `lc` touches.
abbrev pub Misses : File → ℕ → ℕ → ℕ → Type 0
Misses file slide lc x =
    (x < sum_u64 (vmaddr_at file lc) slide)
    ⊎ ((sum_u64 (vmaddr_at file lc) slide + vmsize_at file lc ≤ x))

-- A segment that lies in the address space, with no more bytes in the file than in memory.
pub record Fits (file : File) (slide lc : ℕ) : Type 0 where
  pub no_wrap : sum_u64 (vmaddr_at file lc) slide + vmsize_at file lc ≤ 2 ^ 64
  pub small : filesize_at file lc ≤ vmsize_at file lc

map_segment-byte :
    (file : File) (slide lc j : ℕ) (s : Mapped)
    → Fits file slide lc
    → j < vmsize_at file lc
    → (map_segment file slide lc s).mem (sum_u64 (vmaddr_at file lc) slide + j)
      ≡ (if ltb j (filesize_at file lc) then file (fileoff_at file lc + j) else 0)
unfolding map_segment copy_file clear
map_segment-byte file slide lc j s f h = ground arith

map_segment-misses :
    (file : File) (slide lc x : ℕ) (s : Mapped)
    → Fits file slide lc
    → Misses file slide lc x
    → (map_segment file slide lc s).mem x ≡ s.mem x
unfolding map_segment copy_file clear
map_segment-misses file slide lc x s f m = ground arith

-- A round at a segment that is not skipped, at another command, and at a skipped segment.
map_pass_segment :
    (file : File) (slide left lc : ℕ) (s : Mapped)
    → IsWalked file lc
    → is_segment file lc ≡ true
    → map_pass file slide (suc left) lc s
      ≡ map_pass file slide left (next_command file lc) (map_segment file slide lc s)
unfolding map_pass
map_pass_segment file slide left lc s walked seg = ground arith

map_pass_other :
    (file : File) (slide left lc : ℕ) (s : Mapped)
    → is_segment file lc ≡ false
    → map_pass file slide (suc left) lc s ≡ map_pass file slide left (next_command file lc) s
unfolding map_pass
map_pass_other file slide left lc s other = ground arith

map_pass_stays :
    (file : File) (slide left lc : ℕ) (s : Mapped)
    → is_segment file lc ≡ true
    → is_skipped file lc ≡ true
    → map_pass file slide (suc left) lc s ≡ map_pass file slide left lc s
unfolding map_pass
map_pass_stays file slide left lc s seg skipped = ground arith

-- What the walk needs of the segment commands that leave the byte `x` alone.
pub record IsApart (file : File) (slide x lc : ℕ) : Type 0 where
  pub walked : IsWalked file lc
  pub fits : is_segment file lc ≡ true → Fits file slide lc
  pub misses : is_segment file lc ≡ true → Misses file slide lc x

map_pass-IsApart :
    (file : File) (slide left lc x : ℕ) (s : Mapped)
    → ((i : ℕ) → i < left → IsApart file slide x (command_at file lc i))
    → (map_pass file slide left lc s).mem x ≡ s.mem x
unfolding map_pass command_at
map_pass-IsApart file slide zero lc x s h = refl
map_pass-IsApart file slide (suc left) lc x s h =
    let apart : IsApart file slide x lc = h 0 (omega arith) in
    let rest = λ (i : ℕ) (lt : i < left). h (suc i) (omega arith) in
    elim (Bool-cases (is_segment file lc)) [
      | inl seg ↦ rw (map_pass_segment file slide left lc s apart.walked seg) (
          map_pass-IsApart file slide left (next_command file lc) x _ rest
          ∙ map_segment-misses file slide lc x s (apart.fits seg) (apart.misses seg))
      | inr other ↦
          rw (map_pass_other file slide left lc s other)
            (map_pass-IsApart file slide left (next_command file lc) x s rest)
    ]

map_pass-byte :
    (file : File) (slide left lc k j x : ℕ) (s : Mapped)
    → k < left
    → ((i : ℕ) → i ≤ k → IsWalked file (command_at file lc i))
    → is_segment file (command_at file lc k) ≡ true
    → Fits file slide (command_at file lc k)
    → j < vmsize_at file (command_at file lc k)
    → x ≡ sum_u64 (vmaddr_at file (command_at file lc k)) slide + j
    → ((i : ℕ) → k < i → i < left → IsApart file slide x (command_at file lc i))
    → (map_pass file slide left lc s).mem x ≡ (
        if ltb j (filesize_at file (command_at file lc k))
        then file (fileoff_at file (command_at file lc k) + j)
        else 0)
unfolding map_pass command_at
map_pass-byte file slide zero lc k j x s lt walked seg fits inside e apart = absurd (omega arith)
map_pass-byte file slide (suc left) lc zero j x s lt walked seg fits inside e apart =
    rw (map_pass_segment file slide left lc s (walked 0 (omega arith)) seg) (
      map_pass-IsApart file slide left (next_command file lc) x _
        (λ i below. apart (suc i) (omega arith) (omega arith))
      ∙ rw e (map_segment-byte file slide lc j s fits inside))
map_pass-byte file slide (suc left) lc (suc k) j x s lt walked seg fits inside e apart =
    elim (Bool-cases (is_segment file lc)) [
      | inl first ↦ rw (map_pass_segment file slide left lc s (walked 0 (omega arith)) first) (
          map_pass-byte file slide left (next_command file lc) k j x _ (omega arith)
            (λ i le. walked (suc i) (omega arith)) seg fits inside e
            (λ i above below. apart (suc i) (omega arith) (omega arith)))
      | inr other ↦ rw (map_pass_other file slide left lc s other) (
          map_pass-byte file slide left (next_command file lc) k j x s (omega arith)
            (λ i le. walked (suc i) (omega arith)) seg fits inside e
            (λ i above below. apart (suc i) (omega arith) (omega arith)))
    ]

-- If every command up to the segment with index `k` is walked over, and the later ones are too and
-- leave the segment alone, a dylib that is mapped at a base has at each address of that segment the
-- byte of the file, and 0 beyond the part that the file holds.
pub map_dylib_segments-byte :
    (mmap : ℕ → Option (ℕ × Memory)) (file : File) (mem mem' : Memory) (lo hi base k j x : ℕ)
    → magic_of file ≡ mh_magic_64
    → span_of file (ncmds_of file) first_command (2 ^ 64 - 1, 0) ≡ (lo, hi)
    → lo ≢ 2 ^ 64 - 1
    → mmap ((hi + 2 ^ 64 - lo) % 2 ^ 64) ≡ some (base, mem')
    → k < ncmds_of file
    → ((i : ℕ) → i ≤ k → IsWalked file (command_at file first_command i))
    → is_segment file (command_at file first_command k) ≡ true
    → Fits file (slide_of base lo) (command_at file first_command k)
    → j < vmsize_at file (command_at file first_command k)
    → x ≡ sum_u64 (vmaddr_at file (command_at file first_command k)) (slide_of base lo) + j
    → ((i : ℕ)
        → k < i
        → i < ncmds_of file
        → IsApart file (slide_of base lo) x (command_at file first_command i))
    → (s : Mapped) × (map_dylib_segments mmap file mem ≡ (slide_of base lo, s))
      × (s.mem x ≡ (
          if ltb j (filesize_at file (command_at file first_command k))
          then file (fileoff_at file (command_at file first_command k) + j)
          else 0))
unfolding map_dylib_segments
map_dylib_segments-byte mmap file mem mem' lo hi base k j x magic span some_segment mapped lt walked
      seg fits inside e apart =
    (
      map_pass file (slide_of base lo) (ncmds_of file) first_command
          (record { mem = mem'; protects = [] }),
      rw (span, mapped) (ground arith),
      map_pass-byte file (slide_of base lo) (ncmds_of file) first_command k j x _ lt walked seg fits
          inside e apart,
    )

-- A segment without size, or one at 0 as large as __PAGEZERO, ends the mapping: none of the segments
-- after it is mapped.
map_pass-skipped :
    (file : File) (slide left lc : ℕ) (s : Mapped)
    → is_segment file lc ≡ true
    → is_skipped file lc ≡ true
    → map_pass file slide left lc s ≡ s
unfolding map_pass
map_pass-skipped file slide zero lc s seg skipped = refl
map_pass-skipped file slide (suc left) lc s seg skipped =
    map_pass_stays file slide left lc s seg skipped
    ∙ map_pass-skipped file slide left lc s seg skipped
