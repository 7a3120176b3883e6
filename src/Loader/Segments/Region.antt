-- ===== src/Loader/Segments/Region.antt =====
-- Where src/main.c and src/segments.c write when they map a program.
use mac_ify.Dylib.Commands.{File, sum_u64, lc_segment_64, cmd_at, cmdsize_at, next_command}
use mac_ify.Dylib.Commands.{vmaddr_at, vmsize_at, filesize_at, fileoff_at}
use mac_ify.Dylib.Segments.{copy_file, clear, slide_of, page_rounded}
use mac_ify.Loader.Segments.{is_spanned, is_pagezero_at, widen, scan_span, no_span, Host, Mapping}
use mac_ify.Loader.Segments.{add_sections, section_at, open_segment, initial_prot, fill_segment}
use mac_ify.Loader.Segments.{is_truncated, map_segment_64, Walk, set_entry, walk_command}
use mac_ify.Loader.Segments.{walk_commands, choose_slide, slide_from, load_program, max_sections}
use mac_ify.Loader.Segments.{segment_entry, max_segments}
use mac_ify.Prelude.{ℕ, zero, suc, ◌+◌, ◌-◌, ◌^◌, ◌≤◌, ◌<◌, ◌≡◌, ◌⊎◌, inl, inr, ◌∙◌, ap, arith}
use mac_ify.Prelude.{[], ◌∷◌, ◌++◌, some, true, false, ◌||◌, Memory, load, has, length, ltb, leb}
use mac_ify.Prelude.{◌==◌, Bool-cases, Option-cases}

widen-span :
    (file : File) (lc lo hi : ℕ)
    → ((widen file lc (lo, hi)).0 ≤ lo) × (hi ≤ (widen file lc (lo, hi)).1)
unfolding widen
widen-span file lc lo hi = ground arith

scan_span-span :
    (left : ℕ) (file : File) (end lc lo hi : ℕ)
    → ((scan_span left file end lc (lo, hi)).0 ≤ lo)
      × (hi ≤ (scan_span left file end lc (lo, hi)).1)
unfolding scan_span
scan_span-span zero file end lc lo hi = (omega arith, omega arith)
scan_span-span (suc left) file end lc lo hi =
    let w = widen file lc (lo, hi) in
    ground
      (arith, widen-span file lc lo hi, scan_span-span left file end (next_command file lc) w.0 w.1)

-- A segment that lies in the address space, with no more bytes in the file than in memory.
pub record IsSound (file : File) (seg : ℕ) : Type 0 where
  pub no_wrap : vmaddr_at file seg + vmsize_at file seg < 2 ^ 64
  pub small : filesize_at file seg ≤ vmsize_at file seg

-- Of the commands from `lc` on, each segment that counts for the span is sound.
abbrev pub AllSound : ℕ → File → ℕ → Type 0
AllSound zero file lc = Unit
AllSound (suc left) file lc =
    (is_spanned file lc ≡ true → IsSound file lc) × AllSound left file (next_command file lc)

widen-spanned :
    (file : File) (lc lo hi : ℕ)
    → is_spanned file lc ≡ true
    → IsSound file lc
    → ((widen file lc (lo, hi)).0 ≤ vmaddr_at file lc)
      × (vmaddr_at file lc + vmsize_at file lc ≤ (widen file lc (lo, hi)).1)
unfolding widen
widen-spanned file lc lo hi spanned sound = ground (arith, spanned)

-- The byte `x` is outside the segment.
abbrev Misses : File → ℕ → ℕ → ℕ → Type 0
Misses file slide seg x =
    (x < sum_u64 (vmaddr_at file seg) slide)
    ⊎ (sum_u64 (vmaddr_at file seg) slide + vmsize_at file seg ≤ x)

copied_away :
    (file : File) (src n vs t x : ℕ) (mem : Memory)
    → n ≤ vs
    → (x < t) ⊎ (t + vs ≤ x)
    → copy_file n file src mem t x ≡ mem x
unfolding copy_file
copied_away file src n vs t x mem small away = ground arith

cleared_away :
    (n vs t x : ℕ) (mem : Memory)
    → n < vs
    → t + vs ≤ 2 ^ 64
    → (x < t) ⊎ (t + vs ≤ x)
    → clear (vs - n) mem (sum_u64 t n) x ≡ mem x
unfolding clear
cleared_away n vs t x mem small room away =
    let at : sum_u64 t n ≡ t + n = omega arith in rw at (ground arith)

fill_segment-Misses :
    (file : File) (base slide seg x : ℕ) (mem : Memory)
    → IsSound file seg
    → sum_u64 (vmaddr_at file seg) slide + vmsize_at file seg ≤ 2 ^ 64
    → Misses file slide seg x
    → fill_segment file base slide seg mem x ≡ mem x
unfolding fill_segment
fill_segment-Misses file base slide seg x mem sound room misses =
    let target = sum_u64 (vmaddr_at file seg) slide in
    let n = filesize_at file seg in
    let vs = vmsize_at file seg in
    let src = base + fileoff_at file seg in
    let kept = copied_away file src n vs target x mem sound.small misses in
    elim (Bool-cases (ltb n vs)) [
      | inl zeros ↦ rw zeros (
          cleared_away n vs target x (copy_file n file src mem target) (ground (arith, zeros)) room
            misses
          ∙ kept)
      | inr none_left ↦ rw none_left kept
    ]

add_sections-mem :
    (left : ℕ) (file : File) (slide p : ℕ) (s s' : Mapping)
    → add_sections left file slide p s ≡ some s'
    → s'.mem ≡ s.mem
unfolding add_sections
add_sections-mem zero file slide p s s' h = ground arith
add_sections-mem (suc left) file slide p s s' h =
    elim (Bool-cases (leb max_sections (length s.sections))) [
      | inl full ↦ absurd (ground (arith, full))
      | inr room ↦
          add_sections-mem left file slide (p + 80)
            (record s { sections = s.sections ++ section_at file slide p ∷ [] }) s'
            (ground (arith, room))
    ]

-- With access to the segment's memory, mapping it writes nowhere else.
map_segment_64-Misses :
    (host : Host) (file : File) (base file_size slide seg x : ℕ) (s s' : Mapping)
    → ((a n p : ℕ) → host.mprotect a n p ≡ true)
    → (is_spanned file seg ≡ true → IsSound file seg)
    → cmd_at file seg ≡ lc_segment_64
    → (is_spanned file seg ≡ true
        → sum_u64 (vmaddr_at file seg) slide + vmsize_at file seg ≤ 2 ^ 64)
    → (is_spanned file seg ≡ true → Misses file slide seg x)
    → map_segment_64 host file base file_size slide seg s ≡ some s'
    → s'.mem x ≡ s.mem x
unfolding map_segment_64 open_segment is_spanned
map_segment_64-Misses host file base file_size slide seg x s s' access sound cmd room misses h =
    elim (Bool-cases (leb max_segments (length s.segments))) [
      | inl full ↦ absurd (ground (arith, full))
      | inr few ↦ elim (Bool-cases (vmsize_at file seg == 0)) [
        | inl empty ↦ ground (arith, few, empty)
        | inr some_size ↦ elim (Bool-cases (is_pagezero_at file seg)) [
          | inl guard_page ↦ ground (arith, few, some_size, guard_page)
          | inr plain ↦ elim (Bool-cases (is_truncated file file_size seg)) [
            | inl short ↦ absurd (
                ground (
                  arith,
                  few,
                  some_size,
                  plain,
                  short,
                  access (sum_u64 (vmaddr_at file seg) slide) (page_rounded (vmsize_at file seg))
                      (initial_prot file seg),
                ))
            | inr whole ↦
                let spanned : is_spanned file seg ≡ true = ground (arith, cmd, plain, some_size) in
                let filled : Mapping = record {
                  segments = s.segments ++ segment_entry file slide seg ∷ [];
                  sections = s.sections;
                  mem = fill_segment file base slide seg s.mem;
                } in
                let added : add_sections (load 4 file (seg + 64)) file slide (seg + 72) filled
                    ≡ some s' =
                  ground (
                    arith,
                    few,
                    some_size,
                    plain,
                    whole,
                    access (sum_u64 (vmaddr_at file seg) slide) (page_rounded (vmsize_at file seg))
                        (initial_prot file seg),
                  ) in
                ap (λ (m : Memory). m x)
                  (add_sections-mem (load 4 file (seg + 64)) file slide (seg + 72) filled s' added)
                ∙ fill_segment-Misses file base slide seg x s.mem (sound spanned) (room spanned)
                    (misses spanned)
          ]
        ]
      ]
    ]

-- Where a segment of the span lies when the lowest address comes to `region`.
segment_in_region :
    (file : File) (seg lo hi region : ℕ)
    → IsSound file seg
    → lo ≤ vmaddr_at file seg
    → vmaddr_at file seg + vmsize_at file seg ≤ hi
    → region + (hi - lo) < 2 ^ 64
    → sum_u64 (vmaddr_at file seg) (slide_of region lo) ≡ region + (vmaddr_at file seg - lo)
segment_in_region file seg lo hi region sound above below room =
    omega (arith, sound.no_wrap, sound.small)

module _ (host : Host) (file : File) (base file_size end lo hi region x : ℕ)
    (access : (a n p : ℕ) → host.mprotect a n p ≡ true) (room : region + (hi - lo) < 2 ^ 64)
    (away : (x < region) ⊎ (region + (hi - lo) ≤ x)) where
  walk_command-away :
      (lc : ℕ) (w w' : Walk)
      → (is_spanned file lc ≡ true → IsSound file lc)
      → (is_spanned file lc ≡ true → lo ≤ vmaddr_at file lc)
      → (is_spanned file lc ≡ true → vmaddr_at file lc + vmsize_at file lc ≤ hi)
      → walk_command host file base file_size (slide_of region lo) lc w ≡ some w'
      → w'.mapping.mem x ≡ w.mapping.mem x
  unfolding walk_command set_entry
  walk_command-away lc w w' sound above below h =
      elim (Bool-cases (cmd_at file lc == lc_segment_64)) [
        | inr other ↦ ground (arith, other)
        | inl seg ↦
            elim (Option-cases
              (map_segment_64 host file base file_size (slide_of region lo) lc w.mapping)) [
                | inl failed ↦ absurd (ground (arith, seg, failed))
                | inr (m, mapped) ↦
                    let at = λ (p : is_spanned file lc ≡ true).
                      segment_in_region file lc lo hi region (sound p) (above p) (below p) room in
                    let same : w'.mapping ≡ m = ground (arith, seg, mapped) in
                    ap (λ (n : Mapping). n.mem x) same
                    ∙ map_segment_64-Misses host file base file_size (slide_of region lo) lc x
                        w.mapping m access sound (ground (arith, seg))
                        (λ p. omega (arith, at p, above p, below p))
                        (λ p. ground (arith, at p, above p, below p)) mapped
              ]
      ]

  -- The span of the commands that are left lies within `lo` and `hi`.
  walk_commands-away :
      (left lc : ℕ) (span : ℕ × ℕ) (w w' : Walk)
      → AllSound left file lc
      → lo ≤ (scan_span left file end lc span).0
      → (scan_span left file end lc span).1 ≤ hi
      → walk_commands left host file base file_size (slide_of region lo) end lc w ≡ some w'
      → w'.mapping.mem x ≡ w.mapping.mem x
  unfolding walk_commands scan_span
  walk_commands-away zero lc span w w' sound above below h = ground arith
  walk_commands-away (suc left) lc span w w' (sound, rest) above below h =
      elim (Bool-cases (leb (lc + 8) end)) [
        | inr done ↦ ground (arith, done)
        | inl more ↦ elim (Bool-cases (cmdsize_at file lc == 0 || ltb end (next_command file lc))) [
          | inl malformed ↦ absurd (ground (arith, more, malformed))
          | inr proper ↦
              elim (Option-cases
                (walk_command host file base file_size (slide_of region lo) lc w)) [
                  | inl failed ↦ absurd (ground (arith, more, proper, failed))
                  | inr (w1, stepped) ↦
                      let wide = widen file lc span in
                      let later = scan_span left file end (next_command file lc) wide in
                      let scanned : scan_span (suc left) file end lc span ≡ later =
                        ground (arith, more, proper) in
                      let above' : lo ≤ later.0 = rw scanned at above in
                      let below' : later.1 ≤ hi = rw scanned at below in
                      let inner =
                        scan_span-span left file end (next_command file lc) wide.0 wide.1 in
                      let seen = λ (p : is_spanned file lc ≡ true).
                        widen-spanned file lc span.0 span.1 p (sound p) in
                      walk_commands-away left (next_command file lc) wide w1 w' rest above' below'
                        (ground (arith, more, proper, stepped))
                      ∙ walk_command-away lc w w1 sound
                          (λ p. omega (arith, above', inner.0, (seen p).0))
                          (λ p. omega (arith, below', inner.1, (seen p).1)) stepped
                ]
        ]
      ]

-- The slide of a position-independent program whose region the kernel has reserved.
pie_slide :
    (host : Host) (span : ℕ × ℕ) (region : ℕ)
    → span.0 < span.1
    → span.1 < 2 ^ 64
    → host.reserve (span.1 - span.0) ≡ some region
    → choose_slide host true span ≡ slide_of region span.0
unfolding choose_slide slide_from
pie_slide host (lo, hi) region proper low reserved =
    let some_lo : (lo == 2 ^ 64 - 1) ≡ false = ground arith in
    let some_span : leb hi lo ≡ false = ground arith in
    rw (some_lo, some_span) (ground (arith, reserved))

-- The span of the program in the slice at `base`.
abbrev pub span_of_program : File → ℕ → ℕ × ℕ
span_of_program file base =
    scan_span (load 4 file (base + 16)) file (base + 32 + load 4 file (base + 20)) (base + 32)
      no_span

-- Mapping a position-independent program writes only into the region that the kernel has reserved for its
-- span, if access to it is given and each segment lies in the address space and has no more bytes in the
-- file than in memory.
pub load_program-region :
    (host : Host) (file : File) (base file_size region x : ℕ) (w w' : Walk)
    → has (load 4 file (base + 24)) 0x200000 ≡ true
    → ((a n p : ℕ) → host.mprotect a n p ≡ true)
    → AllSound (load 4 file (base + 16)) file (base + 32)
    → (span_of_program file base).0 < (span_of_program file base).1
    → (span_of_program file base).1 < 2 ^ 64
    → host.reserve ((span_of_program file base).1 - (span_of_program file base).0) ≡ some region
    → region + ((span_of_program file base).1 - (span_of_program file base).0) < 2 ^ 64
    → (x < region) ⊎ (region + ((span_of_program file base).1 - (span_of_program file base).0) ≤ x)
    → load_program host file base file_size w ≡ some w'
    → w'.mapping.mem x ≡ w.mapping.mem x
unfolding load_program
load_program-region host file base file_size region x w w' pie access sound proper low reserved room
      away h =
    let span = span_of_program file base in
    let ncmds = load 4 file (base + 16) in
    let end = base + 32 + load 4 file (base + 20) in
    let walked : walk_commands ncmds host file base file_size (slide_of region span.0) end
          (base + 32) w
        ≡ some w' =
      rw (pie, pie_slide host span region proper low reserved) at h in
    walk_commands-away host file base file_size end span.0 span.1 region x access room away ncmds
      (base + 32) no_span w w' sound (omega arith) (omega arith) walked
