-- ===== src/Loader/Segments/Tables.antt =====
-- The tables of segments and sections that src/segments.c fills.
use mac_ify.Dylib.Commands.{File, lc_segment_64, cmd_at, cmdsize_at, next_command, vmsize_at}
use mac_ify.Loader.Segments.{Host, Mapping, add_sections, section_at, open_segment, is_truncated}
use mac_ify.Loader.Segments.{is_pagezero_at, map_segment_64, Walk, set_entry, walk_command}
use mac_ify.Loader.Segments.{walk_commands, max_sections, max_segments, segment_entry}
use mac_ify.Loader.Segments.{pagezero_entry, fill_segment}
use mac_ify.Prelude.{ℕ, zero, suc, ◌+◌, ◌≤◌, ◌≡◌, arith, [], ◌∷◌, ◌++◌, some, false, ◌||◌, Memory}
use mac_ify.Prelude.{load, length, length-append, ltb, leb, ◌==◌, Bool-cases, Option-cases, inl}
use mac_ify.Prelude.{inr}
use mac_ify.Syscall.Patcher.{LoadedSegment}

-- The tables hold what the arrays `g_segments` and `g_sections` have room for.
pub record IsValid (m : Mapping) : Type 0 where
  pub few_segments : length m.segments ≤ max_segments
  pub few_sections : length m.sections ≤ max_sections

add_sections-IsValid :
    (left : ℕ) (file : File) (slide p : ℕ) (s s' : Mapping)
    → IsValid s
    → add_sections left file slide p s ≡ some s'
    → IsValid s'
unfolding add_sections
add_sections-IsValid zero file slide p s s' v h = ground arith
add_sections-IsValid (suc left) file slide p s s' v h =
    elim (Bool-cases (leb max_sections (length s.sections))) [
      | inl full ↦ absurd (ground (arith, full))
      | inr room ↦
          let added = length-append s.sections (section_at file slide p ∷ []) in
          add_sections-IsValid left file slide (p + 80)
            (record s { sections = s.sections ++ section_at file slide p ∷ [] }) s'
            (record { few_segments = v.few_segments; few_sections = ground (arith, room, added) })
            (ground (arith, room))
    ]

-- Another segment fits a table that is not full.
append_segment-IsValid :
    (s : Mapping) (e : LoadedSegment) (mem : Memory)
    → IsValid s
    → leb max_segments (length s.segments) ≡ false
    → IsValid (record { segments = s.segments ++ e ∷ []; sections = s.sections; mem = mem })
append_segment-IsValid s e mem v few = record {
  few_segments = ground (arith, length-append s.segments (e ∷ []));
  few_sections = v.few_sections;
}

map_segment_64-IsValid :
    (host : Host) (file : File) (base file_size slide seg : ℕ) (s s' : Mapping)
    → IsValid s
    → map_segment_64 host file base file_size slide seg s ≡ some s'
    → IsValid s'
unfolding map_segment_64
map_segment_64-IsValid host file base file_size slide seg s s' v h =
    elim (Bool-cases (leb max_segments (length s.segments))) [
      | inl full ↦ absurd (ground (arith, full))
      | inr few ↦ elim (Bool-cases (vmsize_at file seg == 0)) [
        | inl empty ↦ ground (arith, few, empty)
        | inr some_size ↦ elim (Bool-cases (is_pagezero_at file seg)) [
          | inl guard_page ↦ ground (
            arith,
            few,
            some_size,
            guard_page,
            append_segment-IsValid s (pagezero_entry file seg) s.mem v few,
          )
          | inr plain ↦ elim (Option-cases (open_segment host file slide seg s.mem)) [
            | inl shut ↦ absurd (ground (arith, few, some_size, plain, shut))
            | inr (mem, opened) ↦ elim (Bool-cases (is_truncated file file_size seg)) [
              | inl short ↦ absurd (ground (arith, few, some_size, plain, opened, short))
              | inr whole ↦
                  add_sections-IsValid (load 4 file (seg + 64)) file slide (seg + 72) _ s'
                    (append_segment-IsValid s (segment_entry file slide seg)
                      (fill_segment file base slide seg mem) v few)
                    (ground (arith, few, some_size, plain, opened, whole))
            ]
          ]
        ]
      ]
    ]

walk_command-IsValid :
    (host : Host) (file : File) (base file_size slide lc : ℕ) (w w' : Walk)
    → IsValid w.mapping
    → walk_command host file base file_size slide lc w ≡ some w'
    → IsValid w'.mapping
unfolding walk_command set_entry
walk_command-IsValid host file base file_size slide lc w w' v h =
    elim (Bool-cases (cmd_at file lc == lc_segment_64)) [
      | inr other ↦ ground (arith, other)
      | inl seg ↦ elim (Option-cases (map_segment_64 host file base file_size slide lc w.mapping)) [
        | inl failed ↦ absurd (ground (arith, seg, failed))
        | inr (m, mapped) ↦ ground (
          arith,
          seg,
          mapped,
          map_segment_64-IsValid host file base file_size slide lc w.mapping m v mapped,
        )
      ]
    ]

-- Whatever the file says, the walk over its load commands keeps the tables within their arrays.
pub walk_commands-IsValid :
    (left : ℕ) (host : Host) (file : File) (base file_size slide end lc : ℕ) (w w' : Walk)
    → IsValid w.mapping
    → walk_commands left host file base file_size slide end lc w ≡ some w'
    → IsValid w'.mapping
unfolding walk_commands
walk_commands-IsValid zero host file base file_size slide end lc w w' v h = ground arith
walk_commands-IsValid (suc left) host file base file_size slide end lc w w' v h =
    elim (Bool-cases (leb (lc + 8) end)) [
      | inr done ↦ ground (arith, done)
      | inl more ↦ elim (Bool-cases (cmdsize_at file lc == 0 || ltb end (next_command file lc))) [
        | inl malformed ↦ absurd (ground (arith, more, malformed))
        | inr proper ↦ elim (Option-cases (walk_command host file base file_size slide lc w)) [
          | inl failed ↦ absurd (ground (arith, more, proper, failed))
          | inr (w1, stepped) ↦
              walk_commands-IsValid left host file base file_size slide end (next_command file lc)
                w1 w' (walk_command-IsValid host file base file_size slide lc w w1 v stepped)
                (ground (arith, more, proper, stepped))
        ]
      ]
    ]
