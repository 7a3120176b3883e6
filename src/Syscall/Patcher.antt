-- ===== src/Syscall/Patcher.antt =====
-- `patch_syscalls_in_segment` of src/syscall/patcher.c: the text of a segment is patched.
pub mod Scan
pub mod Go
pub mod Sites
pub mod Trampolines
use mac_ify.Prelude.{ℕ, ◌+◌, ◌-◌, ◌%◌, ◌^◌, ℤ, pos, negsuc, List, [], ◌∷◌, Bool, true, false}
use mac_ify.Prelude.{◌&&◌, ◌||◌, not}
use mac_ify.Prelude.{has, bytes_eq, Memory, if◌then◌else◌}
use mac_ify.Syscall.Patcher.Scan.{PatchState, patch_syscalls_in_range}
use mac_ify.Syscall.Patcher.Go.{patch_go_systemstack, patch_go_gs_probe}

abbrev pub prot_exec : ℕ
prot_exec = 4

abbrev pub prot_all : ℕ
prot_all = 7

-- `loaded_section`; `segname` is its string up to 16 bytes.
pub record LoadedSection : Type 0 where
  pub segname : List ℕ
  pub addr : ℕ
  pub size : ℕ
  pub flags : ℕ

-- `loaded_segment`; `name` is its string up to 16 bytes.
pub record LoadedSegment : Type 0 where
  pub name : List ℕ
  pub vmaddr : ℕ
  pub vmsize : ℕ
  pub prot : ℕ
  pub target_prot : ℕ
  pub is_pagezero : Bool

-- What `patch_syscalls_in_segment` returns and leaves: the segment, its text, and the totals
-- `g_fast_path_sites` and `g_slow_path_sites`.
pub record Patched : Type 0 where
  pub rc : ℤ
  pub seg : LoadedSegment
  pub text : Memory
  pub fast_path_sites : ℕ
  pub slow_path_sites : ℕ

-- S_ATTR_SOME_INSTRUCTIONS, S_ATTR_PURE_INSTRUCTIONS
unfoldable pub section_is_code : LoadedSection → Bool
section_is_code s = has s.flags 0x00000400 || has s.flags 0x80000000

unfoldable pub is_code_of : LoadedSegment → LoadedSection → Bool
is_code_of seg s = bytes_eq s.segname seg.name && section_is_code s

unfoldable pub has_code_sections : LoadedSegment → List LoadedSection → Bool
has_code_sections seg [] = false
has_code_sections seg (s ∷ sections) = is_code_of seg s || has_code_sections seg sections

-- The loop over the sections.
unfoldable pub patch_sections : Bool → LoadedSegment → List LoadedSection → PatchState → PatchState
patch_sections no_fast_path seg [] st = st
patch_sections no_fast_path seg (s ∷ sections) st = patch_sections no_fast_path seg sections (
    if is_code_of seg s
    then patch_syscalls_in_range no_fast_path seg.vmsize st
        ((s.addr + 2 ^ 64 - seg.vmaddr) % 2 ^ 64) s.size
    else st)

-- The text after both counting passes: by sections, or the whole segment if none holds code.
unfoldable pub patch_text : Bool → LoadedSegment → List LoadedSection → Memory → PatchState
patch_text no_fast_path seg sections text =
    let st : PatchState = record { text = text; fast = 0; slow = 0 } in
    if has_code_sections seg sections
    then patch_sections no_fast_path seg sections st
    else patch_syscalls_in_range no_fast_path seg.vmsize st 0 seg.vmsize

abbrev pub unchanged : ℤ → LoadedSegment → Memory → ℕ → ℕ → Patched
unchanged rc seg text fast slow = record {
  rc = rc;
  seg = seg;
  text = text;
  fast_path_sites = fast;
  slow_path_sites = slow;
}

-- `mprotect` says whether the call succeeds.
unfoldable pub patch_syscalls_in_segment :
    (ℕ → ℕ → ℕ → Bool) → Bool → LoadedSegment → List LoadedSection → Memory → ℕ → ℕ → Patched
patch_syscalls_in_segment mprotect no_fast_path seg sections text fast slow =
    let st = patch_text no_fast_path seg sections text in
    let text' = patch_go_gs_probe seg.vmsize (patch_go_systemstack seg.vmsize st.text) in
    if not (has seg.prot prot_exec)
    then unchanged (pos 0) seg text fast slow
    else if seg.is_pagezero
    then unchanged (pos 0) seg text fast slow
    else if not (mprotect seg.vmaddr seg.vmsize prot_all)
    then unchanged (negsuc 0) seg text fast slow
    else if not (mprotect seg.vmaddr seg.vmsize seg.target_prot)
    then record (unchanged (negsuc 0) seg text fast slow) { text = text' }
    else record {
      rc = pos (st.fast + st.slow);
      seg = record seg { prot = seg.target_prot };
      text = text';
      fast_path_sites = fast + st.fast;
      slow_path_sites = slow + st.slow;
    }
