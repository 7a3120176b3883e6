-- ===== src/Dylib/Image.antt =====
-- What the fixups of src/macho_dylib.c know of a library: its segments, its slide, and
-- `resolve_symbol` of src/segments.c over all libraries, which is a parameter.
use mac_ify.Dylib.Commands.{sum_u64}
use mac_ify.Prelude.{ℕ, zero, suc, List, [], ◌∷◌, Option, none, some}

-- dylib_segment
pub record DylibSegment : Type 0 where
  pub vmaddr : ℕ
  pub vmsize : ℕ
  pub fileoff : ℕ
  pub filesize : ℕ

pub record Dylib : Type 0 where
  -- `segs[0 .. nsegs)`
  pub segs : List DylibSegment
  -- a pattern of 64 bits
  pub slide : ℕ
  -- `resolve_symbol(-1, sym)`, 0 for NULL
  pub resolve : List ℕ → ℕ
  -- the address of `macify_unresolved_stub`
  pub stub : ℕ

-- `segs[i]`, if `0 <= i && i < nsegs`; `none` is the index -1.
abbrev pub get_elem? : List DylibSegment → ℕ → Option DylibSegment
get_elem? [] i = none
get_elem? (s ∷ segs) zero = some s
get_elem? (s ∷ segs) (suc i) = get_elem? segs i

unfoldable pub segment_of : Dylib → Option ℕ → Option DylibSegment
segment_of d none = none
segment_of d (some i) = get_elem? d.segs i

-- `segs[seg_index].vmaddr + seg_offset + slide`
abbrev pub slot_of : Dylib → DylibSegment → ℕ → ℕ
slot_of d seg seg_offset = sum_u64 (sum_u64 seg.vmaddr seg_offset) d.slide
