-- ===== src/Dylib/Rebases/Agrees.antt =====
-- The rebase opcodes of a library, in src/macho_dylib.c, against those of the main program, in
-- src/fixups.c.
use mac_ify.Dylib.Commands.{sum_u64}
use mac_ify.Dylib.Image.{Dylib, DylibSegment, get_elem?, segment_of, slot_of}
use mac_ify.Dylib.Rebases.{SlideState, add_slide, slide_slot, slide_one, slide_times, slide_op}
use mac_ify.Dylib.Run.{Run, uleb_operand}
use mac_ify.Fixups.Image.{Image, add_u64, target_of}
use mac_ify.Fixups.Leb.{read_uleb128}
use mac_ify.Fixups.Rebase.{RebaseState, RebaseFlow, next, returned, undefined, with_uleb, slide_at}
use mac_ify.Fixups.Rebase.{do_one_rebase, rebase_times, rebase_op, ◌>>=◌}
use mac_ify.Prelude.{ℕ, zero, suc, ◌<◌, ◌≡◌, refl, arith, List}
use mac_ify.Prelude.{Option, none, some, Bool, true, false, ◌==◌, if◌then◌else◌}

-- The library's segments are the loaded segments of the program, which keeps their slid addresses.
pub record SameSegments (img : Image) (d : Dylib) : Type 0 where
  pub slides : d.slide ≡ img.slide
  pub segments :
      (i : ℕ)
      → i < img.nsegments
      → (seg : DylibSegment) × (get_elem? d.segs i ≡ some seg)
        × (img.vmaddr i ≡ sum_u64 seg.vmaddr d.slide)

-- The same variables in the other interpreter.
abbrev pub to_slide_state : RebaseState → SlideState
to_slide_state s = record {
  p = s.p;
  seg_index = some s.seg_index;
  seg_offset = s.seg_offset;
  mem = s.mem;
}

-- Both lead on to the same variables, or both return, or both shift too far.
pub data Follows : RebaseFlow → Run SlideState → Type 0 where
  goes_on : (s : RebaseState) → Follows (next s) (mac_ify.Dylib.Run.next (to_slide_state s))
  returns :
      (rc : Bool) (s : RebaseState)
      → Follows (returned rc s) (mac_ify.Dylib.Run.returned (to_slide_state s))
  faults : Follows undefined mac_ify.Dylib.Run.undefined

if-Follows :
    (b : Bool) {f g : RebaseFlow} {f' g' : Run SlideState}
    → Follows f f'
    → Follows g g'
    → Follows (if b then f else g) (if b then f' else g')
if-Follows true h k = h
if-Follows false h k = k

operand-Follows :
    (s : RebaseState) (o : Option (ℕ × List ℕ)) (k : ℕ → RebaseState → RebaseFlow)
    (k' : ℕ → List ℕ → Run SlideState)
    → ((v : ℕ) (q : List ℕ) → Follows (k v (record s { p = q })) (k' v q))
    → Follows
        (elim o [ none ↦ undefined | some (v, q) ↦ k v (record s { p = q }) ])
        (elim o [ none ↦ mac_ify.Dylib.Run.undefined | some (v, q) ↦ k' v q ])
operand-Follows s none k k' h = faults
operand-Follows s (some (v, q)) k k' h = h v q

uleb-Follows :
    (s : RebaseState) (k : ℕ → RebaseState → RebaseFlow) (k' : ℕ → List ℕ → Run SlideState)
    → ((v : ℕ) (q : List ℕ) → Follows (k v (record s { p = q })) (k' v q))
    → Follows (with_uleb s k) (uleb_operand s.p k')
unfolding with_uleb uleb_operand
uleb-Follows s k k' h = operand-Follows s (read_uleb128 s.p) k k' h

module _ (img : Image) (d : Dylib) (same : SameSegments img d) where
  slide_slot_lem :
      (s : RebaseState)
      → s.seg_index < img.nsegments
      → slide_slot d (to_slide_state s)
        ≡ slide_at img s.mem (target_of img s.seg_index s.seg_offset)
  unfolding slide_slot slide_at add_slide segment_of
  slide_slot_lem s h =
      let (seg, at, address) = same.segments s.seg_index h in
      let slot : slot_of d seg s.seg_offset ≡ target_of img s.seg_index s.seg_offset =
        rw address (omega arith) in
      rw (at, slide_slot) (rw (slot, same.slides) refl)

  do_one_rebase_lem :
      (s : RebaseState)
      → s.seg_index < img.nsegments
      → s.type ≡ 1
      → do_one_rebase img s
        ≡ next (record s {
          mem = slide_slot d (to_slide_state s);
          seg_offset = add_u64 s.seg_offset 8;
        })
  unfolding do_one_rebase
  do_one_rebase_lem s h ty = rw (slide_slot_lem s h) (ground arith)

  rebase_times_lem :
      (skip step left : ℕ) (s : RebaseState)
      → s.seg_index < img.nsegments
      → s.type ≡ 1
      → step ≡ sum_u64 skip 8
      → (s' : RebaseState) × (rebase_times img skip left s ≡ next s')
        × (slide_times d step left (to_slide_state s) ≡ to_slide_state s')
  unfolding rebase_times slide_times slide_one
  rebase_times_lem skip step zero s h ty e = (s, refl, refl)
  rebase_times_lem skip step (suc left) s h ty e =
      let (s', runs, slid) = rebase_times_lem skip step left after h ty e in
      (s', rw (do_one_rebase_lem s h ty) runs, rw place slid)
    where
      after : RebaseState
      after = record s {
        mem = slide_slot d (to_slide_state s);
        seg_offset = add_u64 (add_u64 s.seg_offset 8) skip;
      }

      place : sum_u64 s.seg_offset step ≡ add_u64 (add_u64 s.seg_offset 8) skip
      place = rw e (omega arith)

  times-Follows :
      (skip step left : ℕ) (s : RebaseState)
      → s.seg_index < img.nsegments
      → s.type ≡ 1
      → step ≡ sum_u64 skip 8
      → Follows
          (rebase_times img skip left s)
          (mac_ify.Dylib.Run.next (slide_times d step left (to_slide_state s)))
  times-Follows skip step left s h ty e =
      let (s', runs, slid) = rebase_times_lem skip step left s h ty e in
      rw (runs, slid) (goes_on s')

  one-Follows :
      (s : RebaseState)
      → s.seg_index < img.nsegments
      → s.type ≡ 1
      → Follows
          (do_one_rebase img s >>= (λ s1.
            with_uleb s1 (λ v s'. next (record s' { seg_offset = add_u64 s'.seg_offset v }))))
          (uleb_operand s.p (λ v q. mac_ify.Dylib.Run.next (record (to_slide_state s) {
            p = q;
            mem = slide_slot d (to_slide_state s);
            seg_offset = sum_u64 s.seg_offset (sum_u64 8 v);
          })))
  one-Follows s h ty =
      rw (do_one_rebase_lem s h ty) (uleb-Follows _ _ _ (λ v q. rw (skipped v) (goes_on _)))
    where
      skipped : (v : ℕ) → sum_u64 s.seg_offset (sum_u64 8 v) ≡ add_u64 (add_u64 s.seg_offset 8) v
      skipped v = omega arith

  -- In a segment that exists, with the pointer type, every rebase opcode has the same effect on the
  -- variables and on memory in a library as in the main program, and ends the opcodes in one where it
  -- ends them in the other.
  pub rebase_op-Follows :
      (op imm : ℕ) (s : RebaseState)
      → s.seg_index < img.nsegments
      → s.type ≡ 1
      → Follows (rebase_op img op imm s) (slide_op d op imm (to_slide_state s))
  unfolding rebase_op slide_op
  rebase_op-Follows op imm s h ty = if-Follows (op == 0x00) (returns true s) (
      if-Follows (op == 0x10) (goes_on (record s { type = imm })) (
        if-Follows (op == 0x20) (uleb-Follows s _ _ (λ v q. goes_on _)) (
          if-Follows (op == 0x30) (uleb-Follows s _ _ (λ v q. goes_on _)) (
            if-Follows (op == 0x40) (goes_on _) (
              if-Follows (op == 0x50) (times-Follows 0 8 imm s h ty refl) (
                if-Follows (op == 0x60)
                  (uleb-Follows s _ _ (λ count q. times-Follows 0 8 count _ h ty refl))
                  (if-Follows (op == 0x70) (one-Follows s h ty) (
                    if-Follows (op == 0x80)
                      (uleb-Follows s _ _ (λ count q.
                        uleb-Follows (record s { p = q }) _ _
                          (λ skip q'. times-Follows skip (sum_u64 skip 8) count _ h ty refl)))
                      (returns false s)))))))))
