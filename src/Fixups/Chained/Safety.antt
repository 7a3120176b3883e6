-- ===== src/Fixups/Chained/Safety.antt =====
-- The chained fixups of src/fixups.c write only into the segments of the image.
use mac_ify.Fixups.Chained.{FixState, Tables, Fixed, and_then, to_fixed, unless_failed}
use mac_ify.Fixups.Chained.{bind_named, rebase_slot, bind_slot, import_address, bind_import}
use mac_ify.Fixups.Chained.{fix_entry, walk_chain, set_load_base, page_end_of, fix_page}
use mac_ify.Fixups.Chained.{fix_pages, fix_segment, fix_indexed, fix_segments}
use mac_ify.Fixups.Chained.{execute_chained_fixups, tables_at, imports_count}
use mac_ify.Fixups.Image.{Image, add_u64}
use mac_ify.Fixups.Bind.{strip_underscore}
use mac_ify.Prelude.{ℕ, zero, suc, ◌+◌, ◌*◌, ◌/◌, ◌%◌, ◌^◌, ◌≤◌, ◌<◌, ◌≡◌, ◌⊎◌, inl, inr, refl}
use mac_ify.Prelude.{◌∙◌, arith, List, Option, none, some, Bool, true, false, ◌||◌, not}
use mac_ify.Prelude.{load, store_away, leb, ltb, ◌==◌, if_elim, Bool-cases, min}

-- The byte at `x` is `v` in the result, if there is one.
pub data KeptAt (x v : ℕ) : Option FixState → Type 0 where
  faults : KeptAt x v none
  kept : (s : FixState) → s.mem x ≡ v → KeptAt x v (some s)

pub data FixedAt (x v : ℕ) : Fixed → Type 0 where
  faults : FixedAt x v none
  kept : (rc : Bool) (s : FixState) → s.mem x ≡ v → FixedAt x v (some (rc, s))

module _ (x v : ℕ) where
  and_then-KeptAt :
      {o : Option FixState} {k : FixState → Option FixState}
      → KeptAt x v o
      → ((s : FixState) → s.mem x ≡ v → KeptAt x v (k s))
      → KeptAt x v (and_then o k)
  and_then-KeptAt faults g = faults
  and_then-KeptAt (kept s e) g = g s e

  to_fixed-FixedAt : {o : Option FixState} → KeptAt x v o → FixedAt x v (to_fixed o)
  to_fixed-FixedAt faults = faults
  to_fixed-FixedAt (kept s e) = kept true s e

  unless_failed-FixedAt :
      {o : Fixed} {k : FixState → Fixed}
      → FixedAt x v o
      → ((s : FixState) → s.mem x ≡ v → FixedAt x v (k s))
      → FixedAt x v (unless_failed o k)
  unless_failed-FixedAt faults g = faults
  unless_failed-FixedAt (kept false s e) g = kept false s e
  unless_failed-FixedAt (kept true s e) g = g s e

module _ (img : Image) (t : Tables) (x v : ℕ) where
  bind_slot-kept :
      (s : FixState) (p addend lib : ℕ) (sym : List ℕ)
      → (x < p) ⊎ (p + 8 ≤ x)
      → s.mem x ≡ v
      → (bind_slot img s p addend lib sym).mem x ≡ v
  unfolding bind_slot
  bind_slot-kept s p addend lib sym away e = ground (
    arith,
    store_away 8 s.mem p (add_u64 (import_address img lib sym) addend) x away,
    store_away 8 s.mem p (add_u64 img.stub addend) x away,
  )

  bind_named-KeptAt :
      (s : FixState) (p addend lib : ℕ) (name : Option (List ℕ × List ℕ))
      → (x < p) ⊎ (p + 8 ≤ x)
      → s.mem x ≡ v
      → KeptAt x v (bind_named img s p addend lib name)
  unfolding bind_named
  bind_named-KeptAt s p addend lib none away e = faults
  bind_named-KeptAt s p addend lib (some (name, rest)) away e =
      kept _ (bind_slot-kept s p addend lib (strip_underscore name) away e)

  bind_import-KeptAt :
      (s : FixState) (p value : ℕ)
      → (x < p) ⊎ (p + 8 ≤ x)
      → s.mem x ≡ v
      → KeptAt x v (bind_import img t s p value)
  unfolding bind_import
  bind_import-KeptAt s p value away e =
      if_elim (KeptAt x v) (leb (imports_count t s.mem) (value % 2 ^ 24)) (kept s e)
        (bind_named-KeptAt s p _ _ _ away e)

  fix_entry-KeptAt :
      (s : FixState) (p : ℕ)
      → (x < p) ⊎ (p + 8 ≤ x)
      → s.mem x ≡ v
      → KeptAt x v (fix_entry img t s p)
  unfolding fix_entry rebase_slot
  fix_entry-KeptAt s p away e =
      if_elim (KeptAt x v) (load 8 s.mem p / 2 ^ 63 % 2 == 1)
        (bind_import-KeptAt s p (load 8 s.mem p) away e)
        (kept _ (store_away 8 s.mem p _ x away ∙ e))

  -- The loop continues only at an entry that ends within the page.
  walk_chain-KeptAt :
      (page_end left p : ℕ) (s : FixState)
      → p + 8 ≤ page_end
      → (x < p) ⊎ (page_end ≤ x)
      → s.mem x ≡ v
      → KeptAt x v (walk_chain img t page_end left p s)
  unfolding walk_chain
  walk_chain-KeptAt page_end zero p s fits away e = kept s e
  walk_chain-KeptAt page_end (suc left) p s fits away e =
      and_then-KeptAt x v (fix_entry-KeptAt s p (ground arith) e) (λ s' e'.
        if_elim (KeptAt x v) (next == 0) (kept s' e')
          (elim (Bool-cases (ltb page_end (p + next * 4 + 8))) [
            | inl past ↦ rw past (kept s' e')
            | inr fits' ↦
                rw fits' (
                  walk_chain-KeptAt page_end left (p + next * 4) s' (ground arith) (ground arith)
                    e')
          ]))
    where
      next : ℕ
      next = load 8 s.mem p / 2 ^ 51 % 2 ^ 12

  fix_page-KeptAt :
      (seg page_size idx start : ℕ) (s : FixState)
      → (x < img.vmaddr seg) ⊎ (img.vmaddr seg + img.vmsize seg ≤ x)
      → s.mem x ≡ v
      → KeptAt x v (fix_page img t seg page_size idx start s)
  unfolding fix_page set_load_base
  fix_page-KeptAt seg page_size idx start s away e =
      if_elim (KeptAt x v) (start == 0xFFFF) (kept s e) (elim (Bool-cases (ltb page_end (p + 8))) [
        | inl past ↦ rw past (kept _ e)
        | inr fits ↦ rw fits (walk_chain-KeptAt page_end 16384 p _ (ground arith) (ground arith) e)
      ])
    where
      p : ℕ
      p = img.vmaddr seg + idx * page_size + start

      page_end : ℕ
      page_end = page_end_of img seg (img.vmaddr seg + idx * page_size) page_size

  fix_pages-KeptAt :
      (seg starts page_size idx left : ℕ) (s : FixState)
      → (x < img.vmaddr seg) ⊎ (img.vmaddr seg + img.vmsize seg ≤ x)
      → s.mem x ≡ v
      → KeptAt x v (fix_pages img t seg starts page_size idx left s)
  unfolding fix_pages
  fix_pages-KeptAt seg starts page_size idx zero s away e = kept s e
  fix_pages-KeptAt seg starts page_size idx (suc left) s away e =
      and_then-KeptAt x v (fix_page-KeptAt seg page_size idx _ s away e)
        (λ s' e'. fix_pages-KeptAt seg starts page_size (idx + 1) left s' away e')

  fix_indexed-FixedAt :
      (starts_base seg : ℕ) (s : FixState)
      → (x < img.vmaddr seg) ⊎ (img.vmaddr seg + img.vmsize seg ≤ x)
      → s.mem x ≡ v
      → FixedAt x v (fix_indexed img t starts_base seg s)
  unfolding fix_indexed fix_segment
  fix_indexed-FixedAt starts_base seg s away e =
      if_elim (FixedAt x v) (load 4 s.mem (starts_base + 4 + seg * 4) == 0) (kept true s e) (
        if_elim (FixedAt x v) _ (kept false s e)
          (to_fixed-FixedAt x v (fix_pages-KeptAt seg _ _ 0 _ s away e)))

  fix_segments-FixedAt :
      (starts_base seg left : ℕ) (s : FixState)
      → ((i : ℕ) → i < seg + left → (x < img.vmaddr i) ⊎ (img.vmaddr i + img.vmsize i ≤ x))
      → s.mem x ≡ v
      → FixedAt x v (fix_segments img t starts_base seg left s)
  unfolding fix_segments
  fix_segments-FixedAt starts_base seg zero s away e = kept true s e
  fix_segments-FixedAt starts_base seg (suc left) s away e =
      unless_failed-FixedAt x v (fix_indexed-FixedAt starts_base seg s (away seg (omega arith)) e)
        (λ s' e'.
          fix_segments-FixedAt starts_base (seg + 1) left s' (λ i h. away i (omega arith)) e')

-- A byte that lies in no segment is what it was before, whatever the tables in the file say.
pub execute_chained_fixups-FixedAt :
    (img : Image) (has_fixups : Bool) (off size file_data file_size name_bound : ℕ) (s : FixState)
    (x : ℕ)
    → ((i : ℕ) → i < img.nsegments → (x < img.vmaddr i) ⊎ (img.vmaddr i + img.vmsize i ≤ x))
    → FixedAt x
        (s.mem x)
        (execute_chained_fixups img has_fixups off size file_data file_size name_bound s)
unfolding execute_chained_fixups
execute_chained_fixups-FixedAt img has_fixups off size file_data file_size name_bound s x away =
    let fixups = file_data + off in
    let starts_base = fixups + load 4 s.mem (fixups + 4) in
    if_elim (FixedAt x (s.mem x)) (not has_fixups || size == 0) (kept true s refl) (
      if_elim (FixedAt x (s.mem x)) (ltb file_size ((off + size) % 2 ^ 32)) (kept false s refl) (
        if_elim (FixedAt x (s.mem x)) (not (load 4 s.mem fixups == 0)) (kept false s refl) (
          fix_segments-FixedAt img (tables_at s.mem fixups name_bound) x (s.mem x) starts_base 0
            (min (load 4 s.mem starts_base) img.nsegments) s (λ i h. away i (omega arith)) refl)))
