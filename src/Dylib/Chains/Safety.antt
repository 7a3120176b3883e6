-- ===== src/Dylib/Chains/Safety.antt =====
-- The chained fixups of a library, in src/macho_dylib.c, write only into its segments.
use mac_ify.Dylib.Commands.{File}
use mac_ify.Dylib.Image.{Dylib, DylibSegment}
use mac_ify.Dylib.Chains.{Fixing, then_fix, Imports, bind_sym, bind_named_sym}
use mac_ify.Dylib.Chains.{bind_entry, rebase_entry, chain_entry, follow_chain, start_of}
use mac_ify.Dylib.Chains.{chain_page}
use mac_ify.Dylib.Chains.{chain_pages, chain_segment, chain_segments, chain_base, imports_at}
use mac_ify.Dylib.Chains.{process_dylib_chained_fixups}
use mac_ify.Prelude.{ℕ, zero, suc, ◌+◌, ◌*◌, ◌/◌, ◌%◌, ◌^◌, ◌≤◌, ◌<◌, ◌≡◌, ◌⊎◌, inl, inr, refl}
use mac_ify.Prelude.{◌∙◌}
use mac_ify.Prelude.{arith, List, [], ◌∷◌, Option, none, some, not, ◌||◌, min}
use mac_ify.Prelude.{Memory, load, store_away, if_elim, Bool-cases, ltb, ◌==◌}

-- The byte `x` is `v` where the fixups lead on.
pub data Keeps (x v : ℕ) : Fixing → Type 0 where
  keeps : (mem : Memory) → mem x ≡ v → Keeps x v (some mem)
  unnamed : Keeps x v none

-- The byte `x` lies in none of the segments.
abbrev pub Outside : Dylib → ℕ → List DylibSegment → Type 0
Outside d x [] = Unit
Outside d x (seg ∷ segs) =
    ((x < start_of d seg) ⊎ (start_of d seg + seg.vmsize ≤ x)) × Outside d x segs

module _ (d : Dylib) (file : File) (t : Imports) (load_base x v : ℕ) where
  then_fix-Keeps :
      {o : Fixing} (k : Memory → Fixing)
      → Keeps x v o
      → ((mem : Memory) → mem x ≡ v → Keeps x v (k mem))
      → Keeps x v (then_fix o k)
  then_fix-Keeps k (keeps mem e) g = g mem e
  then_fix-Keeps k unnamed g = unnamed

  bind_named_sym-Keeps :
      (mem : Memory) (p addend : ℕ) (o : Option (List ℕ × List ℕ))
      → (x < p) ⊎ (p + 8 ≤ x)
      → mem x ≡ v
      → Keeps x v (bind_named_sym d mem p addend o)
  unfolding bind_sym
  bind_named_sym-Keeps mem p addend none away e = unnamed
  bind_named_sym-Keeps mem p addend (some (name, rest)) away e =
      keeps _ (store_away 8 mem p _ x away ∙ e)

  chain_entry-Keeps :
      (mem : Memory) (p : ℕ)
      → (x < p) ⊎ (p + 8 ≤ x)
      → mem x ≡ v
      → Keeps x v (chain_entry d file t load_base mem p)
  unfolding chain_entry bind_entry rebase_entry
  chain_entry-Keeps mem p away e =
      if_elim (Keeps x v) (load 8 mem p / 2 ^ 63 % 2 == 1)
        (if_elim (Keeps x v) (ltb (load 8 mem p % 2 ^ 16) t.count)
          (bind_named_sym-Keeps mem p _ _ away e) (keeps mem e))
        (keeps _ (store_away 8 mem p _ x away ∙ e))

  -- The chain is followed only to an entry that ends within the page.
  follow_chain-Keeps :
      (page_end left p : ℕ) (mem : Memory)
      → p + 8 ≤ page_end
      → (x < p) ⊎ (page_end ≤ x)
      → mem x ≡ v
      → Keeps x v (follow_chain d file t load_base page_end left p mem)
  unfolding follow_chain
  follow_chain-Keeps page_end zero p mem fits away e = keeps mem e
  follow_chain-Keeps page_end (suc left) p mem fits away e =
      let step : ℕ = load 8 mem p / 2 ^ 51 % 2 ^ 12 in
      then_fix-Keeps _ (chain_entry-Keeps mem p (ground arith) e) (λ mem' e'.
        if_elim (Keeps x v) (step == 0) (keeps mem' e')
          (elim (Bool-cases (ltb page_end (p + step * 4 + 8))) [
            | inl past ↦ rw past (keeps mem' e')
            | inr fits' ↦ rw fits' (
                follow_chain-Keeps page_end left (p + step * 4) mem' (ground arith) (ground arith)
                  e')
          ]))

  chain_page-Keeps :
      (seg : DylibSegment) (page_size pi start : ℕ) (mem : Memory)
      → (x < start_of d seg) ⊎ (start_of d seg + seg.vmsize ≤ x)
      → mem x ≡ v
      → Keeps x v (chain_page d file t load_base seg page_size pi start mem)
  unfolding chain_page
  chain_page-Keeps seg page_size pi start mem away e =
      elim (Bool-cases (start == 0xFFFF || ltb page_end (p + 8))) [
        | inl none_here ↦ rw none_here (keeps mem e)
        | inr some_here ↦
            rw some_here (follow_chain-Keeps page_end 16384 p mem (ground arith) (ground arith) e)
      ]
    where
      p : ℕ
      p = start_of d seg + pi * page_size + start

      page_end : ℕ
      page_end = min (start_of d seg + pi * page_size + page_size) (start_of d seg + seg.vmsize)

  chain_pages-Keeps :
      (seg : DylibSegment) (starts page_size pi left : ℕ) (mem : Memory)
      → (x < start_of d seg) ⊎ (start_of d seg + seg.vmsize ≤ x)
      → mem x ≡ v
      → Keeps x v (chain_pages d file t load_base seg starts page_size pi left mem)
  unfolding chain_pages
  chain_pages-Keeps seg starts page_size pi zero mem away e = keeps mem e
  chain_pages-Keeps seg starts page_size pi (suc left) mem away e =
      then_fix-Keeps _ (chain_page-Keeps seg page_size pi _ mem away e)
        (λ mem' e'. chain_pages-Keeps seg starts page_size (pi + 1) left mem' away e')

  chain_segments-Keeps :
      (starts_base si left : ℕ) (segs : List DylibSegment) (mem : Memory)
      → Outside d x segs
      → mem x ≡ v
      → Keeps x v (chain_segments d file t load_base starts_base si left segs mem)
  unfolding chain_segments chain_segment
  chain_segments-Keeps starts_base si left [] mem away e = keeps mem e
  chain_segments-Keeps starts_base si zero (seg ∷ segs) mem away e = keeps mem e
  chain_segments-Keeps starts_base si (suc left) (seg ∷ segs) mem away e =
      then_fix-Keeps _
        (if_elim (Keeps x v) (load 4 file (starts_base + 4 + si * 4) == 0) (keeps mem e)
          (chain_pages-Keeps seg _ _ 0 _ mem away.0 e))
        (λ mem' e'. chain_segments-Keeps starts_base (si + 1) left segs mem' away.1 e')

-- A byte that lies in no segment of the library is what it was before, whatever its file says.
pub process_dylib_chained_fixups-Keeps :
    (d : Dylib) (file : File) (file_size off size bound x : ℕ) (mem : Memory)
    → Outside d x d.segs
    → Keeps x (mem x) (process_dylib_chained_fixups d file file_size off size bound mem)
unfolding process_dylib_chained_fixups
process_dylib_chained_fixups-Keeps d file file_size off size bound x mem away =
    if_elim (Keeps x (mem x)) (off == 0 || size == 0) (keeps mem refl) (
      if_elim (Keeps x (mem x)) (ltb file_size ((off + size) % 2 ^ 32)) (keeps mem refl) (
        if_elim (Keeps x (mem x)) (not (load 4 file off == 0)) (keeps mem refl) (
          chain_segments-Keeps d file (imports_at file off bound) (chain_base d) x (mem x) _ 0 _
            d.segs mem away refl)))
