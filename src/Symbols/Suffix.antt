-- ===== src/Symbols/Suffix.antt =====
-- Names with a suffix, as `open$NOCANCEL`, in `resolve_symbol` of src/segments.c.
use mac_ify.Prelude.{ℕ, zero, suc, ◌<◌, ◌≡◌, refl, ◌∙◌, arith, List, [], ◌∷◌, ◌++◌, none, some}
use mac_ify.Prelude.{length, take, false, negsuc, Option-cases, inl, inr}
use mac_ify.Symbols.{Linked, before_dollar, with_base, search_flat, resolve_flat, is_one_of}
use mac_ify.Symbols.{resolve_symbol, resolve_ordinal, or_null}
use mac_ify.Symbols.Order.{routed_syms, unrouted}

-- The base of a name that is cut after its `$`, or later.
before_dollar_cut :
    (n : ℕ) (base rest : List ℕ)
    → before_dollar base ≡ none
    → length base < n
    → before_dollar (take n (base ++ (b'$' ∷ rest))) ≡ some base
unfolding before_dollar
before_dollar_cut zero base rest plain fits = absurd (omega arith)
before_dollar_cut (suc n) [] rest plain fits = refl
before_dollar_cut (suc n) (c ∷ base) rest plain fits = elim (Option-cases (before_dollar base)) [
  | inl none_left ↦
      let cut = before_dollar_cut n base rest none_left (omega arith) in
      ground (arith, plain, none_left, cut)
  | inr (b, some_left) ↦ absurd (ground (arith, plain, some_left))
]

with_base_cut :
    (search : List ℕ → ℕ) (name base : List ℕ)
    → before_dollar (take 255 name) ≡ some base
    → with_base search name ≡ search base
unfolding with_base
with_base_cut search name base cut = ground (arith, cut)

-- In the flat namespace a name with a suffix from a `$` on, that is found nowhere as it is, is resolved
-- to what the part before the `$` is found as, if that fits the buffer; the part is searched in the
-- same places in the same order.
resolve_symbol-suffix :
    (l : Linked) (base rest : List ℕ)
    → before_dollar base ≡ none
    → length base < 255
    → is_one_of (base ++ (b'$' ∷ rest)) routed_syms ≡ false
    → search_flat l (base ++ (b'$' ∷ rest)) ≡ 0
    → resolve_symbol l (negsuc 0) (base ++ (b'$' ∷ rest)) ≡ search_flat l base
unfolding resolve_ordinal resolve_flat with_base or_null
resolve_symbol-suffix l base rest plain fits unrouted_name missing =
    unrouted l (negsuc 0) (base ++ (b'$' ∷ rest)) unrouted_name
    ∙ rw missing (with_base_cut (search_flat l) _ base (before_dollar_cut 255 base rest plain fits))
