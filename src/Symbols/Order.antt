-- ===== src/Symbols/Order.antt =====
-- The order in which `resolve_symbol` of src/segments.c searches.
use mac_ify.Dylib.Exports.{macho_dylib_lookup}
use mac_ify.Prelude.{ℕ, List, [], ◌∷◌, some, false}
use mac_ify.Prelude.{ℤ, pos, negsuc, codes, ◌≡◌, ◌≢◌, refl, ◌∙◌}
use mac_ify.Prelude.{arith, sym}
use mac_ify.Symbols.{Linked, DylibHandles, or_null, lookup_addr, routed, is_one_of}
use mac_ify.Symbols.{interpose_syms, interposed, resolve_in, resolve_flat, search_flat, dylib_at}
use mac_ify.Symbols.{resolve_ordinal, resolve_symbol, is_environ, strong_environ}

or_null-second : (b : ℕ) → or_null 0 b ≡ b
unfolding or_null
or_null-second b = refl

or_null-first : (a b : ℕ) → a ≢ 0 → or_null a b ≡ a
unfolding or_null
or_null-first a b h = ground (arith, h)

-- The two names that have a wrapper of another name in the shim.
abbrev pub routed_syms : List (List ℕ)
routed_syms = codes "getaddrinfo" ∷ codes "freeaddrinfo" ∷ []

routed_others :
    (l : Linked) (name : List ℕ) → is_one_of name routed_syms ≡ false → routed l name ≡ 0
unfolding routed is_one_of
routed_others l name h = ground (arith, h)

pub unrouted :
    (l : Linked) (ordinal_idx : ℤ) (name : List ℕ)
    → is_one_of name routed_syms ≡ false
    → resolve_symbol l ordinal_idx name ≡ resolve_ordinal l ordinal_idx name
unfolding resolve_symbol or_null
unrouted l ordinal_idx name plain = rw (routed_others l name plain) refl

resolve_at :
    (l : Linked) (i : ℕ) (dy : DylibHandles) (name : List ℕ)
    → dylib_at l.dylibs i ≡ some dy
    → resolve_ordinal l (pos i) name ≡ resolve_in l dy name
unfolding resolve_ordinal
resolve_at l i dy name at = ground (arith, at)

lookup_found :
    (l : Linked) (name : List ℕ) (addr : ℕ)
    → macho_dylib_lookup l.exports name ≡ some addr
    → lookup_addr l name ≡ addr
unfolding lookup_addr
lookup_found l name addr found = ground (arith, found)

interposed_unlisted :
    (l : Linked) (name : List ℕ) → is_one_of name interpose_syms ≡ false → interposed l name ≡ 0
unfolding interposed
interposed_unlisted l name unlisted = rw unlisted (ground arith)

-- What is found before the shim's own functions.
resolve_in-exported :
    (l : Linked) (dy : DylibHandles) (name : List ℕ)
    → lookup_addr l name ≢ 0
    → is_one_of name interpose_syms ≡ false
    → is_environ name ≡ false
    → resolve_in l dy name ≡ lookup_addr l name
unfolding resolve_in strong_environ
resolve_in-exported l dy name found unlisted other =
    rw (interposed_unlisted l name unlisted, other)
      (or_null-second _ ∙ or_null-second _ ∙ or_null-first _ _ found)

-- A name that `macho_dylib_lookup` finds at an address other than NULL is resolved to it, in the flat
-- namespace and for the ordinal of every library, whatever the shim and the Linux libraries export: but
-- for the two names that have a wrapper in the shim, the names of `interpose_syms`, and those of the
-- environment.
pub resolve_symbol-exported :
    (l : Linked) (i addr : ℕ) (dy : DylibHandles) (name : List ℕ)
    → macho_dylib_lookup l.exports name ≡ some addr
    → addr ≢ 0
    → is_one_of name routed_syms ≡ false
    → is_one_of name interpose_syms ≡ false
    → is_environ name ≡ false
    → dylib_at l.dylibs i ≡ some dy
    → (resolve_symbol l (negsuc 0) name ≡ addr) × (resolve_symbol l (pos i) name ≡ addr)
unfolding resolve_ordinal resolve_flat search_flat or_null
resolve_symbol-exported l i addr dy name found some_addr plain unlisted other at =
    let value = lookup_found l name addr found in
    let some_value : lookup_addr l name ≢ 0 = λ e. some_addr (sym value ∙ e) in
    (
      unrouted l (negsuc 0) name plain ∙ rw value (ground (arith, some_addr)),
      unrouted l (pos i) name plain
          ∙ resolve_at l i dy name at
          ∙ resolve_in-exported l dy name some_value unlisted other
          ∙ value,
    )
