-- ===== src/Symbols.antt =====
-- src/segments.c: `resolve_symbol`, which finds the address that an import of the program is bound to.
-- `dlsym` is a parameter; an address of 0 is NULL, and the handle 0 is RTLD_DEFAULT. Traces are left out.
pub mod Order
pub mod Suffix
use mac_ify.Dylib.Exports.{Export, macho_dylib_lookup}
use mac_ify.Prelude.{ℕ, zero, suc, List, [], ◌∷◌, Option, none, some, Bool, true, false, not, ◌&&◌}
use mac_ify.Prelude.{◌||◌, ℤ, pos, negsuc, ◌==◌, if◌then◌else◌, bytes_eq, codes, take}

-- A `loaded_dylib` of the main program: 0 is a handle that is not open.
pub record DylibHandles : Type 0 where
  pub handle : ℕ
  pub libc_handle : ℕ
  pub libm_handle : ℕ

-- What is loaded: `g_dylibs`, of which the first is the shim, `g_extra_handles`, and the exports of the
-- Mach-O libraries. `call f` is the function at the address `f`, from texts to addresses.
pub record Linked : Type 0 where
  pub dylibs : List DylibHandles
  pub extra_handles : List ℕ
  pub exports : List (List Export)
  pub dlsym : ℕ → List ℕ → ℕ
  pub call : ℕ → List ℕ → ℕ

-- `if (!addr) addr = ...`
unfoldable pub or_null : ℕ → ℕ → ℕ
or_null addr other = if addr == 0 then other else addr

-- `macho_dylib_lookup`, with 0 for NULL.
unfoldable pub lookup_addr : Linked → List ℕ → ℕ
lookup_addr l sym = elim (macho_dylib_lookup l.exports sym) [ some addr ↦ addr | none ↦ 0 ]

unfoldable pub in_handle : Linked → ℕ → List ℕ → ℕ
in_handle l handle sym = if handle == 0 then 0 else l.dlsym handle sym

-- The shim or library, then its libc and libm.
unfoldable pub in_dylib : Linked → DylibHandles → List ℕ → ℕ
in_dylib l dy sym =
    or_null (l.dlsym dy.handle sym)
      (or_null (in_handle l dy.libc_handle sym) (in_handle l dy.libm_handle sym))

unfoldable pub in_dylibs : Linked → List DylibHandles → List ℕ → ℕ
in_dylibs l [] sym = 0
in_dylibs l (dy ∷ dylibs) sym = or_null (in_dylib l dy sym) (in_dylibs l dylibs sym)

unfoldable pub in_extra : Linked → List ℕ → List ℕ → ℕ
in_extra l [] sym = 0
in_extra l (handle ∷ handles) sym = or_null (l.dlsym handle sym) (in_extra l handles sym)

-- The part before the first `$`, if there is one.
unfoldable pub before_dollar : List ℕ → Option (List ℕ)
before_dollar [] = none
before_dollar (c ∷ rest) =
    let base = before_dollar rest in
    if c == b'$' then some [] else elim base [ some b ↦ some (c ∷ b) | none ↦ none ]

-- `base_sym`, a buffer of 256 bytes.
unfoldable pub with_base : (List ℕ → ℕ) → List ℕ → ℕ
with_base search sym = elim (before_dollar (take 255 sym)) [ some base ↦ search base | none ↦ 0 ]

-- The flat namespace: the Mach-O libraries, the shim and Linux libraries, the extra handles, and the
-- default scope.
unfoldable pub search_flat : Linked → List ℕ → ℕ
search_flat l sym =
    or_null (lookup_addr l sym) (
      or_null (in_dylibs l l.dylibs sym) (or_null (in_extra l l.extra_handles sym) (l.dlsym 0 sym)))

unfoldable pub resolve_flat : Linked → List ℕ → ℕ
resolve_flat l sym = or_null (search_flat l sym) (with_base (search_flat l) sym)

-- `g_dylibs[0].handle`, 0 without a library.
abbrev pub shim_handle : List DylibHandles → ℕ
shim_handle [] = 0
shim_handle (dy ∷ dylibs) = dy.handle

unfoldable pub routed : Linked → List ℕ → ℕ
routed l sym =
    let shim = shim_handle l.dylibs in
    if shim == 0
    then 0
    else if bytes_eq sym (codes "getaddrinfo")
    then l.dlsym shim (codes "macify_getaddrinfo")
    else if bytes_eq sym (codes "freeaddrinfo")
    then l.dlsym shim (codes "macify_freeaddrinfo")
    else 0

unfoldable pub is_environ : List ℕ → Bool
is_environ sym = bytes_eq sym (codes "environ") || bytes_eq sym (codes "__environ")

unfoldable pub strong_environ : Linked → List ℕ → ℕ
strong_environ l sym = if is_environ sym then l.dlsym 0 sym else 0

unfoldable pub is_one_of : List ℕ → List (List ℕ) → Bool
is_one_of sym [] = false
is_one_of sym (name ∷ names) = bytes_eq sym name || is_one_of sym names

abbrev pub interpose_syms : List (List ℕ)
interpose_syms =
    codes "execve"
    ∷ codes "execvp"
    ∷ codes "execvpe"
    ∷ codes "execv"
    ∷ codes "execl"
    ∷ codes "execle"
    ∷ codes "execlp"
    ∷ codes "posix_spawn"
    ∷ codes "posix_spawnp"
    ∷ codes "system"
    ∷ codes "popen"
    ∷ codes "regcomp"
    ∷ codes "regexec"
    ∷ codes "regfree"
    ∷ codes "regerror"
    ∷ codes "setlocale"
    ∷ codes "newlocale"
    ∷ codes "uselocale"
    ∷ codes "duplocale"
    ∷ codes "freelocale"
    ∷ codes "realpath$DARWIN_EXTSN"
    ∷ codes "stat$INODE64"
    ∷ codes "lstat$INODE64"
    ∷ codes "fstat$INODE64"
    ∷ codes "fstatat$INODE64"
    ∷ codes "opendir$INODE64"
    ∷ codes "CFStringCreateWithBytes"
    ∷ codes "CFStringCreateWithBytesNoCopy"
    ∷ codes "CFStringCreateWithCString"
    ∷ codes "CFStringCreateWithCStringNoCopy"
    ∷ codes "CFStringCreateMutableCopy"
    ∷ codes "CFStringNormalize"
    ∷ codes "CFStringGetLength"
    ∷ codes "CFStringGetBytes"
    ∷ codes "CFStringGetCString"
    ∷ codes "CFStringGetCStringPtr"
    ∷ codes "CFStringGetMaximumSizeForEncoding"
    ∷ codes "CFStringCompare"
    ∷ codes "CFStringCreateExternalRepresentation"
    ∷ codes "CFStringGetFastestEncoding"
    ∷ codes "CFStringGetSystemEncoding"
    ∷ codes "CFStringGetTypeID"
    ∷ codes "CFGetTypeID"
    ∷ codes "CFRelease"
    ∷ codes "CFRetain"
    ∷ []

unfoldable pub interposed : Linked → List ℕ → ℕ
interposed l sym =
    let shim = shim_handle l.dylibs in
    if not (shim == 0) && is_one_of sym interpose_syms then l.dlsym shim sym else 0

-- `macify_get_shim_symbol` of the shim.
unfoldable pub shim_symbol : Linked → List ℕ → ℕ
shim_symbol l sym =
    let get_shim_sym = in_handle l (shim_handle l.dylibs) (codes "macify_get_shim_symbol") in
    if get_shim_sym == 0
    then 0
    else or_null (l.call get_shim_sym sym) (with_base (l.call get_shim_sym) sym)

unfoldable pub search_base : Linked → DylibHandles → List ℕ → ℕ
search_base l dy base_sym =
    or_null (lookup_addr l base_sym)
      (or_null (in_dylib l dy base_sym) (in_extra l l.extra_handles base_sym))

unfoldable pub resolve_in : Linked → DylibHandles → List ℕ → ℕ
resolve_in l dy sym = or_null (interposed l sym) (
    or_null (strong_environ l sym) (
      or_null (lookup_addr l sym) (
        or_null (shim_symbol l sym) (
          or_null (in_dylib l dy sym) (
            or_null (in_extra l l.extra_handles sym)
              (or_null (with_base (search_base l dy) sym) (l.dlsym 0 sym)))))))

abbrev pub dylib_at : List DylibHandles → ℕ → Option DylibHandles
dylib_at [] i = none
dylib_at (dy ∷ dylibs) zero = some dy
dylib_at (dy ∷ dylibs) (suc i) = dylib_at dylibs i

-- The ordinal -1 is the flat namespace.
unfoldable pub resolve_ordinal : Linked → ℤ → List ℕ → ℕ
resolve_ordinal l (pos i) sym = elim (dylib_at l.dylibs i) [
  | some dy ↦ resolve_in l dy sym
  | none ↦ 0
]
resolve_ordinal l (negsuc n) sym = if n == 0 then resolve_flat l sym else 0

unfoldable pub resolve_symbol : Linked → ℤ → List ℕ → ℕ
resolve_symbol l ordinal_idx sym = or_null (routed l sym) (resolve_ordinal l ordinal_idx sym)
