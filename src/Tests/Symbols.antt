-- ===== src/Tests/Symbols.antt =====
-- Runs of `resolve_symbol` of src/segments.c.
use mac_ify.Dylib.Exports.{macho_dylib_lookup, find_in_dylibs, find_export}
use mac_ify.Dylib.Exports.{eq_unstripped}
use mac_ify.Prelude.{◌≡◌, refl, arith, List, [], ◌∷◌, ◌&&◌, ◌==◌, if◌then◌else◌, bytes_eq, codes}
use mac_ify.Prelude.{pos, negsuc}
use mac_ify.Symbols.{DylibHandles, Linked, resolve_symbol}
use mac_ify.Symbols.{is_environ, is_one_of}
use mac_ify.Symbols.Order.{resolve_symbol-exported}

abbrev shim_and_libc : List DylibHandles
shim_and_libc =
    record { handle = 1; libc_handle = 0; libm_handle = 0 }
    ∷ record { handle = 2; libc_handle = 3; libm_handle = 0 }
    ∷ []

-- `execve` of the shim and of libc, `open` in the default scope, and `tputs` in a Mach-O library.
abbrev linked : Linked
linked = record {
  dylibs = shim_and_libc;
  extra_handles = [];
  exports = (record { name = codes "tputs"; addr = 0x7000 } ∷ []) ∷ [];
  dlsym = λ handle name.
      if bytes_eq name (codes "execve")
      then if handle == 1 then 0x100 else if handle == 3 then 0x300 else 0
      else if handle == 0 && bytes_eq name (codes "open")
      then 0x200
      else 0;
  call = λ function name. 0;
}

resolve_symbol-exported_example :
    (resolve_symbol linked (negsuc 0) (codes "tputs") ≡ 0x7000)
    × (resolve_symbol linked (pos 1) (codes "tputs") ≡ 0x7000)
unfolding is_one_of bytes_eq is_environ macho_dylib_lookup find_in_dylibs find_export eq_unstripped
resolve_symbol-exported_example =
    resolve_symbol-exported linked 1 0x7000
      (record { handle = 2; libc_handle = 3; libm_handle = 0 }) (codes "tputs") refl (omega arith)
      refl refl refl refl
