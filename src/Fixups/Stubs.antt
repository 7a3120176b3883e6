-- ===== src/Fixups/Stubs.antt =====
-- `macify_note_stub` of src/fixups.c: how many slots were bound to the stub, and the first 32 names.
pub mod Inv
use mac_ify.Prelude.{ℕ, ◌+◌, ◌%◌, ◌^◌, List, [], ◌∷◌, ◌++◌, Bool, true, false, ◌&&◌, ltb}
use mac_ify.Prelude.{bytes_eq, length}
use mac_ify.Prelude.{if◌then◌else◌, ◌||◌}

pub record Noted : Type 0 where
  -- `g_stubbed_symbols`
  pub count : ℕ
  -- `noted_stubs[0 .. n_noted_stubs)`
  pub names : List (List ℕ)

abbrev pub max_noted_stubs : ℕ
max_noted_stubs = 32

-- `for (i = 0; i < n_noted_stubs; i++) if (strcmp(noted_stubs[i], sym) == 0) return;`
unfoldable pub is_noted : List (List ℕ) → List ℕ → Bool
is_noted [] sym = false
is_noted (name ∷ names) sym = bytes_eq name sym || is_noted names sym

-- `copied` says whether `strdup` succeeds.
unfoldable pub note_stub : Bool → Noted → List ℕ → Noted
note_stub copied n sym =
    let names' = n.names ++ (sym ∷ []) in
    record {
      count = (n.count + 1) % 2 ^ 64;
      names =
          if is_noted n.names sym
          then n.names
          else if ltb (length n.names) max_noted_stubs && copied
          then names'
          else n.names;
    }
