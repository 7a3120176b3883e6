-- ===== src/Syscall/Flags/Open.antt =====
-- What `translate_open_flags` of src/syscall/flag_translation.c does to each flag of open(2).
use mac_ify.Abi.Open.{OpenFlag, macos_bit, linux_bit, nonblock, append, async, sync, nofollow}
use mac_ify.Abi.Open.{creat, trunc, excl, noctty, cloexec, directory}
use mac_ify.Prelude.{ℕ, ◌≡◌, ◌≢◌, refl, ◌∙◌, bit_and, has, if◌then◌else◌, translate_bits, touching}
use mac_ify.Prelude.{and-translate_bits, translate_bits_untouched, translate_bits_row, mode_away}
use mac_ify.Prelude.{bit_and_assoc, ap, ◌∷◌, []}
use mac_ify.Syscall.Flags.{open_rows, translate_open_flags}

open_row :
    (k m f : ℕ)
    → touching k open_rows ≡ (m, k) ∷ []
    → bit_and 0x3 k ≡ 0
    → bit_and (translate_open_flags f) k ≡ (if has f m then k else 0)
unfolding translate_open_flags
open_row k m f row e = translate_bits_row k m open_rows f (bit_and f 0x3) row (mode_away f 0x3 k e)

-- Each flag other than O_DIRECTORY is set in the Linux word exactly when the macOS word has it.
pub translate_open_flags-bit :
    (f : ℕ) (e : OpenFlag)
    → e ≢ directory
    → bit_and (translate_open_flags f) (linux_bit e)
      ≡ (if has f (macos_bit e) then linux_bit e else 0)
unfolding translate_open_flags linux_bit macos_bit touching
translate_open_flags-bit f nonblock h = open_row _ _ f refl refl
translate_open_flags-bit f append h = open_row _ _ f refl refl
translate_open_flags-bit f async h = open_row _ _ f refl refl
translate_open_flags-bit f sync h = open_row _ _ f refl refl
translate_open_flags-bit f nofollow h = open_row _ _ f refl refl
translate_open_flags-bit f creat h = open_row _ _ f refl refl
translate_open_flags-bit f trunc h = open_row _ _ f refl refl
translate_open_flags-bit f excl h = open_row _ _ f refl refl
translate_open_flags-bit f noctty h = open_row _ _ f refl refl
translate_open_flags-bit f cloexec h = open_row _ _ f refl refl
translate_open_flags-bit f directory h = absurd (h refl)

-- The access mode is kept, O_DIRECTORY is never set, and no bit is set but those of the ten flags
-- and the mode.
pub translate_open_flags_frame :
    (f : ℕ)
    → (bit_and (translate_open_flags f) 0x3 ≡ bit_and f 0x3)
      × (bit_and (translate_open_flags f) (linux_bit directory) ≡ 0)
      × (bit_and (translate_open_flags f) 0x1a3fc3 ≡ translate_open_flags f)
unfolding translate_open_flags linux_bit touching
translate_open_flags_frame f = (
  translate_bits_untouched _ open_rows f _ refl ∙ bit_and_assoc f 3 3,
  translate_bits_untouched _ open_rows f _ refl ∙ mode_away f 0x3 _ refl,
  and-translate_bits _ open_rows f _ ∙ ap (translate_bits open_rows f) (bit_and_assoc f 3 _),
)
