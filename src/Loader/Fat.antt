-- ===== src/Loader/Fat.antt =====
-- src/main.c: the slice of a universal file that is loaded, and the checks of its header. The bytes of a file
-- are a memory that begins at 0; beyond its size nothing is known of them.
pub mod Slices
use mac_ify.Dylib.Commands.{File}
use mac_ify.Prelude.{ℕ, zero, suc, ◌+◌, ◌*◌, ◌^◌, ◌%◌, min, Option, none, some, Bool, true, false}
use mac_ify.Prelude.{◌&&◌, ◌||◌, not, load, ltb, ◌==◌, if◌then◌else◌}

-- `__builtin_bswap32(*(uint32_t *)p)`
unfoldable pub be32 : File → ℕ → ℕ
be32 file p = file (p + 3) + 256 * (file (p + 2) + 256 * (file (p + 1) + 256 * file p))

-- `file_data`, from the start of the file, and `file_size`.
pub record Slice : Type 0 where
  pub base : ℕ
  pub size : ℕ

abbrev pub fat_arch : Slice → ℕ → ℕ
fat_arch s i = s.base + 8 + i * 20

-- CPU_TYPE_X86_64
abbrev pub is_x86_64 : File → ℕ → Bool
is_x86_64 file arch = be32 file arch == 0x01000007

-- `offset + size > file_size`, a sum of 32 bits.
unfoldable pub is_past_end : File → Slice → ℕ → Bool
is_past_end file s arch = ltb s.size ((be32 file (arch + 8) + be32 file (arch + 12)) % 2 ^ 32)

abbrev pub slice_at : File → Slice → ℕ → Slice
slice_at file s arch = record { base = s.base + be32 file (arch + 8); size = be32 file (arch + 12) }

-- The loop, with the rounds left: a slice moves `file_data`, from which the next round reads the table.
unfoldable pub fat_loop : ℕ → File → ℕ → Slice → Option Slice
fat_loop zero file i s = some s
fat_loop (suc left) file i s =
    let arch = fat_arch s i in
    let taken = fat_loop left file (i + 1) (slice_at file s arch) in
    let next = fat_loop left file (i + 1) s in
    if not (is_x86_64 file arch) then next else if is_past_end file s arch then none else taken

-- `none` is the exit of `main`. FAT_MAGIC has its bytes in the other order.
unfoldable pub select_slice : File → ℕ → Option Slice
select_slice file file_size =
    let whole : Slice = record { base = 0; size = file_size } in
    if ltb file_size 4
    then none
    else if not (load 4 file 0 == 0xBEBAFECA)
    then some whole
    else if ltb file_size 8
    then none
    else fat_loop (min (be32 file 4) 16) file 0 whole

-- MH_MAGIC_64, CPU_TYPE_X86_64 and MH_EXECUTE.
unfoldable pub is_program : File → Slice → Bool
is_program file s =
    not (ltb s.size 32)
    && load 4 file s.base == 0xFEEDFACF
    && load 4 file (s.base + 4) == 0x01000007
    && load 4 file (s.base + 12) == 2
