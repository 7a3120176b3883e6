-- ===== src/Dylib/Commands.antt =====
-- The load commands of a Mach-O file, as src/macho_dylib.c walks over them. A file is a memory of its
-- own that begins at 0 with the header: the kernel gives mappings that do not overlap.
use mac_ify.Prelude.{ℕ, zero, suc, ◌+◌, ◌%◌, ◌^◌, Bool, Memory, load, ◌==◌}

abbrev pub File : Type 0
File = Memory

-- `uint64_t` addition.
abbrev pub sum_u64 : ℕ → ℕ → ℕ
sum_u64 a b = (a + b) % 2 ^ 64

-- mach_header_64
abbrev pub mh_magic_64 : ℕ
mh_magic_64 = 0xFEEDFACF

abbrev pub magic_of : File → ℕ
magic_of file = load 4 file 0

abbrev pub filetype_of : File → ℕ
filetype_of file = load 4 file 12

abbrev pub ncmds_of : File → ℕ
ncmds_of file = load 4 file 16

abbrev pub first_command : ℕ
first_command = 32

-- load_command
abbrev pub cmd_at : File → ℕ → ℕ
cmd_at file lc = load 4 file lc

abbrev pub cmdsize_at : File → ℕ → ℕ
cmdsize_at file lc = load 4 file (lc + 4)

abbrev pub lc_segment_64 : ℕ
lc_segment_64 = 0x19

abbrev pub lc_symtab : ℕ
lc_symtab = 0x02

-- segment_command_64
abbrev pub vmaddr_at : File → ℕ → ℕ
vmaddr_at file seg = load 8 file (seg + 24)

abbrev pub vmsize_at : File → ℕ → ℕ
vmsize_at file seg = load 8 file (seg + 32)

abbrev pub fileoff_at : File → ℕ → ℕ
fileoff_at file seg = load 8 file (seg + 40)

abbrev pub filesize_at : File → ℕ → ℕ
filesize_at file seg = load 8 file (seg + 48)

abbrev pub initprot_at : File → ℕ → ℕ
initprot_at file seg = load 4 file (seg + 60)

unfoldable pub is_segment : File → ℕ → Bool
is_segment file lc = cmd_at file lc == lc_segment_64

-- `lc = (load_command *)((uint8_t *)lc + lc->cmdsize)`
abbrev pub next_command : File → ℕ → ℕ
next_command file lc = lc + cmdsize_at file lc

-- Where the command with this index lies, counted from the one at `lc`.
unfoldable pub command_at : File → ℕ → ℕ → ℕ
command_at file lc zero = lc
command_at file lc (suc k) = command_at file (next_command file lc) k
