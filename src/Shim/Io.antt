-- ===== src/Shim/Io.antt =====
-- shim/io/flags.c: the calls of libc on files and memory that the shim puts itself before. glibc's
-- functions are parameters, and `is_macos` says whether the caller lies in macOS text. The initialisation
-- of the parameters and the traces are left out.
pub mod Files
pub mod Stack
use mac_ify.Abi.Linux.{o_nonblock, o_append, o_sync, o_nofollow, o_creat, o_trunc, o_excl}
use mac_ify.Abi.Linux.{o_noctty}
use mac_ify.Abi.Linux.{o_cloexec, map_anonymous, enoent}
use mac_ify.Prefix.{Environment, path_max, macify_translate_path, macify_should_hide_path}
use mac_ify.Prelude.{ℕ, ◌+◌, ◌-◌, ◌%◌, ◌^◌, List, [], ◌∷◌, Option, none, some, Bool, true, false}
use mac_ify.Prelude.{not}
use mac_ify.Prelude.{◌&&◌, ◌||◌, ℤ, pos, negsuc, bit_and, bit_or, has, translate_bits, ltb, leb}
use mac_ify.Prelude.{◌==◌}
use mac_ify.Prelude.{if◌then◌else◌}

-- The rows of `if (macos_flags & m) linux_flags |= l;`, in order.
abbrev pub shim_open_rows : List (ℕ × ℕ)
shim_open_rows =
    (0x0200, o_creat)
    ∷ (0x0800, o_excl)
    ∷ (0x0400, o_trunc)
    ∷ (0x0008, o_append)
    ∷ (0x0004, o_nonblock)
    ∷ (0x20000, o_noctty)
    ∷ (0x0080, o_sync)
    ∷ (0x1000000, o_cloexec)
    ∷ (0x100000, 0x10000)
    ∷ (0x0100, o_nofollow)
    ∷ []

unfoldable pub shim_open_flags : ℕ → ℕ
shim_open_flags macos_flags = translate_bits shim_open_rows macos_flags (bit_and macos_flags 0x3)

unfoldable pub shim_fcntl_cmd : ℕ → ℕ
shim_fcntl_cmd cmd =
    if cmd == 7
    then 5
    else if cmd == 8
    then 6
    else if cmd == 9
    then 7
    else if cmd == 67
    then 1030
    else cmd

-- The descriptor, or -1, and errno after the call.
pub record Opened : Type 0 where
  pub fd : ℤ
  pub errno : ℕ

-- `if (fd >= 0) errno = 0;`
unfoldable pub clear_errno : Opened → Opened
clear_errno o = elim o.fd [ pos n ↦ record o { errno = 0 } | negsuc n ↦ o ]

abbrev pub effective_path : List ℕ → Option (List ℕ) → List ℕ
effective_path pathname none = pathname
effective_path pathname (some translated) = translated

-- The mode is read only with O_CREAT.
unfoldable pub mode_of : ℕ → ℕ → ℕ
mode_of linux_flags mode = if has linux_flags o_creat then mode else 0

unfoldable pub linux_open_flags : Bool → ℕ → ℕ
linux_open_flags is_macos flags = if is_macos then shim_open_flags flags else flags

-- `open`, and `open64` with glibc's own. The static prefix is `cached`.
unfoldable pub open_file :
    (List ℕ → ℕ → ℕ → Opened) → Environment → Option (List ℕ) → Bool → List ℕ → ℕ → ℕ → Opened
open_file real_open env cached is_macos pathname flags mode =
    let linux_flags = linux_open_flags is_macos flags in
    let path = effective_path pathname (macify_translate_path env cached pathname path_max) in
    if is_macos && macify_should_hide_path env pathname
    then record { fd = negsuc 0; errno = enoent }
    else clear_errno
        (real_open (if is_macos then path else pathname) linux_flags (mode_of linux_flags mode))

-- `openat`: AT_FDCWD is -2 on macOS and -100 on Linux.
unfoldable pub linux_dirfd : Bool → ℤ → ℤ
linux_dirfd is_macos (pos n) = pos n
linux_dirfd is_macos (negsuc n) = if is_macos && n == 1 then negsuc 99 else negsuc n

unfoldable pub openat_file :
    (ℤ → List ℕ → ℕ → ℕ → Opened)
    → Environment
    → Option (List ℕ)
    → Bool
    → ℤ
    → List ℕ
    → ℕ
    → ℕ
    → Opened
openat_file real_openat env cached is_macos dirfd pathname flags mode =
    open_file (real_openat (linux_dirfd is_macos dirfd)) env cached is_macos pathname flags mode

-- MADV_FREE is 5 on macOS and 8 on Linux.
unfoldable pub linux_advice : ℕ → ℕ
linux_advice advice = if advice == 5 then 8 else advice

-- `macify_main_stack_base`, 0 for NULL, and `macify_main_stack_size`.
pub record MainStack : Type 0 where
  pub base : ℕ
  pub size : ℕ

-- What the shim asks of the system, in order.
pub data MemoryCall : Type 0 where
  map_call : (addr length prot flags : ℕ) → ℤ → (offset : ℕ) → MemoryCall
  protect_call : (addr length prot : ℕ) → MemoryCall
  unmap_call : (addr length : ℕ) → MemoryCall

abbrev pub wrap_u64 : ℕ → ℕ
wrap_u64 n = n % 2 ^ 64

-- Whether `[lo, hi)` lies in the stack.
unfoldable pub inside_stack : MainStack → ℕ → ℕ → Bool
inside_stack st lo hi = leb st.base lo && leb hi (wrap_u64 (st.base + st.size))

-- `munmap`: the calls, and whether the result is 0 without one.
unfoldable pub unmap_memory : MainStack → ℕ → ℕ → List MemoryCall
unmap_memory st addr len =
    if not (st.base == 0)
      && ltb addr (wrap_u64 (st.base + st.size))
      && ltb st.base (wrap_u64 (addr + len))
    then []
    else unmap_call addr len ∷ []

-- `mprotect`. The address is rounded down to a page of `page_size` bytes.
unfoldable pub protect_memory : MainStack → ℕ → Bool → ℕ → ℕ → ℕ → List MemoryCall
protect_memory st page_size is_macos addr len prot =
    let adjustment = addr % page_size in
    let addr' = addr - adjustment in
    let len' = wrap_u64 (len + adjustment) in
    if not is_macos
    then protect_call addr len prot ∷ []
    else if prot == 0 && not (st.base == 0) && inside_stack st addr' (wrap_u64 (addr' + len'))
    then []
    else protect_call addr' len' prot ∷ []

-- The arguments of `mmap` after the translation: MAP_ANON is 0x1000 on macOS, and with MAP_FIXED, 0x10,
-- an address is rounded down to a page.
unfoldable pub anon_flags : ℕ → ℕ
anon_flags flags =
    if has flags 0x1000 then bit_or (bit_and flags (2 ^ 32 - 1 - 0x1000)) map_anonymous else flags

unfoldable pub linux_map_call : ℕ → ℕ → ℕ → ℕ → ℕ → ℤ → ℕ → MemoryCall
linux_map_call page_size addr len prot flags fd offset =
    let flags' = anon_flags flags in
    let fd' = if has flags 0x1000 then negsuc 0 else fd in
    let adjustment = addr % page_size in
    if has flags' 0x10 && not (addr == 0) && not (adjustment == 0)
    then map_call (addr - adjustment) (wrap_u64 (len + adjustment)) prot flags' fd'
        (if offset == 0 then 0 else wrap_u64 (offset + 2 ^ 64 - adjustment))
    else map_call addr len prot flags' fd' offset

abbrev pub length_of : MemoryCall → ℕ
length_of (map_call addr len prot flags fd offset) = len
length_of (protect_call addr len prot) = len
length_of (unmap_call addr len) = len

abbrev pub map_failed : ℕ
map_failed = 2 ^ 64 - 1

-- `mmap`, with glibc's own: the result and the calls. A fixed mapping always has the address that was
-- asked for as its result.
unfoldable pub map_memory :
    (MemoryCall → ℕ) → MainStack → ℕ → Bool → ℕ → ℕ → ℕ → ℕ → ℤ → ℕ → ℕ × List MemoryCall
map_memory real_mmap st page_size is_macos addr len prot flags fd offset =
    let plain = map_call addr len prot flags fd offset in
    let call = linux_map_call page_size addr len prot flags fd offset in
    let result = real_mmap call in
    let end_of = wrap_u64 (result + length_of call) in
    if not is_macos
    then (real_mmap plain, plain ∷ [])
    else if has flags 0x10 && not (result == addr) && not (result == map_failed && addr == 0)
    then (addr, call ∷ [])
    else if prot == 0
        && not (st.base == 0)
        && not (result == map_failed)
        && inside_stack st result end_of
    then (result, call ∷ protect_call result (length_of call) 3 ∷ [])
    else (result, call ∷ [])
