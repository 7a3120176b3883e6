-- ===== src/Lib.antt =====
-- Verification of mac-ify, which runs macOS x86-64 programs on Linux: a loader that maps a Mach-O
-- image, applies its fixups and patches its system calls, and a handler for the patched calls.
--
-- The parts that are modelled, and how they interact:
--   * src/fixups.c (Fixups): after the segments are mapped, the loader runs the rebase, bind and
--     lazy bind opcodes of LC_DYLD_INFO (Fixups/Leb, Fixups/Rebase, Fixups/Bind) or the chains of
--     LC_DYLD_CHAINED_FIXUPS (Fixups/Chained), which write pointers into the segments. Symbols that
--     are not found are bound to a stub and noted (Fixups/Stubs). Fixups/Image is what the
--     interpreters know of the image; `resolve_symbol` is a field of it.
--   * `resolve_symbol` of src/segments.c (Symbols): the address for an import, searched in the
--     Mach-O libraries, the shim and the Linux libraries, with and without a suffix of the name.
--   * src/syscall/patcher.c (Syscall/Patcher): each `syscall` of the text whose number is known and
--     needs no translation keeps its instruction and gets the Linux number as immediate; every
--     other one becomes UD2 (Syscall/Patcher/Scan). Two places of the Go runtime are patched too
--     (Syscall/Patcher/Go).
--   * src/syscall/sigill_handler.c (Syscall/Sigill): a UD2 raises SIGILL, and the handler takes the
--     number and arguments from the registers, translates flags (Syscall/Flags, from
--     src/syscall/flag_translation.c), numbers (Syscall/Table, from src/syscall/syscall_table.c)
--     and signal sets (Syscall/Sigset), makes the Linux call and puts the result back.
--   * src/macho_dylib.c (Dylib): the shared libraries that a program brings with it.
--     `macho_load_dylib` (Dylib/Load) maps the segments of a file (Dylib/Segments), loads its
--     dependencies first (Dylib/Depends), collects its exported symbols (Dylib/Exports) and applies
--     its fixups with interpreters of its own (Dylib/Collect, Dylib/Rebases, Dylib/Chains,
--     Dylib/Binds, Dylib/Indirect), which share Dylib/Run and Dylib/Image. Dylib/Commands is the
--     layout of a file.
--   * src/prefix.c (Prefix): the files of the program lie below a prefix, as the root of its own
--     file system; paths are translated on every call that takes one, and some directories are
--     hidden.
--   * shim/signal/sigmask.c (Shim/Sigmask): a program that calls libc's `sigprocmask` instead has
--     its signal sets translated by the shim, with a table of its own. shim/signal/sigset.c
--     (Shim/Sigset) has the operations on such sets, Shim/AltStack the `sigaltstack` of sigmask.c.
--     Shim/Sigaction has libc's `sigaction` and `signal` (shim/signal/sigaction.c), Shim/GoSignal
--     the handler that a Go binary gets (shim/signal/go_signal.c).
--   * shim/shim_core.c (Shim/Errno) numbers the errors that go back to a program;
--     shim/pthread/sync.c, core.c and mutexattr.c (Shim/Pthread) convert macOS's locks to glibc's
--     in place, translate the errors of the calls on them and have the spin locks
--     (Shim/Pthread/Spin).
--   * shim/io/flags.c (Shim/Io): libc's `open`, with its flags, paths and hidden directories, and
--     the calls that map memory, which keep the main stack.
--   * shim/misc/string.c (Shim/Strings): the BSD functions on texts that glibc may lack.
--   * src/main.c (Loader): the command line (Loader/Options), the entry and the interpreters of
--     scripts (Loader/Entry; Loader/Entry/Shebang is the first line of a script), the slice of a universal file (Loader/Fat), and the walk over the
--     load commands, which with `map_segment` of src/segments.c maps the segments
--     (Loader/Segments). Loader/Stdio rewrites the macros of stdio that are compiled into a
--     program, so that they call the shim; Loader/Stdio/Jumps says where the instructions that are
--     written lead, Loader/Stdio/Encoding how those that are read are encoded.
--
-- Machine integers are natural numbers below their bound: a register and a `uint64_t` are patterns
-- of 64 bits with `% 2 ^ 64` where C wraps, an `int` whose sign matters is an integer
-- (Prelude/Int). Memory is a function from addresses to bytes with little-endian loads and stores
-- (Prelude/Mem). A library's file is a memory of its own, since mappings do not overlap. Texts are
-- lists of bytes without the final 0 (Prelude/Text). Abi holds the constants of the Linux headers
-- and of the macOS ABI that the source names.
--
-- Loops over opcodes run on fuel, one more than the number of opcode bytes: a round takes a byte at
-- least. `strlen` has fuel that bounds the length of a text, and `macho_load_dylib` for the depth
-- of the dependencies, of which a cycle has no end. The loop over a chain runs for the 16384 rounds
-- that the source has, that over interpreters for 5. All other loops are structural in the rounds
-- that their bounds leave. A shift by 64 or more in a LEB128 number, which C leaves undefined, and
-- a symbol name without end are results of their own.
--
-- Parameters: the kernel (its result and the memory it leaves), `dlsym`, `resolve_symbol` for the
-- interpreters, `strdup`, `mprotect`, `mmap`, `access` and the reading of files, glibc's functions
-- that the shim calls and its initialisers of locks, the environment, the addresses of static
-- buffers and of the two symbols that the shim exports.
--
-- Not modelled: messages, tracing and statistics; of src/main.c the loading of libraries by load
-- commands, the set-up of the streams and the start of the program; the set-up of the prefix's
-- directories; the opening of the Linux libraries with `dlopen`; the start of threads, the crash
-- handlers, the watchdog and the jail; the rest of the shim, which wraps libc.
pub mod Prelude
pub mod Abi
pub mod Dylib
pub mod Prefix
pub mod Syscall
pub mod Fixups
pub mod Shim
pub mod Tests
pub mod Symbols
pub mod Loader
