-- ===== src/Shim/Pthread.antt =====
-- shim/pthread/sync.c, and the times and numbers of shim/pthread/core.c and mutexattr.c: locks of a macOS
-- program, which glibc works on in place. glibc's functions and initialisers are parameters; the look-up of
-- the functions and the traces are left out. `is_macos` says whether the caller lies in macOS text, and an
-- `int` is its pattern of 32 bits.
pub mod Convert
pub mod Times
pub mod Spin
use mac_ify.Prelude.{ℕ, ◌+◌, ◌-◌, ◌*◌, ◌^◌, List, [], ◌∷◌, Option, none, some, Bool, true, false}
use mac_ify.Prelude.{not, ◌&&◌, ◌||◌, Memory, load, ltb, leb, ◌==◌, if◌then◌else◌}
use mac_ify.Shim.Errno.{macify_linux_to_macos_errno}

-- The signatures of macOS.
abbrev pub mutex_sig : ℕ
mutex_sig = 0x32AAABA7

abbrev pub recursive_sig : ℕ
recursive_sig = 0x32AAABA2

abbrev pub errorcheck_sig : ℕ
errorcheck_sig = 0x32AAABA1

abbrev pub firstfit_sig : ℕ
firstfit_sig = 0x32AAABA3

abbrev pub cond_sig : ℕ
cond_sig = 0x3CB0B1BB

abbrev pub rwlock_sig : ℕ
rwlock_sig = 0x2DA8B3B4

pub data MutexKind : Type 0 where
  normal recursive errorcheck adaptive : MutexKind

-- The bytes of glibc's initialisers, and the sizes of its types.
pub record Initializers : Type 0 where
  pub mutex_init : MutexKind → ℕ → ℕ
  pub cond_init : ℕ → ℕ
  pub rwlock_init : ℕ → ℕ
  pub mutex_size : ℕ
  pub cond_size : ℕ
  pub rwlock_size : ℕ

-- `memcpy(p, bytes, n)`
unfoldable pub copy_bytes : ℕ → (ℕ → ℕ) → Memory → ℕ → Memory
copy_bytes n bytes mem p x = if leb p x && ltb x (p + n) then bytes (x - p) else mem x

unfoldable pub kind_of : ℕ → Option MutexKind
kind_of sig =
    if sig == mutex_sig
    then some normal
    else if sig == recursive_sig
    then some recursive
    else if sig == errorcheck_sig
    then some errorcheck
    else if sig == firstfit_sig
    then some adaptive
    else none

unfoldable pub convert_macos_mutex : Initializers → Memory → ℕ → Memory
convert_macos_mutex init mem m = elim (kind_of (load 4 mem m)) [
  | some kind ↦ copy_bytes init.mutex_size (init.mutex_init kind) mem m
  | none ↦ mem
]

unfoldable pub convert_macos_cond : Initializers → Memory → ℕ → Memory
convert_macos_cond init mem c =
    if load 4 mem c == cond_sig then copy_bytes init.cond_size init.cond_init mem c else mem

unfoldable pub convert_macos_rwlock : Initializers → Memory → ℕ → Memory
convert_macos_rwlock init mem rw =
    if load 4 mem rw == rwlock_sig then copy_bytes init.rwlock_size init.rwlock_init mem rw else mem

-- `sync_errno_out`
unfoldable pub sync_errno_out : Bool → ℕ → ℕ
sync_errno_out is_macos r =
    if not (r == 0) && not (r == 2 ^ 32 - 1) && is_macos then macify_linux_to_macos_errno r else r

-- glibc's functions on an object at an address: the result and the memory.
abbrev pub RealOp : Type 0
RealOp = Memory → ℕ → ℕ × Memory

-- `pthread_mutex_lock`, `_trylock` and `_unlock`.
unfoldable pub mutex_op : Initializers → RealOp → Bool → Memory → ℕ → ℕ × Memory
mutex_op init real is_macos mem m =
    let (r, mem') = real (convert_macos_mutex init mem m) m in (sync_errno_out is_macos r, mem')

-- `pthread_cond_signal` and `_broadcast`.
unfoldable pub cond_op : Initializers → RealOp → Bool → Memory → ℕ → ℕ × Memory
cond_op init real is_macos mem c =
    let (r, mem') = real (convert_macos_cond init mem c) c in (sync_errno_out is_macos r, mem')

-- `pthread_cond_wait`, and `_timedwait` with the time in `real`.
unfoldable pub cond_wait :
    Initializers → (Memory → ℕ → ℕ → ℕ × Memory) → Bool → Memory → ℕ → ℕ → ℕ × Memory
cond_wait init real is_macos mem c m =
    let (r, mem') = real (convert_macos_mutex init (convert_macos_cond init mem c) m) c m in
    (sync_errno_out is_macos r, mem')

-- `pthread_rwlock_rdlock`, `_wrlock` and `_unlock`.
unfoldable pub rwlock_op : Initializers → RealOp → Bool → Memory → ℕ → ℕ × Memory
rwlock_op init real is_macos mem rw =
    let (r, mem') = real (convert_macos_rwlock init mem rw) rw in (sync_errno_out is_macos r, mem')

-- `pthread_mutex_destroy`, `pthread_cond_destroy` and `pthread_rwlock_destroy`, with their signatures.
unfoldable pub destroy : ℕ → RealOp → Memory → ℕ → ℕ × Memory
destroy macos_sig real mem p = if load 4 mem p == macos_sig then (0, mem) else real mem p

-- `pthread_mutexattr_settype`
unfoldable pub linux_type : ℕ → ℕ
linux_type type = if type == 1 then 2 else if type == 2 then 1 else if type == 3 then 0 else type

-- `clock_gettime`: CLOCK_MONOTONIC is 1, CLOCK_PROCESS_CPUTIME_ID 2, CLOCK_THREAD_CPUTIME_ID 3 and
-- CLOCK_MONOTONIC_RAW 4.
unfoldable pub linux_clk_id : ℕ → ℕ
linux_clk_id clk_id =
    if clk_id == 6
    then 1
    else if clk_id == 12
    then 2
    else if clk_id == 16
    then 3
    else if clk_id == 8
    then 4
    else clk_id

pub record Timespec : Type 0 where
  pub tv_sec : ℕ
  pub tv_nsec : ℕ

-- The time until which `pthread_cond_timedwait_relative_np` waits; no time is negative here.
unfoldable pub abstime : Timespec → Timespec → Timespec
abstime now reltime =
    let sec = now.tv_sec + reltime.tv_sec in
    let nsec = now.tv_nsec + reltime.tv_nsec in
    if leb 1000000000 nsec
    then record { tv_sec = sec + 1; tv_nsec = nsec - 1000000000 }
    else record { tv_sec = sec; tv_nsec = nsec }

-- `pthread_cond_timedwait_relative_np`: it calls the wrapper of `pthread_cond_timedwait`, whose caller is the
-- shim then. `real` has the absolute time, if there is one.
unfoldable pub timedwait_relative :
    Initializers
    → (Option Timespec → Memory → ℕ → ℕ → ℕ × Memory)
    → Bool
    → Timespec
    → Memory
    → ℕ
    → ℕ
    → Option Timespec
    → ℕ × Memory
timedwait_relative init real is_macos now mem c m none = cond_wait init (real none) false mem c m
timedwait_relative init real is_macos now mem c m (some reltime) =
    let (r, mem') = cond_wait init (real (some (abstime now reltime))) false mem c m in
    (sync_errno_out is_macos r, mem')
