-- ===== src/Syscall/Table.antt =====
-- The tables of src/syscall/syscall_table.c: the Linux number of each BSD system call, and which
-- of its arguments need translation; with the constants of src/syscall/syscall_internal.h.
use mac_ify.Abi.Sys.{sys_accept, sys_access, sys_chdir, sys_chmod, sys_chown, sys_chroot}
use mac_ify.Abi.Sys.{sys_close, sys_connect, sys_dup, sys_dup2, sys_execve, sys_faccessat}
use mac_ify.Abi.Sys.{sys_fchdir, sys_fchmod, sys_fchmodat, sys_fchown, sys_fchownat}
use mac_ify.Abi.Sys.{sys_fcntl, sys_fdatasync, sys_flock, sys_fork, sys_fsync}
use mac_ify.Abi.Sys.{sys_ftruncate, sys_getegid, sys_geteuid, sys_getgid, sys_getgroups}
use mac_ify.Abi.Sys.{sys_getitimer, sys_getpeername, sys_getpgid, sys_getpgrp, sys_getpid}
use mac_ify.Abi.Sys.{sys_getppid, sys_getpriority, sys_getrandom, sys_getrusage}
use mac_ify.Abi.Sys.{sys_getsockname, sys_getsockopt, sys_gettimeofday, sys_getuid}
use mac_ify.Abi.Sys.{sys_ioctl, sys_kill, sys_link, sys_lseek, sys_madvise, sys_mincore}
use mac_ify.Abi.Sys.{sys_mkdir, sys_mknod, sys_mlock, sys_mmap, sys_mprotect, sys_msync}
use mac_ify.Abi.Sys.{sys_munlock, sys_munmap, sys_open, sys_openat, sys_pipe, sys_poll}
use mac_ify.Abi.Sys.{sys_pread64, sys_pwrite64, sys_read, sys_readlink, sys_readlinkat}
use mac_ify.Abi.Sys.{sys_readv, sys_recvfrom, sys_recvmsg, sys_rename, sys_renameat}
use mac_ify.Abi.Sys.{sys_rmdir, sys_rt_sigaction, sys_rt_sigprocmask, sys_select}
use mac_ify.Abi.Sys.{sys_sendmsg, sys_sendto, sys_setgroups, sys_setitimer, sys_setpgid}
use mac_ify.Abi.Sys.{sys_setpriority, sys_setregid, sys_setreuid, sys_setsid}
use mac_ify.Abi.Sys.{sys_settimeofday, sys_setuid, sys_shutdown, sys_sigaltstack}
use mac_ify.Abi.Sys.{sys_socket, sys_socketpair, sys_symlink, sys_sync, sys_truncate}
use mac_ify.Abi.Sys.{sys_umask, sys_unlink, sys_unlinkat, sys_utimes, sys_wait4, sys_write}
use mac_ify.Abi.Sys.{sys_writev}
use mac_ify.Prelude.{ℕ, List, [], ◌∷◌, entry, bit_or, ◌<◌, ◌^◌, ◌-◌, entry-below, rows_below, refl}

abbrev pub bsd_syscall_max : ℕ
bsd_syscall_max = 600

-- The ARG_* bits.
abbrev pub arg_open_flags : ℕ
arg_open_flags = 0x0001

abbrev pub arg_mmap_flags : ℕ
arg_mmap_flags = 0x0002

abbrev pub arg_fcntl_cmd : ℕ
arg_fcntl_cmd = 0x0004

abbrev pub arg_kill_signal : ℕ
arg_kill_signal = 0x0008

abbrev pub arg_madvise : ℕ
arg_madvise = 0x0010

abbrev pub arg_sigaction : ℕ
arg_sigaction = 0x0020

abbrev pub arg_sigprocmask : ℕ
arg_sigprocmask = 0x0040

abbrev pub arg_force_slow : ℕ
arg_force_slow = 0x0080

abbrev pub arg_sigaltstack : ℕ
arg_sigaltstack = 0x0100

-- The designated elements of `bsd_to_linux[]`.
abbrev pub linux_rows : List (ℕ × ℕ)
linux_rows =
    (1, 231)
    ∷ (2, sys_fork)
    ∷ (3, sys_read)
    ∷ (4, sys_write)
    ∷ (5, sys_open)
    ∷ (6, sys_close)
    ∷ (7, sys_wait4)
    ∷ (9, sys_link)
    ∷ (10, sys_unlink)
    ∷ (12, sys_chdir)
    ∷ (13, sys_fchdir)
    ∷ (14, sys_mknod)
    ∷ (15, sys_chmod)
    ∷ (16, sys_chown)
    ∷ (20, sys_getpid)
    ∷ (23, sys_setuid)
    ∷ (24, sys_getuid)
    ∷ (25, sys_geteuid)
    ∷ (27, sys_recvmsg)
    ∷ (28, sys_sendmsg)
    ∷ (29, sys_recvfrom)
    ∷ (30, sys_accept)
    ∷ (31, sys_getpeername)
    ∷ (32, sys_getsockname)
    ∷ (33, sys_access)
    ∷ (36, sys_sync)
    ∷ (37, sys_kill)
    ∷ (39, sys_getppid)
    ∷ (41, sys_dup)
    ∷ (42, sys_pipe)
    ∷ (43, sys_getegid)
    ∷ (46, sys_rt_sigaction)
    ∷ (47, sys_getgid)
    ∷ (48, sys_rt_sigprocmask)
    ∷ (53, sys_sigaltstack)
    ∷ (54, sys_ioctl)
    ∷ (57, sys_symlink)
    ∷ (58, sys_readlink)
    ∷ (59, sys_execve)
    ∷ (60, sys_umask)
    ∷ (61, sys_chroot)
    ∷ (65, sys_msync)
    ∷ (73, sys_munmap)
    ∷ (74, sys_mprotect)
    ∷ (75, sys_madvise)
    ∷ (78, sys_mincore)
    ∷ (79, sys_getgroups)
    ∷ (80, sys_setgroups)
    ∷ (81, sys_getpgrp)
    ∷ (82, sys_setpgid)
    ∷ (83, sys_setitimer)
    ∷ (86, sys_getitimer)
    ∷ (90, sys_dup2)
    ∷ (92, sys_fcntl)
    ∷ (93, sys_select)
    ∷ (95, sys_fsync)
    ∷ (96, sys_setpriority)
    ∷ (97, sys_socket)
    ∷ (98, sys_connect)
    ∷ (100, sys_getpriority)
    ∷ (116, sys_gettimeofday)
    ∷ (117, sys_getrusage)
    ∷ (118, sys_getsockopt)
    ∷ (120, sys_readv)
    ∷ (121, sys_writev)
    ∷ (122, sys_settimeofday)
    ∷ (123, sys_fchown)
    ∷ (124, sys_fchmod)
    ∷ (126, sys_setreuid)
    ∷ (127, sys_setregid)
    ∷ (128, sys_rename)
    ∷ (131, sys_flock)
    ∷ (133, sys_sendto)
    ∷ (134, sys_shutdown)
    ∷ (135, sys_socketpair)
    ∷ (136, sys_mkdir)
    ∷ (137, sys_rmdir)
    ∷ (138, sys_utimes)
    ∷ (147, sys_setsid)
    ∷ (151, sys_getpgid)
    ∷ (153, sys_pread64)
    ∷ (154, sys_pwrite64)
    ∷ (187, sys_fdatasync)
    ∷ (197, sys_mmap)
    ∷ (199, sys_lseek)
    ∷ (200, sys_truncate)
    ∷ (201, sys_ftruncate)
    ∷ (203, sys_mlock)
    ∷ (204, sys_munlock)
    ∷ (230, sys_poll)
    ∷ (396, sys_read)
    ∷ (397, sys_write)
    ∷ (398, sys_open)
    ∷ (399, sys_close)
    ∷ (400, sys_wait4)
    ∷ (401, sys_recvmsg)
    ∷ (402, sys_sendmsg)
    ∷ (403, sys_recvfrom)
    ∷ (404, sys_accept)
    ∷ (405, sys_msync)
    ∷ (406, sys_fcntl)
    ∷ (407, sys_select)
    ∷ (408, sys_fsync)
    ∷ (409, sys_connect)
    ∷ (411, sys_readv)
    ∷ (412, sys_writev)
    ∷ (413, sys_sendto)
    ∷ (414, sys_pread64)
    ∷ (415, sys_pwrite64)
    ∷ (417, sys_poll)
    ∷ (463, sys_openat)
    ∷ (464, sys_openat)
    ∷ (465, sys_renameat)
    ∷ (466, sys_faccessat)
    ∷ (467, sys_fchmodat)
    ∷ (468, sys_fchownat)
    ∷ (472, sys_unlinkat)
    ∷ (473, sys_readlinkat)
    ∷ (500, sys_getrandom)
    ∷ []

-- `bsd_to_linux[]`. The element 0 means that the call is not implemented.
unfoldable pub bsd_to_linux : ℕ → ℕ
unfolding entry
bsd_to_linux = entry linux_rows

-- `bsd_arg_flags[]`.
unfoldable pub bsd_arg_flags : ℕ → ℕ
unfolding entry
bsd_arg_flags = entry (
    (1, arg_force_slow)
    ∷ (5, arg_open_flags)
    ∷ (37, arg_kill_signal)
    ∷ (46, bit_or arg_sigaction arg_force_slow)
    ∷ (48, bit_or arg_sigprocmask arg_force_slow)
    ∷ (53, bit_or arg_sigaltstack arg_force_slow)
    ∷ (75, arg_madvise)
    ∷ (92, arg_fcntl_cmd)
    ∷ (197, arg_mmap_flags)
    ∷ (398, arg_open_flags)
    ∷ (406, arg_fcntl_cmd)
    ∷ (463, arg_open_flags)
    ∷ (464, arg_open_flags)
    ∷ [])

-- Every Linux number of the table fits an `int16_t`.
pub bsd_to_linux-bound : (nr : ℕ) → bsd_to_linux nr < 2 ^ 15
unfolding bsd_to_linux rows_below
bsd_to_linux-bound nr = entry-below (2 ^ 15 - 1) linux_rows nr refl
