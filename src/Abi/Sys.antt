-- ===== src/Abi/Sys.antt =====
-- The x86_64 Linux system call numbers of <sys/syscall.h> that the program names as SYS_*.
use mac_ify.Prelude.{ℕ}

abbrev pub sys_fork : ℕ
sys_fork = 57

abbrev pub sys_read : ℕ
sys_read = 0

abbrev pub sys_write : ℕ
sys_write = 1

abbrev pub sys_open : ℕ
sys_open = 2

abbrev pub sys_close : ℕ
sys_close = 3

abbrev pub sys_wait4 : ℕ
sys_wait4 = 61

abbrev pub sys_link : ℕ
sys_link = 86

abbrev pub sys_unlink : ℕ
sys_unlink = 87

abbrev pub sys_chdir : ℕ
sys_chdir = 80

abbrev pub sys_fchdir : ℕ
sys_fchdir = 81

abbrev pub sys_mknod : ℕ
sys_mknod = 133

abbrev pub sys_chmod : ℕ
sys_chmod = 90

abbrev pub sys_chown : ℕ
sys_chown = 92

abbrev pub sys_getpid : ℕ
sys_getpid = 39

abbrev pub sys_setuid : ℕ
sys_setuid = 105

abbrev pub sys_getuid : ℕ
sys_getuid = 102

abbrev pub sys_geteuid : ℕ
sys_geteuid = 107

abbrev pub sys_recvmsg : ℕ
sys_recvmsg = 47

abbrev pub sys_sendmsg : ℕ
sys_sendmsg = 46

abbrev pub sys_recvfrom : ℕ
sys_recvfrom = 45

abbrev pub sys_accept : ℕ
sys_accept = 43

abbrev pub sys_getpeername : ℕ
sys_getpeername = 52

abbrev pub sys_getsockname : ℕ
sys_getsockname = 51

abbrev pub sys_access : ℕ
sys_access = 21

abbrev pub sys_sync : ℕ
sys_sync = 162

abbrev pub sys_kill : ℕ
sys_kill = 62

abbrev pub sys_getppid : ℕ
sys_getppid = 110

abbrev pub sys_dup : ℕ
sys_dup = 32

abbrev pub sys_pipe : ℕ
sys_pipe = 22

abbrev pub sys_getegid : ℕ
sys_getegid = 108

abbrev pub sys_rt_sigaction : ℕ
sys_rt_sigaction = 13

abbrev pub sys_getgid : ℕ
sys_getgid = 104

abbrev pub sys_rt_sigprocmask : ℕ
sys_rt_sigprocmask = 14

abbrev pub sys_sigaltstack : ℕ
sys_sigaltstack = 131

abbrev pub sys_ioctl : ℕ
sys_ioctl = 16

abbrev pub sys_symlink : ℕ
sys_symlink = 88

abbrev pub sys_readlink : ℕ
sys_readlink = 89

abbrev pub sys_execve : ℕ
sys_execve = 59

abbrev pub sys_umask : ℕ
sys_umask = 95

abbrev pub sys_chroot : ℕ
sys_chroot = 161

abbrev pub sys_msync : ℕ
sys_msync = 26

abbrev pub sys_munmap : ℕ
sys_munmap = 11

abbrev pub sys_mprotect : ℕ
sys_mprotect = 10

abbrev pub sys_madvise : ℕ
sys_madvise = 28

abbrev pub sys_mincore : ℕ
sys_mincore = 27

abbrev pub sys_getgroups : ℕ
sys_getgroups = 115

abbrev pub sys_setgroups : ℕ
sys_setgroups = 116

abbrev pub sys_getpgrp : ℕ
sys_getpgrp = 111

abbrev pub sys_setpgid : ℕ
sys_setpgid = 109

abbrev pub sys_setitimer : ℕ
sys_setitimer = 38

abbrev pub sys_getitimer : ℕ
sys_getitimer = 36

abbrev pub sys_dup2 : ℕ
sys_dup2 = 33

abbrev pub sys_fcntl : ℕ
sys_fcntl = 72

abbrev pub sys_select : ℕ
sys_select = 23

abbrev pub sys_fsync : ℕ
sys_fsync = 74

abbrev pub sys_setpriority : ℕ
sys_setpriority = 141

abbrev pub sys_socket : ℕ
sys_socket = 41

abbrev pub sys_connect : ℕ
sys_connect = 42

abbrev pub sys_getpriority : ℕ
sys_getpriority = 140

abbrev pub sys_gettimeofday : ℕ
sys_gettimeofday = 96

abbrev pub sys_getrusage : ℕ
sys_getrusage = 98

abbrev pub sys_getsockopt : ℕ
sys_getsockopt = 55

abbrev pub sys_readv : ℕ
sys_readv = 19

abbrev pub sys_writev : ℕ
sys_writev = 20

abbrev pub sys_settimeofday : ℕ
sys_settimeofday = 164

abbrev pub sys_fchown : ℕ
sys_fchown = 93

abbrev pub sys_fchmod : ℕ
sys_fchmod = 91

abbrev pub sys_setreuid : ℕ
sys_setreuid = 113

abbrev pub sys_setregid : ℕ
sys_setregid = 114

abbrev pub sys_rename : ℕ
sys_rename = 82

abbrev pub sys_flock : ℕ
sys_flock = 73

abbrev pub sys_sendto : ℕ
sys_sendto = 44

abbrev pub sys_shutdown : ℕ
sys_shutdown = 48

abbrev pub sys_socketpair : ℕ
sys_socketpair = 53

abbrev pub sys_mkdir : ℕ
sys_mkdir = 83

abbrev pub sys_rmdir : ℕ
sys_rmdir = 84

abbrev pub sys_utimes : ℕ
sys_utimes = 235

abbrev pub sys_setsid : ℕ
sys_setsid = 112

abbrev pub sys_getpgid : ℕ
sys_getpgid = 121

abbrev pub sys_pread64 : ℕ
sys_pread64 = 17

abbrev pub sys_pwrite64 : ℕ
sys_pwrite64 = 18

abbrev pub sys_fdatasync : ℕ
sys_fdatasync = 75

abbrev pub sys_mmap : ℕ
sys_mmap = 9

abbrev pub sys_lseek : ℕ
sys_lseek = 8

abbrev pub sys_truncate : ℕ
sys_truncate = 76

abbrev pub sys_ftruncate : ℕ
sys_ftruncate = 77

abbrev pub sys_mlock : ℕ
sys_mlock = 149

abbrev pub sys_munlock : ℕ
sys_munlock = 150

abbrev pub sys_poll : ℕ
sys_poll = 7

abbrev pub sys_openat : ℕ
sys_openat = 257

abbrev pub sys_renameat : ℕ
sys_renameat = 264

abbrev pub sys_faccessat : ℕ
sys_faccessat = 269

abbrev pub sys_fchmodat : ℕ
sys_fchmodat = 268

abbrev pub sys_fchownat : ℕ
sys_fchownat = 260

abbrev pub sys_unlinkat : ℕ
sys_unlinkat = 263

abbrev pub sys_readlinkat : ℕ
sys_readlinkat = 267

abbrev pub sys_getrandom : ℕ
sys_getrandom = 318

abbrev pub sys_exit_group : ℕ
sys_exit_group = 231
