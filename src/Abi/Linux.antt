-- ===== src/Abi/Linux.antt =====
-- The x86_64 Linux values of the constants of <fcntl.h>, <sys/mman.h>, <signal.h> and <errno.h> that
-- the program names.
use mac_ify.Prelude.{ℕ}

abbrev pub o_nonblock : ℕ
o_nonblock = 0x800

abbrev pub o_append : ℕ
o_append = 0x400

abbrev pub o_async : ℕ
o_async = 0x2000

abbrev pub o_sync : ℕ
o_sync = 0x101000

abbrev pub o_nofollow : ℕ
o_nofollow = 0x20000

abbrev pub o_creat : ℕ
o_creat = 0x40

abbrev pub o_trunc : ℕ
o_trunc = 0x200

abbrev pub o_excl : ℕ
o_excl = 0x80

abbrev pub o_noctty : ℕ
o_noctty = 0x100

abbrev pub o_cloexec : ℕ
o_cloexec = 0x80000

abbrev pub map_shared : ℕ
map_shared = 0x01

abbrev pub map_private : ℕ
map_private = 0x02

abbrev pub map_fixed : ℕ
map_fixed = 0x10

abbrev pub map_noreserve : ℕ
map_noreserve = 0x4000

abbrev pub map_anonymous : ℕ
map_anonymous = 0x20

abbrev pub f_dupfd : ℕ
f_dupfd = 0

abbrev pub f_getfd : ℕ
f_getfd = 1

abbrev pub f_setfd : ℕ
f_setfd = 2

abbrev pub f_getfl : ℕ
f_getfl = 3

abbrev pub f_setfl : ℕ
f_setfl = 4

abbrev pub f_getlk : ℕ
f_getlk = 5

abbrev pub f_setlk : ℕ
f_setlk = 6

abbrev pub f_setlkw : ℕ
f_setlkw = 7

abbrev pub f_setown : ℕ
f_setown = 8

abbrev pub f_getown : ℕ
f_getown = 9

abbrev pub f_dupfd_cloexec : ℕ
f_dupfd_cloexec = 1030

abbrev pub madv_normal : ℕ
madv_normal = 0

abbrev pub madv_random : ℕ
madv_random = 1

abbrev pub madv_sequential : ℕ
madv_sequential = 2

abbrev pub madv_willneed : ℕ
madv_willneed = 3

abbrev pub madv_dontneed : ℕ
madv_dontneed = 4

abbrev pub madv_free : ℕ
madv_free = 8

abbrev pub sig_block : ℕ
sig_block = 0

abbrev pub sig_unblock : ℕ
sig_unblock = 1

abbrev pub sig_setmask : ℕ
sig_setmask = 2

abbrev pub sa_siginfo : ℕ
sa_siginfo = 0x00000004

abbrev pub sa_onstack : ℕ
sa_onstack = 0x08000000

abbrev pub sa_nodefer : ℕ
sa_nodefer = 0x40000000

abbrev pub enoent : ℕ
enoent = 2

abbrev pub einval : ℕ
einval = 22

abbrev pub enosys : ℕ
enosys = 38
