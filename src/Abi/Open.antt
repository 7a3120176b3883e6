-- ===== src/Abi/Open.antt =====
-- The flags of open(2) on the two systems: xnu's bsd/sys/fcntl.h (docs/xnu/headers/sys_fcntl.h) and
-- x86_64 Linux. The two low bits, the access mode, are alike.
use mac_ify.Prelude.{ℕ}

pub data OpenFlag : Type 0 where
  nonblock append async sync nofollow creat trunc excl noctty cloexec directory : OpenFlag

unfoldable pub macos_bit : OpenFlag → ℕ
macos_bit nonblock = 0x4
macos_bit append = 0x8
macos_bit async = 0x40
macos_bit sync = 0x80
macos_bit nofollow = 0x100
macos_bit creat = 0x200
macos_bit trunc = 0x400
macos_bit excl = 0x800
macos_bit noctty = 0x20000
macos_bit directory = 0x100000
macos_bit cloexec = 0x1000000

-- `O_SYNC` has two bits on Linux.
unfoldable pub linux_bit : OpenFlag → ℕ
linux_bit nonblock = 0x800
linux_bit append = 0x400
linux_bit async = 0x2000
linux_bit sync = 0x101000
linux_bit nofollow = 0x20000
linux_bit creat = 0x40
linux_bit trunc = 0x200
linux_bit excl = 0x80
linux_bit noctty = 0x100
linux_bit directory = 0x10000
linux_bit cloexec = 0x80000
