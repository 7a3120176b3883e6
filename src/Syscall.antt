-- ===== src/Syscall.antt =====
-- src/syscall/: BSD system calls carried out by Linux.
pub mod Table
pub mod Flags
pub mod Machine
pub mod Sigset
pub mod Sigill
pub mod SlowPath
pub mod Patcher
