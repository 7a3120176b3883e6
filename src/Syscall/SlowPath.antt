-- ===== src/Syscall/SlowPath.antt =====
-- What the SIGILL handler of src/syscall/sigill_handler.c does on each of its ways.
pub mod Resume
pub mod Result
pub mod Gaps
