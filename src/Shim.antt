-- ===== src/Shim.antt =====
-- The shim in front of libc: shim/signal, shim/io/flags.c, shim/shim_core.c and shim/pthread.
pub mod Sigmask
pub mod Io
pub mod Sigset
pub mod AltStack
pub mod Sigaction
pub mod GoSignal
pub mod Errno
pub mod Pthread
pub mod Strings
