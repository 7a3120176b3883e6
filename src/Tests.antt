-- ===== src/Tests.antt =====
-- Runs of the definitions at concrete inputs.
mod Data
mod Handler
mod Signals
mod Fixups
mod Patcher
mod Shim
mod Symbols
mod Libraries
mod Fixed
mod Paths
mod Signalled
mod Threads
mod Loading
mod Stdio
mod Strings
