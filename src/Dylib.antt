-- ===== src/Dylib.antt =====
-- src/macho_dylib.c: the loader of Mach-O shared libraries.
pub mod Commands
pub mod Segments
pub mod Image
pub mod Exports
pub mod Run
pub mod Rebases
pub mod Binds
pub mod Chains
pub mod Indirect
pub mod Depends
pub mod Collect
pub mod Load
