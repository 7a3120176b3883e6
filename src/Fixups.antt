-- ===== src/Fixups.antt =====
-- src/fixups.c: rebasing and binding the pointers of a loaded image.
pub mod Image
pub mod Leb
pub mod Stubs
pub mod Bind
pub mod Rebase
pub mod Chained
