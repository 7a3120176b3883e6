-- ===== src/Loader.antt =====
-- src/main.c and the segments of src/segments.c: what the loader does before the program runs.
pub mod Options
pub mod Entry
pub mod Fat
pub mod Segments
pub mod Stdio
