-- ===== src/Shim/Io/Files.antt =====
-- The flags that shim/io/flags.c hands to glibc's `open`.
