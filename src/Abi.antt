-- ===== src/Abi.antt =====
-- The constants of the two systems' interfaces, from their headers.
pub mod Sys
pub mod Open
pub mod Linux
