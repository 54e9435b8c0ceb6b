-- ===== src/Libc.antt =====
-- What the programs use of the C library, as it is documented.
pub mod Text
pub mod Disk
