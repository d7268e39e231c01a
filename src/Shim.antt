-- ===== src/Shim.antt =====
-- src/shim/libc_shim.c: what the linker wants of a C library.
pub mod Division
pub mod Digits
pub mod Print
pub mod Snprintf
pub mod Memory
mod Tests
