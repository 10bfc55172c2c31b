-- ===== src/Misc/Subr.antt =====
-- misc/subr.c: byte order, bit fields, hexadecimal text and the search in memory. The rest of the
-- file wraps system calls.
pub mod Endian
pub mod BitField
pub mod Hex
pub mod Memfind
mod Tests
