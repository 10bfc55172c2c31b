-- ===== src/Misc.antt =====
-- misc/: what the daemon and the tools share.
pub mod Subr
pub mod Iobuf
pub mod Benc
pub mod Htbl
pub mod Metainfo
