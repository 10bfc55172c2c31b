-- ===== src/Daemon.antt =====
-- btpd/: the daemon.
pub mod NetBuf
pub mod Net
pub mod Peer
pub mod Upload
