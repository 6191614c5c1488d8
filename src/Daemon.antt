-- ===== src/Daemon.antt =====
-- src/daemon: the wire protocol, the mirror of the history that clients read, and the server.
pub mod Types
pub mod Snapshot
pub mod Server
pub mod Broadcast
