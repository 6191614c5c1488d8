-- ===== src/History.antt =====
-- src/clipboard/history.rs: what a copy is stored as, and the bounded history of copies.
pub mod Content
pub mod State
