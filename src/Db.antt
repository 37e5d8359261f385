-- ===== src/Db.antt =====
pub mod JsonAdapter
pub mod Agent
pub mod Sync
