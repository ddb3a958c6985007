-- ===== src/Lsm.antt =====
-- src/lex/lsm: the in-memory table, the registry of table states, and compaction.
pub mod MemTable
pub mod Registry
pub mod Scan
pub mod Promotion
