-- ===== src/Ingest.antt =====
-- src/lex/ingest: the bit-plane transposition and the ingestion of record batches.
pub mod Transposer
pub mod Kim
pub mod Tail
pub mod Ingester
