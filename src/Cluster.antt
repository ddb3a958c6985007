-- ===== src/Cluster.antt =====
-- src/lex/distributed: row numbers, the transport, cluster nodes and the join coordinator.
pub mod RowId
pub mod Matching
pub mod Transport
pub mod Shuffle
pub mod Sides
pub mod Join
pub mod Schedule
use green_gate.Base.{ℕ}

-- `FatSignature` and `ShuffleEntry` of include/lex/distributed/srd_transport.hpp.
pub record FatSignature : Type 0 where
  pub kim : ℕ
  pub xor_sum : ℕ

pub record ShuffleEntry : Type 0 where
  pub sig : FatSignature
  pub row_id : ℕ
