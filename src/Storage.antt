-- ===== src/Storage.antt =====
-- include/lex/storage: tiles, blocks and row groups, as the other parts share them.
pub mod Codec
pub mod Exporter
mod Tests
use green_gate.Base.{ℕ, List}
use green_gate.Base.Bytes.{Bytes}

-- `planes` has 64 entries and `padding` 7.
pub record CbstTile : Type 0 where
  pub planes : List ℕ
  pub validity : ℕ
  pub padding : List ℕ

-- One tile for each column. A set bit of `delete_mask` is an active row.
pub record BlockData : Type 0 where
  pub columns : List CbstTile
  pub tail_payload : Bytes
  pub delete_mask : ℕ

pub record RowGroup : Type 0 where
  pub num_rows : ℕ
  pub num_columns : ℕ
  pub column_names : List Bytes
  pub column_types : List ℕ
  pub blocks : List BlockData
