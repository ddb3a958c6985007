-- ===== src/Query.antt =====
-- include/lex/jit/query_planner.hpp: predicates, and the record batches that queries read.
pub mod Text
pub mod Tail
pub mod Runner
pub mod Planner
pub mod Machine
pub mod Compiler
use green_gate.Base.{ℕ, Bool, Option, List}
use green_gate.Base.Bytes.{Bytes}

pub data PredicateOp : Type 0 where
  eq like_prefix like_contains gt lt : PredicateOp

pub record Predicate : Type 0 where
  pub column_name : Bytes
  pub op : PredicateOp
  pub value : Bytes
  pub numeric_value : ℕ
  pub is_string : Bool

-- What the program reads of an Arrow array: `IsNull`, `GetView` of a string array, and `Value` of
-- an `Int64Array` as its 64-bit pattern.
pub record Column : Type 0 where
  pub is_null : ℕ → Bool
  pub view : ℕ → Bytes
  pub value_at : ℕ → ℕ

-- What the program reads of an `arrow::RecordBatch`: `num_rows`, `GetColumnByName` (`none` is a
-- null pointer), and for each column the sizes of its buffers.
pub record RecordBatch : Type 0 where
  pub num_rows : ℕ
  pub column_by_name : Bytes → Option Column
  pub buffer_sizes : List (List ℕ)
