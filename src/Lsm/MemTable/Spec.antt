-- ===== src/Lsm/MemTable/Spec.antt =====
-- What a query over batches means, row by row.
use green_gate.Base.{
  ℕ, zero, suc, ◌+◌, Bool, true, false, ◌&&◌, none, some, List, [], ◌∷◌, if◌then◌else◌, length,
}
use green_gate.Base.Bytes.{Bytes}
use green_gate.Query.{Predicate, Column, RecordBatch}
use green_gate.Lsm.MemTable.{test_row}

-- A row satisfies every predicate: each column is there, not null at the row, and passes the test.
unfoldable pub row_matches : RecordBatch → List Predicate → ℕ → Bool
row_matches batch [] r = true
row_matches batch (pred ∷ preds) r = elim (batch.column_by_name pred.column_name) [
  | none ↦ false
  | some col ↦ test_row pred col r && row_matches batch preds r
]

-- `f r, f (r + 1), …`, `n` entries.
unfoldable pub tabulate {ℓ} : {A : Type ℓ} → ℕ → ℕ → (ℕ → A) → List A
tabulate zero r f = []
tabulate (suc n) r f = f r ∷ tabulate n (r + 1) f

-- The rows from `r` on that satisfy the predicates, out of `n`.
unfoldable pub rows_matched : RecordBatch → List Predicate → ℕ → ℕ → List ℕ
rows_matched batch preds zero r = []
rows_matched batch preds (suc n) r =
    if row_matches batch preds r
    then r ∷ rows_matched batch preds n (r + 1)
    else rows_matched batch preds n (r + 1)

-- The sum of a column over given rows, nulls left out.
unfoldable pub column_sum : Column → List ℕ → ℕ
column_sum col [] = 0
column_sum col (r ∷ rows) = (if col.is_null r then 0 else col.value_at r) + column_sum col rows

-- The sum that a query asks for in one batch.
unfoldable pub batch_sum : RecordBatch → Bytes → List ℕ → ℕ
unfolding column_sum
batch_sum batch [] rows = 0
batch_sum batch (c ∷ name) rows = elim (batch.column_by_name (c ∷ name)) [
  | none ↦ 0
  | some col ↦ column_sum col rows
]

-- The number of matching rows in all batches, and their sum.
unfoldable pub total_count : List RecordBatch → List Predicate → ℕ
total_count [] preds = 0
total_count (batch ∷ batches) preds =
    length (rows_matched batch preds batch.num_rows 0) + total_count batches preds

unfoldable pub total_sum : List RecordBatch → List Predicate → Bytes → ℕ
total_sum [] preds agg_col = 0
total_sum (batch ∷ batches) preds agg_col =
    batch_sum batch agg_col (rows_matched batch preds batch.num_rows 0)
    + total_sum batches preds agg_col
