-- ===== src/Lsm/MemTable.antt =====
-- src/lex/lsm/mem_table.cpp: batches kept in memory, and queries over them. Each method holds the
-- table's mutex throughout, so a method is one step.
pub mod Spec
pub mod Laws
pub mod Counters
pub mod Statistics
mod Tests
use green_gate.Base.{
  ℕ, zero, suc, ◌+◌, ◌%◌, ◌^◌, Bool, true, false, not, ◌&&◌, Option, none, some, List, [], ◌∷◌,
  ◌++◌, map, ◌==◌, if◌then◌else◌, replicate,
}
use green_gate.Base.Int.{ltb_signed}
use green_gate.Base.Bytes.{Bytes, bytes_eq}
use green_gate.Query.{
  PredicateOp, eq, like_prefix, like_contains, gt, lt, Predicate, Column, RecordBatch,
}
use green_gate.Query.Text.{clean_pattern, starts_with, contains}

unfoldable pub match_string : Bytes → PredicateOp → Bytes → Bool
match_string val eq pat = bytes_eq val pat
match_string val like_prefix pat = starts_with pat val
match_string val like_contains pat = contains pat val
match_string val gt pat = false
match_string val lt pat = false

unfoldable pub match_numeric : ℕ → PredicateOp → ℕ → Bool
match_numeric val eq target = val == target
match_numeric val gt target = ltb_signed target val
match_numeric val lt target = ltb_signed val target
match_numeric val like_prefix target = false
match_numeric val like_contains target = false

-- One assignment to `matches[r]`, for a row that still matches.
unfoldable pub test_row : Predicate → Column → ℕ → Bool
unfolding match_string match_numeric
test_row pred col r =
    if col.is_null r
    then false
    else if pred.is_string
    then match_string (col.view r) pred.op (clean_pattern pred.op pred.value)
    else match_numeric (col.value_at r) pred.op pred.numeric_value

-- The loop over the rows of a batch for one predicate, from row `r`.
unfoldable pub filter_rows : Predicate → Column → ℕ → List Bool → List Bool
filter_rows pred col r [] = []
filter_rows pred col r (m ∷ matches) =
    (if m then test_row pred col r else false) ∷ filter_rows pred col (r + 1) matches

-- The loop over the predicates; a missing column fails all rows and ends it.
unfoldable pub apply_predicates : RecordBatch → List Predicate → List Bool → List Bool
unfolding filter_rows
apply_predicates batch [] matches = matches
apply_predicates batch (pred ∷ preds) matches = elim (batch.column_by_name pred.column_name) [
  | none ↦ map (λ _. false) matches
  | some col ↦ apply_predicates batch preds (filter_rows pred col 0 matches)
]

unfoldable pub matching_rows : RecordBatch → List Predicate → List Bool
unfolding apply_predicates
matching_rows batch preds = apply_predicates batch preds (replicate batch.num_rows true)

-- The count of the matching rows.
unfoldable pub count_matches : List Bool → ℕ
count_matches [] = 0
count_matches (m ∷ matches) = if m then suc (count_matches matches) else count_matches matches

-- The loop that adds the values of the matching rows to `out_agg_sum`, from row `r`.
unfoldable pub sum_rows : Column → ℕ → List Bool → ℕ → ℕ
sum_rows col r [] sum = sum
sum_rows col r (m ∷ matches) sum =
    sum_rows col (r + 1) matches
      (if m && not (col.is_null r) then (sum + col.value_at r) % 2 ^ 64 else sum)

-- The sum after one batch; an empty name asks for no sum.
unfoldable pub aggregate : RecordBatch → Bytes → List Bool → ℕ → ℕ
unfolding sum_rows
aggregate batch [] matches sum = sum
aggregate batch (c ∷ name) matches sum = elim (batch.column_by_name (c ∷ name)) [
  | none ↦ sum
  | some col ↦ sum_rows col 0 matches sum
]

-- The loop over the batches, with the two results so far.
unfoldable pub query_batches : List RecordBatch → List Predicate → Bytes → ℕ → ℕ → ℕ × ℕ
unfolding matching_rows count_matches aggregate
query_batches [] preds agg_col total sum = (total, sum)
query_batches (batch ∷ batches) preds agg_col total sum =
    let matches = matching_rows batch preds in
    let batch_matches = count_matches matches in
    let skipped = batch.num_rows == 0 in
    query_batches batches preds agg_col
      (if skipped then total else (total + batch_matches) % 2 ^ 64)
      (if skipped
        then sum
        else (if batch_matches == 0 then sum else aggregate batch agg_col matches sum))

pub record MemTable : Type 0 where
  pub batches : List RecordBatch
  pub row_count : ℕ
  pub memory_size : ℕ

abbrev pub empty : MemTable
empty = record { batches = []; row_count = 0; memory_size = 0 }

-- The bytes of a list of buffers, and of all columns.
unfoldable pub buffers_size : List ℕ → ℕ → ℕ
buffers_size [] size = size
buffers_size (b ∷ buffers) size = buffers_size buffers ((size + b) % 2 ^ 64)

unfoldable pub batch_size : List (List ℕ) → ℕ → ℕ
unfolding buffers_size
batch_size [] size = size
batch_size (c ∷ columns) size = batch_size columns (buffers_size c size)

-- `Append`; `none` is a null pointer.
unfoldable pub append : Option RecordBatch → MemTable → MemTable
unfolding batch_size
append none t = t
append (some batch) t = record {
  batches = t.batches ++ batch ∷ [];
  row_count = (t.row_count + batch.num_rows) % 2 ^ 64;
  memory_size = (t.memory_size + batch_size batch.buffer_sizes 0) % 2 ^ 64;
}

-- `Clear`.
unfoldable pub clear : MemTable → MemTable
clear t = empty

-- `ExecuteQuery`: the number of matches and `out_agg_sum`.
unfoldable pub execute_query : MemTable → List Predicate → Bytes → ℕ × ℕ
unfolding query_batches
execute_query t preds agg_col = query_batches t.batches preds agg_col 0 0
