-- ===== src/Cluster/Matching.antt =====
-- `GetMatchingRows` of src/lex/distributed/distributed_coordinator.cpp, which a node asks for the
-- rows of a batch that take part in a join.
pub mod Laws
mod Tests
use green_gate.Base.{
  ℕ, ◌+◌, Bool, true, false, none, some, List, [], ◌∷◌, map, ◌==◌, if◌then◌else◌, replicate,
}
use green_gate.Base.Int.{ltb_signed}
use green_gate.Base.Bytes.{Bytes, bytes_eq}
use green_gate.Query.{
  PredicateOp, eq, like_prefix, like_contains, gt, lt, Predicate, Column, RecordBatch,
}
use green_gate.Query.Text.{clean_pattern, starts_with, contains}

-- The flag of a row that matched so far, after a string test; other operations leave it.
unfoldable pub keep_string : Bytes → PredicateOp → Bytes → Bool
keep_string val eq pat = bytes_eq val pat
keep_string val like_prefix pat = starts_with pat val
keep_string val like_contains pat = contains pat val
keep_string val gt pat = true
keep_string val lt pat = true

unfoldable pub keep_numeric : ℕ → PredicateOp → ℕ → Bool
keep_numeric val eq target = val == target
keep_numeric val gt target = ltb_signed target val
keep_numeric val lt target = ltb_signed val target
keep_numeric val like_prefix target = true
keep_numeric val like_contains target = true

unfoldable pub keep_row : Predicate → Column → ℕ → Bool
unfolding keep_string keep_numeric
keep_row pred col r =
    if col.is_null r
    then false
    else if pred.is_string
    then keep_string (col.view r) pred.op (clean_pattern pred.op pred.value)
    else keep_numeric (col.value_at r) pred.op pred.numeric_value

-- The loop over the rows for one predicate, from row `r`.
unfoldable pub keep_rows : Predicate → Column → ℕ → List Bool → List Bool
unfolding keep_row
keep_rows pred col r [] = []
keep_rows pred col r (m ∷ matches) =
    (if m then keep_row pred col r else false) ∷ keep_rows pred col (r + 1) matches

-- The loop over the predicates.
unfoldable pub keep_all : RecordBatch → List Predicate → List Bool → List Bool
unfolding keep_rows
keep_all batch [] matches = matches
keep_all batch (pred ∷ preds) matches = elim (batch.column_by_name pred.column_name) [
  | none ↦ map (λ _. false) matches
  | some col ↦ keep_all batch preds (keep_rows pred col 0 matches)
]

-- `GetMatchingRows`.
unfoldable pub get_matching_rows : RecordBatch → List Predicate → List Bool
unfolding keep_all
get_matching_rows batch preds = keep_all batch preds (replicate batch.num_rows true)
