-- ===== src/Lsm/MemTable/Statistics/Selection.antt =====
-- `ExecuteQueryResult` selects the rows that `ExecuteQuery` selects.
use green_gate.Base.{
  ℕ, ◌+◌, ◌≡◌, refl, ap, ap₂, ◌∙◌, Bool, true, false, none, some, List, [], ◌∷◌, map, replicate,
  arith, if◌then◌else◌,
}
use green_gate.Base.Bytes.{Bytes}
use green_gate.Query.{
  PredicateOp, eq, like_prefix, like_contains, gt, lt, Predicate, Column, RecordBatch,
}
use green_gate.Query.Text.{clean_pattern}
use green_gate.Lsm.MemTable.{test_row, filter_rows, apply_predicates, matching_rows, count_matches}
use green_gate.Lsm.MemTable.Statistics.{
  stripped_pattern, select_strings, select_numbers, select_rows, selected_count,
}

stripped_pattern-clean_pattern :
    (op : PredicateOp) (value : Bytes) → stripped_pattern op value ≡ clean_pattern op value
unfolding stripped_pattern clean_pattern
stripped_pattern-clean_pattern like_prefix value = refl
stripped_pattern-clean_pattern like_contains value = refl
stripped_pattern-clean_pattern eq value = refl
stripped_pattern-clean_pattern gt value = refl
stripped_pattern-clean_pattern lt value = refl

select_strings-filter_rows :
    (pred : Predicate) (col : Column) (r : ℕ) (matches : List Bool)
    → pred.is_string ≡ true
    → select_strings pred (stripped_pattern pred.op pred.value) col r matches
      ≡ filter_rows pred col r matches
unfolding select_strings filter_rows test_row
select_strings-filter_rows pred col r [] h = refl
select_strings-filter_rows pred col r (true ∷ matches) h =
    ap₂ ◌∷◌ (rw (h, stripped_pattern-clean_pattern pred.op pred.value) refl)
      (select_strings-filter_rows pred col (r + 1) matches h)
select_strings-filter_rows pred col r (false ∷ matches) h =
    ap (λ (rest : List Bool). false ∷ rest) (select_strings-filter_rows pred col (r + 1) matches h)

select_numbers-filter_rows :
    (pred : Predicate) (col : Column) (r : ℕ) (matches : List Bool)
    → pred.is_string ≡ false
    → select_numbers pred col r matches ≡ filter_rows pred col r matches
unfolding select_numbers filter_rows test_row
select_numbers-filter_rows pred col r [] h = refl
select_numbers-filter_rows pred col r (true ∷ matches) h =
    ap₂ ◌∷◌ (rw h refl) (select_numbers-filter_rows pred col (r + 1) matches h)
select_numbers-filter_rows pred col r (false ∷ matches) h =
    ap (λ (rest : List Bool). false ∷ rest) (select_numbers-filter_rows pred col (r + 1) matches h)

select_rows-apply_predicates :
    (batch : RecordBatch) (preds : List Predicate) (matches : List Bool)
    → select_rows batch preds matches ≡ apply_predicates batch preds matches
unfolding select_rows apply_predicates
select_rows-apply_predicates batch [] matches = refl
select_rows-apply_predicates batch (pred ∷ preds) matches =
    elim (batch.column_by_name pred.column_name)
      as (λ o.
        ◌≡◌ {A = List Bool}
          (elim o [
            | none ↦ map (λ _. false) matches
            | some col ↦ select_rows batch preds (
                if pred.is_string
                then select_strings pred (stripped_pattern pred.op pred.value) col 0 matches
                else select_numbers pred col 0 matches)
          ])
          (elim o [
            | none ↦ map (λ _. false) matches
            | some col ↦ apply_predicates batch preds (filter_rows pred col 0 matches)
          ])) [
            | none ↦ refl
            | some col ↦
                ap (select_rows batch preds) (one col pred.is_string refl)
                ∙ select_rows-apply_predicates batch preds (filter_rows pred col 0 matches)
          ]
  where
    one :
        (col : Column) (b : Bool)
        → pred.is_string ≡ b
        → (if b
            then select_strings pred (stripped_pattern pred.op pred.value) col 0 matches
            else select_numbers pred col 0 matches)
          ≡ filter_rows pred col 0 matches
    one col true h = select_strings-filter_rows pred col 0 matches h
    one col false h = select_numbers-filter_rows pred col 0 matches h

-- The same rows of a batch, and as many.
pub select_rows-matching_rows :
    (batch : RecordBatch) (preds : List Predicate)
    → select_rows batch preds (replicate batch.num_rows true) ≡ matching_rows batch preds
unfolding matching_rows
select_rows-matching_rows batch preds =
    select_rows-apply_predicates batch preds (replicate batch.num_rows true)

pub selected_count-count_matches :
    (matches : List Bool) → selected_count matches ≡ count_matches matches
unfolding selected_count count_matches
selected_count-count_matches [] = refl
selected_count-count_matches (true ∷ matches) = omega (arith, selected_count-count_matches matches)
selected_count-count_matches (false ∷ matches) = omega (arith, selected_count-count_matches matches)
