-- ===== src/Lsm/MemTable/Laws.antt =====
-- The queries of the in-memory table against their meaning row by row.
use green_gate.Base.{
  ℕ, zero, suc, ◌+◌, ◌%◌, ◌^◌, ◌<◌, ◌≡◌, refl, ap, ap₂, ◌∙◌, fun_ext, Bool, true, false, ◌&&◌, List,
  [], ◌∷◌, map, arith, ◌==◌, if◌then◌else◌, Bool-cases, inl, inr, Option-cases, replicate, length,
}
use green_gate.Base.Bytes.{Bytes}
use green_gate.Query.{Predicate, Column, RecordBatch}
use green_gate.Lsm.MemTable.{
  test_row, filter_rows, apply_predicates, matching_rows, count_matches, sum_rows, aggregate,
  query_batches, MemTable, execute_query,
}
use green_gate.Lsm.MemTable.Spec.{
  row_matches, tabulate, rows_matched, column_sum, batch_sum, total_count, total_sum,
}

tabulate-replicate : (n r : ℕ) → replicate n true ≡ tabulate n r (λ _. true)
unfolding tabulate
tabulate-replicate zero r = refl
tabulate-replicate (suc n) r = ap (λ xs. true ∷ xs) (tabulate-replicate n (r + 1))

tabulate-false :
    (n r : ℕ) (f : ℕ → Bool) → map (λ _. false) (tabulate n r f) ≡ tabulate n r (λ _. false)
unfolding tabulate
tabulate-false zero r f = refl
tabulate-false (suc n) r f = ap (λ xs. false ∷ xs) (tabulate-false n (r + 1) f)

filter_rows-tabulate :
    (pred : Predicate) (col : Column) (n r : ℕ) (f : ℕ → Bool)
    → filter_rows pred col r (tabulate n r f) ≡ tabulate n r (λ k. f k && test_row pred col k)
unfolding filter_rows tabulate
filter_rows-tabulate pred col zero r f = refl
filter_rows-tabulate pred col (suc n) r f =
    ap₂ ◌∷◌ (ground arith) (filter_rows-tabulate pred col n (r + 1) f)

apply_predicates-tabulate :
    (batch : RecordBatch) (preds : List Predicate) (n : ℕ) (f : ℕ → Bool)
    → apply_predicates batch preds (tabulate n 0 f)
      ≡ tabulate n 0 (λ k. f k && row_matches batch preds k)
unfolding apply_predicates row_matches
apply_predicates-tabulate batch [] n f = ap (tabulate n 0) (fun_ext λ k. ground arith)
apply_predicates-tabulate batch (pred ∷ preds) n f =
    elim (Option-cases (batch.column_by_name pred.column_name)) [
      | inl missing ↦
          rw (missing, apply_predicates)
            (tabulate-false n 0 f ∙ ap (tabulate n 0) (fun_ext λ k. ground arith))
      | inr (col, found) ↦
          rw (found, apply_predicates)
            (ap (apply_predicates batch preds) (filter_rows-tabulate pred col n 0 f)
              ∙ apply_predicates-tabulate batch preds n _
              ∙ ap (tabulate n 0) (fun_ext λ k. ground arith))
    ]

-- The flags that `ExecuteQuery` computes predicate by predicate are those of the rows one by one: a
-- row has the flag if every predicate's column is there, not null at the row, and passes the test.
pub matching_rows-tabulate :
    (batch : RecordBatch) (preds : List Predicate)
    → matching_rows batch preds ≡ tabulate batch.num_rows 0 (row_matches batch preds)
unfolding matching_rows
matching_rows-tabulate batch preds =
    ap (apply_predicates batch preds) (tabulate-replicate batch.num_rows 0)
    ∙ apply_predicates-tabulate batch preds batch.num_rows (λ _. true)

count_matches-tabulate :
    (batch : RecordBatch) (preds : List Predicate) (n r : ℕ)
    → count_matches (tabulate n r (row_matches batch preds)) ≡ length (rows_matched batch preds n r)
unfolding count_matches tabulate rows_matched
count_matches-tabulate batch preds zero r = refl
count_matches-tabulate batch preds (suc n) r =
    ground (arith, count_matches-tabulate batch preds n (r + 1))

sum_rows-tabulate :
    (batch : RecordBatch) (preds : List Predicate) (col : Column) (n r sum : ℕ)
    → sum < 2 ^ 64
    → sum_rows col r (tabulate n r (row_matches batch preds)) sum
      ≡ (sum + column_sum col (rows_matched batch preds n r)) % 2 ^ 64
unfolding sum_rows tabulate rows_matched column_sum
sum_rows-tabulate batch preds col zero r sum h = omega arith
sum_rows-tabulate batch preds col (suc n) r sum h = ground (
  arith,
  sum_rows-tabulate batch preds col n (r + 1) ((sum + col.value_at r) % 2 ^ 64),
  sum_rows-tabulate batch preds col n (r + 1) sum,
)

aggregate-tabulate :
    (batch : RecordBatch) (agg_col : Bytes) (preds : List Predicate) (n sum : ℕ)
    → sum < 2 ^ 64
    → aggregate batch agg_col (tabulate n 0 (row_matches batch preds)) sum
      ≡ (sum + batch_sum batch agg_col (rows_matched batch preds n 0)) % 2 ^ 64
unfolding aggregate batch_sum
aggregate-tabulate batch [] preds n sum h = omega arith
aggregate-tabulate batch (c ∷ name) preds n sum h =
    elim (Option-cases (batch.column_by_name (c ∷ name))) [
      | inl missing ↦ rw (missing, aggregate, batch_sum) (omega arith)
      | inr (col, found) ↦
          rw (found, aggregate, batch_sum) (sum_rows-tabulate batch preds col n 0 sum h)
    ]

batch_sum-nil : (batch : RecordBatch) (agg_col : Bytes) → batch_sum batch agg_col [] ≡ 0
unfolding batch_sum
batch_sum-nil batch [] = refl
batch_sum-nil batch (c ∷ name) = ground arith

length-zero : (rows : List ℕ) → length rows ≡ 0 → rows ≡ []
length-zero [] h = refl
length-zero (r ∷ rows) h = absurd (omega arith)

-- The rows matched, `k` of them, add to the running sum whether or not the code looks at them.
aggregate_or_skip :
    (batch : RecordBatch) (agg_col : Bytes) (preds : List Predicate) (sum : ℕ)
    → sum < 2 ^ 64
    → (if length (rows_matched batch preds batch.num_rows 0) == 0
        then sum
        else aggregate batch agg_col (matching_rows batch preds) sum)
      ≡ (sum + batch_sum batch agg_col (rows_matched batch preds batch.num_rows 0)) % 2 ^ 64
aggregate_or_skip batch agg_col preds sum h =
    elim (Bool-cases (length (rows_matched batch preds batch.num_rows 0) == 0)) [
      | inl no_rows ↦
          let none_matched =
            length-zero (rows_matched batch preds batch.num_rows 0) (ground arith) in
          rw no_rows
            (omega (arith, ap (batch_sum batch agg_col) none_matched, batch_sum-nil batch agg_col))
      | inr some_rows ↦
          rw (some_rows, matching_rows-tabulate batch preds)
            (aggregate-tabulate batch agg_col preds batch.num_rows sum h)
    ]

count_matches_lem :
    (batch : RecordBatch) (preds : List Predicate)
    → count_matches (matching_rows batch preds) ≡ length (rows_matched batch preds batch.num_rows 0)
count_matches_lem batch preds =
    ap count_matches (matching_rows-tabulate batch preds)
    ∙ count_matches-tabulate batch preds batch.num_rows 0

no_rows_matched :
    (batch : RecordBatch) (preds : List Predicate) (n : ℕ)
    → n ≡ 0
    → rows_matched batch preds n 0 ≡ []
unfolding rows_matched
no_rows_matched batch preds zero e = refl
no_rows_matched batch preds (suc n) e = absurd (omega arith)

next_total :
    (batch : RecordBatch) (preds : List Predicate) (total : ℕ)
    → total < 2 ^ 64
    → (if batch.num_rows == 0
        then total
        else (total + count_matches (matching_rows batch preds)) % 2 ^ 64)
      ≡ (total + length (rows_matched batch preds batch.num_rows 0)) % 2 ^ 64
next_total batch preds total h = elim (Bool-cases (batch.num_rows == 0)) [
  | inl no_rows ↦
      rw (no_rows, no_rows_matched batch preds batch.num_rows (ground arith)) (omega arith)
  | inr rows ↦ rw (rows, count_matches_lem batch preds)
]

next_sum :
    (batch : RecordBatch) (agg_col : Bytes) (preds : List Predicate) (sum : ℕ)
    → sum < 2 ^ 64
    → (if batch.num_rows == 0
        then sum
        else (if count_matches (matching_rows batch preds) == 0
            then sum
            else aggregate batch agg_col (matching_rows batch preds) sum))
      ≡ (sum + batch_sum batch agg_col (rows_matched batch preds batch.num_rows 0)) % 2 ^ 64
next_sum batch agg_col preds sum h = elim (Bool-cases (batch.num_rows == 0)) [
  | inl no_rows ↦
      rw (no_rows, no_rows_matched batch preds batch.num_rows (ground arith))
        (omega (arith, batch_sum-nil batch agg_col))
  | inr rows ↦
      rw (rows, count_matches_lem batch preds) (aggregate_or_skip batch agg_col preds sum h)
]

query_batches_lem :
    (batches : List RecordBatch) (preds : List Predicate) (agg_col : Bytes) (total sum : ℕ)
    → total < 2 ^ 64
    → sum < 2 ^ 64
    → query_batches batches preds agg_col total sum ≡ (
      (total + total_count batches preds) % 2 ^ 64,
      (sum + total_sum batches preds agg_col) % 2 ^ 64,
    )
unfolding query_batches total_count total_sum
query_batches_lem [] preds agg_col total sum ht hs = ground arith
query_batches_lem (batch ∷ batches) preds agg_col total sum ht hs =
    let k = length (rows_matched batch preds batch.num_rows 0) in
    let s = batch_sum batch agg_col (rows_matched batch preds batch.num_rows 0) in
    ap₂ (query_batches batches preds agg_col) (next_total batch preds total ht)
      (next_sum batch agg_col preds sum hs)
    ∙ query_batches_lem batches preds agg_col ((total + k) % 2 ^ 64) ((sum + s) % 2 ^ 64)
        (omega arith) (omega arith)
    ∙ ap₂ (λ (a b : ℕ). (a, b)) (omega arith) (omega arith)

-- `ExecuteQuery` counts the rows that satisfy all predicates and sums the column over them, nulls
-- left out, both modulo 2 ^ 64.
pub execute_query_lem :
    (t : MemTable) (preds : List Predicate) (agg_col : Bytes)
    → execute_query t preds agg_col
      ≡ (total_count t.batches preds % 2 ^ 64, total_sum t.batches preds agg_col % 2 ^ 64)
unfolding execute_query
execute_query_lem t preds agg_col =
    query_batches_lem t.batches preds agg_col 0 0 (omega arith) (omega arith) ∙ ground arith
