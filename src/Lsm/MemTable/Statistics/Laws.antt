-- ===== src/Lsm/MemTable/Statistics/Laws.antt =====
-- The statistics of a query agree with its count and sum, and describe the values.
use green_gate.Base.{
  ℕ, ◌+◌, ◌%◌, ◌^◌, ◌≡◌, refl, ap, ◌∙◌, Bool, true, false, not, ◌&&◌, ◌||◌, Option, none, some,
  List, [], ◌∷◌, ◌==◌, if◌then◌else◌, Bool-cases, inl, inr,
}
use green_gate.Base.Bytes.{Bytes}
use green_gate.Query.{Predicate, Column, RecordBatch}
use green_gate.Lsm.MemTable.{
  MemTable, matching_rows, count_matches, sum_rows, aggregate, query_batches, execute_query,
}
use green_gate.Lsm.MemTable.Statistics.Selection.{
  select_rows-matching_rows, selected_count-count_matches,
}
use green_gate.Lsm.MemTable.Statistics.{
  QueryResult, no_result, matched_values, add_values, Collected, collect_column, is_empty_name,
  collect_batch, collect, numeric_statistics, string_statistics, execute_query_result,
}

add_values-matched_values :
    (col : Column) (r : ℕ) (matches : List Bool) (sum : ℕ)
    → add_values (matched_values col.value_at col r matches) sum ≡ sum_rows col r matches sum
unfolding matched_values add_values sum_rows
add_values-matched_values col r [] sum = refl
add_values-matched_values col r (m ∷ matches) sum = elim (Bool-cases (m && not (col.is_null r))) [
  | inl taken ↦
      rw taken (add_values-matched_values col (r + 1) matches ((sum + col.value_at r) % 2 ^ 64))
  | inr passed ↦ rw passed (add_values-matched_values col (r + 1) matches sum)
]

-- No array has a string type.
abbrev pub IsNumeric : (Column → Bool) → Type 0
IsNumeric has_string_type = (col : Column) → has_string_type col ≡ false

collect_column-sum_rows :
    (has_string_type : Column → Bool) (matches : List Bool) (c : Collected) (o : Option Column)
    → IsNumeric has_string_type
    → ((collect_column has_string_type matches c o).count ≡ c.count)
      × ((collect_column has_string_type matches c o).sum
          ≡ elim o [ none ↦ c.sum | some col ↦ sum_rows col 0 matches c.sum ])
unfolding collect_column
collect_column-sum_rows has_string_type matches c none numeric = (refl, refl)
collect_column-sum_rows has_string_type matches c (some col) numeric =
    rw (numeric col) (refl, add_values-matched_values col 0 matches c.sum)

-- What `ExecuteQuery` makes of a batch.
abbrev count_after : RecordBatch → List Predicate → ℕ → ℕ
count_after batch preds total =
    if batch.num_rows == 0
    then total
    else (total + count_matches (matching_rows batch preds)) % 2 ^ 64

abbrev sum_after : RecordBatch → List Predicate → Bytes → ℕ → ℕ
sum_after batch preds agg_col sum =
    if batch.num_rows == 0
    then sum
    else (if count_matches (matching_rows batch preds) == 0
        then sum
        else aggregate batch agg_col (matching_rows batch preds) sum)

module _ (has_string_type : Column → Bool) (numeric : IsNumeric has_string_type) where
  collect_batch-after :
      (batch : RecordBatch) (preds : List Predicate) (agg_col : Bytes) (c : Collected)
      → ((collect_batch has_string_type batch preds agg_col c).count
          ≡ count_after batch preds c.count)
        × ((collect_batch has_string_type batch preds agg_col c).sum
            ≡ sum_after batch preds agg_col c.sum)
  unfolding collect_batch aggregate is_empty_name
  collect_batch-after batch preds [] c = elim (Bool-cases (batch.num_rows == 0)) [
    | inl skipped ↦ rw skipped (refl, refl)
    | inr present ↦ elim (Bool-cases (count_matches (matching_rows batch preds) == 0)) [
      | inl none_here ↦
          rw
            (
              present,
              select_rows-matching_rows batch preds,
              selected_count-count_matches (matching_rows batch preds),
              none_here,
            )
            (refl, refl)
      | inr some_here ↦
          rw
            (
              present,
              select_rows-matching_rows batch preds,
              selected_count-count_matches (matching_rows batch preds),
              some_here,
            )
            (refl, refl)
    ]
  ]
  collect_batch-after batch preds (n ∷ name) c = elim (Bool-cases (batch.num_rows == 0)) [
    | inl skipped ↦ rw skipped (refl, refl)
    | inr present ↦ elim (Bool-cases (count_matches (matching_rows batch preds) == 0)) [
      | inl none_here ↦
          rw
            (
              present,
              select_rows-matching_rows batch preds,
              selected_count-count_matches (matching_rows batch preds),
              none_here,
            )
            (refl, refl)
      | inr some_here ↦
          rw
            (
              present,
              select_rows-matching_rows batch preds,
              selected_count-count_matches (matching_rows batch preds),
              some_here,
            )
            (collect_column-sum_rows has_string_type (matching_rows batch preds)
              (record c { count = (c.count + count_matches (matching_rows batch preds)) % 2 ^ 64 })
              (batch.column_by_name (n ∷ name)) numeric)
    ]
  ]

  -- The loop over the batches.
  collect-query_batches :
      (batches : List RecordBatch) (preds : List Predicate) (agg_col : Bytes) (c : Collected)
      (total sum : ℕ)
      → c.count ≡ total
      → c.sum ≡ sum
      → ((collect has_string_type batches preds agg_col c).count
          ≡ (query_batches batches preds agg_col total sum).0)
        × ((collect has_string_type batches preds agg_col c).sum
            ≡ (query_batches batches preds agg_col total sum).1)
  unfolding collect query_batches
  collect-query_batches [] preds agg_col c total sum e e' = (e, e')
  collect-query_batches (batch ∷ batches) preds agg_col c total sum e e' =
      let (count_is, sum_is) = collect_batch-after batch preds agg_col c in
      collect-query_batches batches preds agg_col
        (collect_batch has_string_type batch preds agg_col c) (count_after batch preds total)
        (sum_after batch preds agg_col sum) (count_is ∙ ap (count_after batch preds) e)
        (sum_is ∙ ap (sum_after batch preds agg_col) e')

pub numeric_statistics-totals :
    (values : List ℕ) (res : QueryResult)
    → ((numeric_statistics values res).count ≡ res.count)
      × ((numeric_statistics values res).sum ≡ res.sum)
unfolding numeric_statistics
numeric_statistics-totals [] res = (refl, refl)
numeric_statistics-totals (v ∷ values) res = (refl, refl)

pub string_statistics-totals :
    (values : List Bytes) (res : QueryResult)
    → ((string_statistics values res).count ≡ res.count)
      × ((string_statistics values res).sum ≡ res.sum)
unfolding string_statistics
string_statistics-totals [] res = (refl, refl)
string_statistics-totals (v ∷ values) res = (refl, refl)

collect_column-count :
    (has_string_type : Column → Bool) (matches : List Bool) (c : Collected) (o : Option Column)
    → (collect_column has_string_type matches c o).count ≡ c.count
unfolding collect_column
collect_column-count has_string_type matches c none = refl
collect_column-count has_string_type matches c (some col) =
    elim (Bool-cases (has_string_type col)) [ inl s ↦ rw s refl | inr n ↦ rw n refl ]

collect_batch-count :
    (has_string_type : Column → Bool) (batch : RecordBatch) (preds : List Predicate)
    (agg_col : Bytes) (c : Collected)
    → (collect_batch has_string_type batch preds agg_col c).count ≡ count_after batch preds c.count
unfolding collect_batch
collect_batch-count has_string_type batch preds agg_col c =
    let matches = matching_rows batch preds in
    elim (Bool-cases (batch.num_rows == 0)) [
      | inl skipped ↦ rw skipped refl
      | inr present ↦ elim (Bool-cases (count_matches matches == 0 || is_empty_name agg_col)) [
        | inl idle ↦
            rw
              (
                present,
                select_rows-matching_rows batch preds,
                selected_count-count_matches (matching_rows batch preds),
                idle,
              )
              refl
        | inr busy ↦
            rw
              (
                present,
                select_rows-matching_rows batch preds,
                selected_count-count_matches (matching_rows batch preds),
                busy,
              )
              (collect_column-count has_string_type matches _ (batch.column_by_name agg_col))
      ]
    ]

collect-count :
    (has_string_type : Column → Bool) (batches : List RecordBatch) (preds : List Predicate)
    (agg_col : Bytes) (c : Collected) (total sum : ℕ)
    → c.count ≡ total
    → (collect has_string_type batches preds agg_col c).count
      ≡ (query_batches batches preds agg_col total sum).0
unfolding collect query_batches
collect-count has_string_type [] preds agg_col c total sum e = e
collect-count has_string_type (batch ∷ batches) preds agg_col c total sum e =
    collect-count has_string_type batches preds agg_col
      (collect_batch has_string_type batch preds agg_col c) (count_after batch preds total)
      (sum_after batch preds agg_col sum)
      (collect_batch-count has_string_type batch preds agg_col c ∙ ap (count_after batch preds) e)

-- Whichever statistics are taken, count and sum stay.
finish-totals :
    (idle is_str : Bool) (strings : List Bytes) (numerics : List ℕ) (res : QueryResult)
    → let final =
        if idle
        then res
        else if is_str
        then string_statistics strings res
        else numeric_statistics numerics res in
      (final.count ≡ res.count) × (final.sum ≡ res.sum)
finish-totals true is_str strings numerics res = (refl, refl)
finish-totals false true strings numerics res = string_statistics-totals strings res
finish-totals false false strings numerics res = numeric_statistics-totals numerics res

-- The same count as of `ExecuteQuery`, whatever the types.
pub execute_query_result-count :
    (has_string_type : Column → Bool) (t : MemTable) (preds : List Predicate) (agg_col : Bytes)
    → (execute_query_result has_string_type t preds agg_col).count
      ≡ (execute_query t preds agg_col).0
unfolding execute_query_result execute_query
execute_query_result-count has_string_type t preds agg_col =
    let start : Collected = record {
      count = 0;
      sum = 0;
      numerics = [];
      strings = [];
      is_agg_str = false;
    } in
    let c = collect has_string_type t.batches preds agg_col start in
    let res = record no_result { count = c.count; sum = c.sum } in
    (finish-totals (c.count == 0 || is_empty_name agg_col) c.is_agg_str c.strings c.numerics res).0
    ∙ collect-count has_string_type t.batches preds agg_col start 0 0 refl

-- `ExecuteQueryResult` and `ExecuteQuery` of the in-memory table give the same count and the same
-- sum, if no array has a string type.
pub execute_query_result-execute_query :
    (has_string_type : Column → Bool) (t : MemTable) (preds : List Predicate) (agg_col : Bytes)
    → IsNumeric has_string_type
    → ((execute_query_result has_string_type t preds agg_col).count
        ≡ (execute_query t preds agg_col).0)
      × ((execute_query_result has_string_type t preds agg_col).sum
          ≡ (execute_query t preds agg_col).1)
unfolding execute_query_result execute_query
execute_query_result-execute_query has_string_type t preds agg_col numeric =
    let start : Collected = record {
      count = 0;
      sum = 0;
      numerics = [];
      strings = [];
      is_agg_str = false;
    } in
    let c = collect has_string_type t.batches preds agg_col start in
    let res = record no_result { count = c.count; sum = c.sum } in
    let (count_is, sum_is) =
      collect-query_batches has_string_type numeric t.batches preds agg_col start 0 0 refl refl in
    let (counts, sums) =
      finish-totals (c.count == 0 || is_empty_name agg_col) c.is_agg_str c.strings c.numerics res in
    (counts ∙ count_is, sums ∙ sum_is)
