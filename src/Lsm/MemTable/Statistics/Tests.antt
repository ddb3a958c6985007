-- ===== src/Lsm/MemTable/Statistics/Tests.antt =====
-- Statistics of a small table.
use green_gate.Base.{
  ℕ, length, ◌^◌, ◌-◌, ◌≤◌, ◌≡◌, refl, true, false, [], ◌∷◌, ◌==◌, if◌then◌else◌, some, All,
}
use green_gate.Base.Int.{biased}
use green_gate.Base.Bytes.{codes}
use green_gate.Query.{lt, Predicate, Column, RecordBatch}
use green_gate.Lsm.MemTable.{MemTable, execute_query, match_numeric}
use green_gate.Lsm.MemTable.Statistics.{
  select_rows, select_numbers, selected_count, no_result, matched_values, add_values,
  collect_column, is_empty_name, collect_batch, collect, min_of, max_of, occurs, distinct,
  insert_sorted, sort, half, median, numeric_statistics, execute_query_result,
}
use green_gate.Lsm.MemTable.Statistics.Laws.{execute_query_result-execute_query}
use green_gate.Lsm.MemTable.Statistics.Numbers.{
  is_in, occurrences, numeric_statistics-bounds, numeric_statistics-distinct,
}
use green_gate.Lsm.MemTable.Statistics.Median.{IsMedian, numeric_statistics-IsMedian}

-- Three rows: 7, a null and -1.
abbrev numbers : Column
numbers = record {
  is_null = λ r. r == 1;
  view = λ r. [];
  value_at = λ r. if r == 0 then 7 else 2 ^ 64 - 1;
}

abbrev batch : RecordBatch
batch = record { num_rows = 3; column_by_name = λ name. some numbers; buffer_sizes = [] }

abbrev table : MemTable
table = record { batches = batch ∷ batch ∷ []; row_count = 6; memory_size = 0 }

abbrev below_nine : Predicate
below_nine = record {
  column_name = codes "n";
  op = lt;
  value = [];
  numeric_value = 9;
  is_string = false;
}

execute_query_result-execute_query_example :
    ((execute_query_result (λ col. false) table (below_nine ∷ []) (codes "n")).count
      ≡ (execute_query table (below_nine ∷ []) (codes "n")).0)
    × ((execute_query_result (λ col. false) table (below_nine ∷ []) (codes "n")).sum
        ≡ (execute_query table (below_nine ∷ []) (codes "n")).1)
execute_query_result-execute_query_example =
    execute_query_result-execute_query (λ col. false) table (below_nine ∷ []) (codes "n")
      (λ col. refl)

-- The sum of 7, -1, 7 and -1 is 12, and their median 3.
execute_query_result-below_nine :
    execute_query_result (λ col. false) table (below_nine ∷ []) (codes "n") ≡ record {
      count = 4;
      sum = 12;
      avg = (12, 4);
      min_val = 2 ^ 64 - 1;
      max_val = 7;
      median_val = 3;
      distinct_count = 2;
      distinct_strings = [];
      distinct_numerics = 7 ∷ (2 ^ 64 - 1) ∷ [];
    }
unfolding execute_query_result collect collect_batch collect_column matched_values add_values
    is_empty_name numeric_statistics min_of max_of occurs distinct insert_sorted sort half median
    select_rows select_numbers selected_count match_numeric
execute_query_result-below_nine = refl

numeric_statistics-bounds_example :
    All
      (λ w.
        (biased (numeric_statistics (7 ∷ (2 ^ 64 - 1) ∷ 3 ∷ []) no_result).min_val ≤ biased w)
        × (biased w ≤ biased (numeric_statistics (7 ∷ (2 ^ 64 - 1) ∷ 3 ∷ []) no_result).max_val))
      (7 ∷ (2 ^ 64 - 1) ∷ 3 ∷ [])
    × (is_in
          (numeric_statistics (7 ∷ (2 ^ 64 - 1) ∷ 3 ∷ []) no_result).min_val
          (7 ∷ (2 ^ 64 - 1) ∷ 3 ∷ [])
        ≡ true)
    × (is_in
          (numeric_statistics (7 ∷ (2 ^ 64 - 1) ∷ 3 ∷ []) no_result).max_val
          (7 ∷ (2 ^ 64 - 1) ∷ 3 ∷ [])
        ≡ true)
numeric_statistics-bounds_example = numeric_statistics-bounds 7 ((2 ^ 64 - 1) ∷ 3 ∷ []) no_result

numeric_statistics-IsMedian_example :
    IsMedian
      (7 ∷ (2 ^ 64 - 1) ∷ 3 ∷ [])
      (numeric_statistics (7 ∷ (2 ^ 64 - 1) ∷ 3 ∷ []) no_result).median_val
numeric_statistics-IsMedian_example =
    numeric_statistics-IsMedian 7 ((2 ^ 64 - 1) ∷ 3 ∷ []) no_result

numeric_statistics-distinct_example :
    ((x : ℕ)
      → occurrences x (numeric_statistics (7 ∷ 3 ∷ 7 ∷ []) no_result).distinct_numerics
        ≡ (if is_in x (7 ∷ 3 ∷ 7 ∷ []) then 1 else 0))
    × ((numeric_statistics (7 ∷ 3 ∷ 7 ∷ []) no_result).distinct_count
        ≡ length (numeric_statistics (7 ∷ 3 ∷ 7 ∷ []) no_result).distinct_numerics)
numeric_statistics-distinct_example = numeric_statistics-distinct 7 (3 ∷ 7 ∷ []) no_result
