-- ===== src/Lsm/MemTable/Tests.antt =====
-- Queries on a small table.
use green_gate.Base.{
  ◌^◌, ◌%◌, ◌-◌, ◌≡◌, refl, true, false, none, some, [], ◌∷◌, ◌==◌, if◌then◌else◌,
}
use green_gate.Base.Bytes.{bytes_eq, codes}
use green_gate.Query.{like_prefix, gt, Predicate, Column, RecordBatch}
use green_gate.Query.Text.{clean_pattern, pop_percent, starts_with}
use green_gate.Lsm.MemTable.{
  match_string, match_numeric, test_row, filter_rows, apply_predicates, matching_rows,
  count_matches, sum_rows, aggregate, query_batches, MemTable, empty, append, execute_query,
}
use green_gate.Lsm.MemTable.Spec.{row_matches, tabulate, total_count, total_sum}
use green_gate.Lsm.MemTable.Laws.{matching_rows-tabulate, execute_query_lem}
use green_gate.Lsm.MemTable.Counters.{IsCounted, started, stepped, appended, Reachable-IsCounted}

-- Three rows: "ab", "b" and a null, with the values 7, -1 and 3.
abbrev name_column : Column
name_column = record {
  is_null = λ r. r == 2;
  view = λ r. if r == 0 then codes "ab" else codes "b";
  value_at = λ r. 0;
}

abbrev value_column : Column
value_column = record {
  is_null = λ r. false;
  view = λ r. [];
  value_at = λ r. if r == 0 then 7 else (if r == 1 then 2 ^ 64 - 1 else 3);
}

abbrev batch : RecordBatch
batch = record {
  num_rows = 3;
  column_by_name = λ name.
      if bytes_eq name (codes "name")
      then some name_column
      else (if bytes_eq name (codes "value") then some value_column else none);
  buffer_sizes = (24 ∷ []) ∷ (8 ∷ 16 ∷ []) ∷ [];
}

abbrev starts_a : Predicate
starts_a = record {
  column_name = codes "name";
  op = like_prefix;
  value = codes "a%";
  numeric_value = 0;
  is_string = true;
}

abbrev above_zero : Predicate
above_zero = record {
  column_name = codes "value";
  op = gt;
  value = [];
  numeric_value = 0;
  is_string = false;
}

abbrev table : MemTable
table = record { batches = batch ∷ batch ∷ []; row_count = 6; memory_size = 96 }

matching_rows-tabulate_example :
    matching_rows batch (starts_a ∷ above_zero ∷ [])
    ≡ tabulate 3 0 (row_matches batch (starts_a ∷ above_zero ∷ []))
matching_rows-tabulate_example = matching_rows-tabulate batch (starts_a ∷ above_zero ∷ [])

matching_rows-above_zero : matching_rows batch (above_zero ∷ []) ≡ true ∷ false ∷ true ∷ []
unfolding matching_rows apply_predicates filter_rows test_row match_numeric bytes_eq
matching_rows-above_zero = refl

execute_query_lem_example : execute_query table (starts_a ∷ []) (codes "value") ≡ (
  total_count table.batches (starts_a ∷ []) % 2 ^ 64,
  total_sum table.batches (starts_a ∷ []) (codes "value") % 2 ^ 64,
)
execute_query_lem_example = execute_query_lem table (starts_a ∷ []) (codes "value")

execute_query-starts_a : execute_query table (starts_a ∷ []) (codes "value") ≡ (2, 14)
unfolding execute_query query_batches matching_rows apply_predicates filter_rows test_row
    match_string clean_pattern pop_percent starts_with count_matches aggregate sum_rows bytes_eq
execute_query-starts_a = refl

Reachable-IsCounted_example : IsCounted (append none (append (some batch) empty))
Reachable-IsCounted_example = Reachable-IsCounted (append none (append (some batch) empty)) (
    stepped (stepped started (appended empty (some batch)))
      (appended (append (some batch) empty) none))
