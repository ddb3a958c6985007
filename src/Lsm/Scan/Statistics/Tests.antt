-- ===== src/Lsm/Scan/Statistics/Tests.antt =====
-- Statistics of two row groups with a column of numbers.
use green_gate.Base.{◌≡◌, refl, false, none, some, [], ◌∷◌, replicate}
use green_gate.Base.Bytes.{codes}
use green_gate.Query.Tail.{Memory}
use green_gate.Query.Runner.{QueryRunner}
use green_gate.Lsm.MemTable.{empty}
use green_gate.Lsm.MemTable.Statistics.{QueryResult, no_result}
use green_gate.Lsm.Registry.{TableState, Store}
use green_gate.Lsm.Scan.{execute_state}
use green_gate.Lsm.Scan.Statistics.{
  merge_all, merge_one, merge_numbers, merge_results, execute_state_result,
}
use green_gate.Lsm.Scan.Statistics.Laws.{execute_state_result-execute_state}
use green_gate.Storage.{RowGroup}

-- The numbers 3 and 2.
abbrev group : RowGroup
group = record {
  num_rows = 2;
  num_columns = 1;
  column_names = codes "v" ∷ [];
  column_types = 9 ∷ [];
  blocks =
      record {
        columns =
            record { planes = 1 ∷ 3 ∷ replicate 62 0; validity = 0; padding = replicate 7 0 } ∷ [];
        tail_payload = replicate 64 0;
        delete_mask = 3;
      }
      ∷ [];
}

abbrev runner : QueryRunner
runner = record {
  scan_func = λ columns mem active. 7;
  string_predicates = [];
  all_predicates = [];
  string_col_indices = [];
  clean_string_patterns = [];
  agg_col_idx = some 0;
  max_agg_bit = 1;
  agg_col_name = codes "v";
}

abbrev outside : Memory
outside p = 0

abbrev state : TableState
state = record {
  table_name = codes "t";
  column_names = codes "v" ∷ [];
  column_types = 9 ∷ [];
  persisted_groups = 1 ∷ 1 ∷ [];
  active_memtable = 2;
  frozen_memtable = none;
  version = 1;
}

abbrev store : Store
store = record {
  groups = λ p. group;
  memtables = λ p. empty;
  states = λ p. state;
  fresh = 4;
  tables = (codes "t", 3) ∷ [];
  global_tables = [];
}

execute_state_result-execute_state_example :
    (execute_state_result (λ col. false) runner outside store state []).0.count
    ≡ (execute_state runner outside store state).0
execute_state_result-execute_state_example =
    execute_state_result-execute_state (λ col. false) runner outside store state []

-- A part with the values 1, 1 and 1, and one with the value 5.
abbrev ones : QueryResult
ones = record no_result {
  count = 3;
  sum = 3;
  avg = (3, 3);
  min_val = 1;
  max_val = 1;
  median_val = 1;
  distinct_count = 1;
  distinct_numerics = 1 ∷ [];
}

abbrev five : QueryResult
five = record no_result {
  count = 1;
  sum = 5;
  avg = (5, 1);
  min_val = 5;
  max_val = 5;
  median_val = 5;
  distinct_count = 1;
  distinct_numerics = 5 ∷ [];
}

-- The merged average of four values with the sum 8 is 8 / 2, and their median 3: the values of a
-- part are counted once each.
merge_results-ones-five : merge_results false (ones ∷ five ∷ []) ≡ record {
  count = 4;
  sum = 8;
  avg = (8, 2);
  min_val = 1;
  max_val = 5;
  median_val = 3;
  distinct_count = 2;
  distinct_strings = [];
  distinct_numerics = 1 ∷ 5 ∷ [];
}
unfolding merge_results merge_all merge_one merge_numbers
merge_results-ones-five = refl
