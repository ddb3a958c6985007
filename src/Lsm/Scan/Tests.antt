-- ===== src/Lsm/Scan/Tests.antt =====
-- A table with one row group and an active table without rows.
use green_gate.Base.{◌≡◌, refl, none, some, [], ◌∷◌, replicate}
use green_gate.Base.Bytes.{codes}
use green_gate.Base.Loops.{for_steps}
use green_gate.Base.SetBits.Sums.{popcount}
use green_gate.Query.Tail.{Memory}
use green_gate.Query.Runner.{
  QueryRunner, candidates, verify_strings, highest_plane, add_plane, block_sum, aggregate_block,
  rows_of_block, final_mask, execute_blocks, execute,
}
use green_gate.Lsm.MemTable.{empty, execute_query, query_batches}
use green_gate.Lsm.Registry.{TableState, Store}
use green_gate.Lsm.Scan.{add_result, scan_groups, scan_memtable, execute_state}
use green_gate.Storage.{RowGroup}

-- The numbers 3 and 2.
abbrev group : RowGroup
group = record {
  num_rows = 2;
  num_columns = 1;
  column_names = codes "v" ∷ [];
  column_types = 9 ∷ [];
  blocks =
      record {
        columns =
            record { planes = 1 ∷ 3 ∷ replicate 62 0; validity = 0; padding = replicate 7 0 } ∷ [];
        tail_payload = replicate 64 0;
        delete_mask = 3;
      }
      ∷ [];
}

abbrev runner : QueryRunner
runner = record {
  scan_func = λ columns mem active. 7;
  string_predicates = [];
  all_predicates = [];
  string_col_indices = [];
  clean_string_patterns = [];
  agg_col_idx = some 0;
  max_agg_bit = 1;
  agg_col_name = codes "v";
}

abbrev outside : Memory
outside p = 0

abbrev state : TableState
state = record {
  table_name = codes "t";
  column_names = codes "v" ∷ [];
  column_types = 9 ∷ [];
  persisted_groups = 1 ∷ 1 ∷ [];
  active_memtable = 2;
  frozen_memtable = none;
  version = 1;
}

abbrev store : Store
store = record {
  groups = λ p. group;
  memtables = λ p. empty;
  states = λ p. state;
  fresh = 4;
  tables = (codes "t", 3) ∷ [];
  global_tables = [];
}

-- The same row group twice: four rows, with the sum 10.
execute-state : execute_state runner outside store state ≡ (4, 10)
unfolding execute_state scan_groups scan_memtable add_result execute execute_blocks final_mask
    candidates verify_strings popcount aggregate_block block_sum highest_plane add_plane for_steps
    rows_of_block execute_query query_batches
execute-state = refl
