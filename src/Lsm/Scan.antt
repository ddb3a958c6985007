-- ===== src/Lsm/Scan.antt =====
-- `QueryRunner::Execute` on a table state in src/lex/jit/query_planner.cpp: the row groups, the active
-- table and the one that is being compacted.
pub mod Laws
pub mod Statistics
mod Tests
use green_gate.Base.{ℕ, ◌+◌, ◌%◌, ◌^◌, none, some, List, [], ◌∷◌}
use green_gate.Query.Tail.{Memory}
use green_gate.Query.Runner.{QueryRunner, execute}
use green_gate.Lsm.MemTable.{MemTable, execute_query}
use green_gate.Lsm.Registry.{TableState, Store}
use green_gate.Storage.{RowGroup}

-- `total_matches` and `out_agg_sum` with the results of one part added.
unfoldable pub add_result : ℕ × ℕ → ℕ × ℕ → ℕ × ℕ
add_result (total, sum) (matches, local_sum) =
    ((total + matches) % 2 ^ 64, (sum + local_sum) % 2 ^ 64)

-- The loop over the row groups, given by address.
unfoldable pub scan_groups : QueryRunner → Memory → (ℕ → RowGroup) → List ℕ → ℕ × ℕ → ℕ × ℕ
unfolding add_result
scan_groups runner outside groups [] acc = acc
scan_groups runner outside groups (p ∷ ps) acc =
    scan_groups runner outside groups ps (add_result acc (execute runner outside (groups p)))

unfoldable pub scan_memtable : QueryRunner → MemTable → ℕ × ℕ → ℕ × ℕ
unfolding add_result
scan_memtable runner t acc =
    add_result acc (execute_query t runner.all_predicates runner.agg_col_name)

-- `Execute` on a table state.
unfoldable pub execute_state : QueryRunner → Memory → Store → TableState → ℕ × ℕ
unfolding scan_groups scan_memtable
execute_state runner outside s state =
    let scanned = scan_groups runner outside s.groups state.persisted_groups (0, 0) in
    let active = scan_memtable runner (s.memtables state.active_memtable) scanned in
    elim state.frozen_memtable [
      | none ↦ active
      | some frozen ↦ scan_memtable runner (s.memtables frozen) active
    ]
