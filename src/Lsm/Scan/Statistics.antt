-- ===== src/Lsm/Scan/Statistics.antt =====
-- `QueryRunner::ExecuteQueryResult` of src/lex/jit/query_planner.cpp: the statistics of a query over
-- a row group, and over a table state, whose parts' statistics are merged. Rows are selected by
-- loops of its own, as by `Execute`. The vectors are taken whole: their order is that of the blocks and rows.
pub mod Selection
pub mod Laws
mod Tests
use green_gate.Base.{
  ℕ, zero, suc, ◌+◌, ◌*◌, ◌%◌, ◌^◌, Bool, true, false, Option, none, some, List, [], ◌∷◌, ◌++◌, map,
  ◌==◌, if◌then◌else◌, length, get_or,
}
use green_gate.Base.Bytes.{Bytes, bytes_eq}
use green_gate.Base.Int.{ltb_signed}
use green_gate.Base.SetBits.{for_set_bits}
use green_gate.Base.SetBits.Sums.{popcount}
use green_gate.Ingest.Transposer.{butterfly_transpose}
use green_gate.Query.{Column, RecordBatch, Predicate}
use green_gate.Query.Tail.{Memory, memory_of, string_at}
use green_gate.Query.Runner.{QueryRunner, rows_of_block}
use green_gate.Lsm.Scan.Statistics.Selection.{result_mask}
use green_gate.Lsm.MemTable.{MemTable}
use green_gate.Lsm.MemTable.Statistics.{
  QueryResult, no_result, Collected, is_empty_name, distinct, sort, median, numeric_statistics,
  string_statistics, execute_query_result,
}
use green_gate.Lsm.Promotion.Access.{Counts, record_all}
use green_gate.Lsm.Registry.{TableState, Store}
use green_gate.Storage.{BlockData, RowGroup}

-- The string columns among the first `n`.
unfoldable pub strings_before : List ℕ → ℕ → ℕ
strings_before types zero = 0
strings_before [] (suc n) = 0
strings_before (t ∷ types) (suc n) = (if t == 13 then 1 else 0) + strings_before types n

-- The string of row `i`, and its number: appended to what is collected.
unfoldable pub push_string : Memory → ℕ → ℕ → Collected → Collected
push_string mem base i c = record c { strings = c.strings ++ string_at mem (base + i) ∷ [] }

unfoldable pub push_number : List ℕ → ℕ → Collected → Collected
push_number dest i c =
    let val = get_or dest i 0 in
    record c { numerics = c.numerics ++ val ∷ []; sum = (c.sum + val) % 2 ^ 64 }

-- The values of the matching rows of a block.
unfoldable pub gather : Option ℕ → Memory → RowGroup → ℕ → ℕ → BlockData → Collected → Collected
unfolding strings_before push_string push_number
gather none mem rg rows mask block c = c
gather (some col) mem rg rows mask block c =
    let base = strings_before rg.column_types col * rows in
    let tile = get_or block.columns col (record { planes = []; validity = 0; padding = [] }) in
    let dest = butterfly_transpose tile.planes in
    if c.is_agg_str
    then for_set_bits 64 (push_string mem base) mask c
    else for_set_bits 64 (push_number dest) mask c

-- The loop over the blocks, from block `b`.
unfoldable pub gather_blocks :
    QueryRunner → Memory → RowGroup → ℕ → List BlockData → Collected → Collected
unfolding gather result_mask
gather_blocks runner outside rg b [] c = c
gather_blocks runner outside rg b (block ∷ blocks) c =
    let mem = memory_of outside block.tail_payload in
    let rows = rows_of_block rg b in
    let mask = result_mask runner mem rows block in
    let pop = popcount 64 mask in
    let counted = record c { count = (c.count + pop) % 2 ^ 64 } in
    gather_blocks runner outside rg (b + 1) blocks
      (if pop == 0 then counted else gather runner.agg_col_idx mem rg rows mask block counted)

-- `is_agg_str`
unfoldable pub is_string_column : Option ℕ → List ℕ → Bool
is_string_column none types = false
is_string_column (some col) types = get_or types col 0 == 13

unfoldable pub has_column : Option ℕ → Bool
has_column none = false
has_column (some col) = true

-- `ExecuteQueryResult` on a row group.
unfoldable pub execute_group_result : QueryRunner → Memory → RowGroup → QueryResult
unfolding gather_blocks is_string_column has_column
execute_group_result runner outside rg =
    let c = gather_blocks runner outside rg 0 rg.blocks (record {
      count = 0;
      sum = 0;
      numerics = [];
      strings = [];
      is_agg_str = is_string_column runner.agg_col_idx rg.column_types;
    }) in
    let res = record no_result { count = c.count; sum = c.sum } in
    if c.count == 0
    then res
    else if has_column runner.agg_col_idx
    then (if c.is_agg_str
        then string_statistics c.strings res
        else numeric_statistics c.numerics res)
    else res

-- `merged`, `first`, `all_numerics` and `all_strings`.
pub record Merge : Type 0 where
  pub merged : QueryResult
  pub first : Bool
  pub all_numerics : List ℕ
  pub all_strings : List Bytes

-- The body of the loop over the results.
unfoldable pub merge_one : Merge → QueryResult → Merge
merge_one m r =
    let total = record m.merged {
      count = (m.merged.count + r.count) % 2 ^ 64;
      sum = (m.merged.sum + r.sum) % 2 ^ 64;
    } in
    let lowest = if ltb_signed r.min_val m.merged.min_val then r.min_val else m.merged.min_val in
    let highest = if ltb_signed m.merged.max_val r.max_val then r.max_val else m.merged.max_val in
    if r.count == 0 then record m { merged = total } else record {
      merged = record total {
        min_val = if m.first then r.min_val else lowest;
        max_val = if m.first then r.max_val else highest;
      };
      first = false;
      all_numerics = m.all_numerics ++ r.distinct_numerics;
      all_strings = m.all_strings ++ r.distinct_strings;
    }

unfoldable pub merge_all : Merge → List QueryResult → Merge
unfolding merge_one
merge_all m [] = m
merge_all m (r ∷ results) = merge_all (merge_one m r) results

-- The numbers of all parts, if there is one.
unfoldable pub merge_numbers : List ℕ → QueryResult → QueryResult
unfolding distinct sort median
merge_numbers [] merged = merged
merge_numbers (v ∷ values) merged =
    let dist_set = distinct (λ a b. a == b) [] (v ∷ values) in
    record merged {
      avg = (merged.sum, length (v ∷ values));
      distinct_count = length dist_set;
      distinct_numerics = dist_set;
      median_val = median (sort (v ∷ values));
    }

-- The merged result of all parts.
unfoldable pub merge_results : Bool → List QueryResult → QueryResult
unfolding merge_all merge_numbers distinct
merge_results is_string results =
    let m =
      merge_all (record { merged = no_result; first = true; all_numerics = []; all_strings = [] })
        results in
    let dist_set = distinct bytes_eq [] m.all_strings in
    if m.merged.count == 0
    then m.merged
    else if is_string
    then record m.merged { distinct_count = length dist_set; distinct_strings = dist_set }
    else merge_numbers m.all_numerics m.merged

-- `is_string`: by the first row group, or else by the first batch of the active table.
unfoldable pub first_is_string : (Column → Bool) → QueryRunner → Store → TableState → Bool
unfolding is_string_column has_column
first_is_string has_string_type runner s state =
    let of_group : List ℕ → Bool = λ groups. elim groups [
      | [] ↦ false
      | p ∷ ps ↦ is_string_column runner.agg_col_idx (s.groups p).column_types
    ] in
    let of_batch : List RecordBatch → Bool = λ batches. elim batches [
      | [] ↦ false
      | batch ∷ rest ↦ elim (batch.column_by_name runner.agg_col_name) [
        | none ↦ false
        | some col ↦ has_string_type col
      ]
    ] in
    if has_column runner.agg_col_idx
    then (if of_group state.persisted_groups
        then true
        else of_batch (s.memtables state.active_memtable).batches)
    else false

-- The results of the parts: of the row groups, the active table and the frozen one.
unfoldable pub part_results :
    (Column → Bool) → QueryRunner → Memory → Store → TableState → List QueryResult
unfolding execute_group_result execute_query_result
part_results has_string_type runner outside s state =
    let of_table : ℕ → QueryResult = λ p.
      execute_query_result has_string_type (s.memtables p) runner.all_predicates
        runner.agg_col_name in
    map (λ p. execute_group_result runner outside (s.groups p)) state.persisted_groups
    ++ of_table state.active_memtable
      ∷ elim state.frozen_memtable [ none ↦ [] | some p ↦ of_table p ∷ [] ]

-- The columns whose accesses are recorded.
unfoldable pub accessed : QueryRunner → List Bytes
unfolding is_empty_name
accessed runner =
    map (λ pred. pred.column_name) runner.all_predicates
    ++ (if is_empty_name runner.agg_col_name then [] else runner.agg_col_name ∷ [])

-- `ExecuteQueryResult` on a table state: the result, the access counts, and the columns whose
-- promotion is requested.
unfoldable pub execute_state_result :
    (Column → Bool)
    → QueryRunner
    → Memory
    → Store
    → TableState
    → Counts
    → QueryResult × (Counts × List Bytes)
unfolding merge_results first_is_string part_results accessed record_all
execute_state_result has_string_type runner outside s state counts = (
  merge_results (first_is_string has_string_type runner s state)
      (part_results has_string_type runner outside s state),
  record_all (accessed runner) counts,
)
