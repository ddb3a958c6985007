-- ===== src/Cluster/Join.antt =====
-- `DistributedCoordinator::ExecuteJoinQuery` of src/lex/distributed/distributed_coordinator.cpp: the
-- nodes prepare their entries, exchange them, join what they got, and the coordinator compares the
-- strings of each pair. Every message is taken to arrive, which the transport answers for.
pub mod Laws
pub mod Rows
mod Tests
use green_gate.Base.{
  ℕ, zero, suc, ◌+◌, ◌%◌, ◌^◌, Bool, none, some, List, [], ◌∷◌, ◌++◌, ltb, ◌==◌, if◌then◌else◌,
  get_elem?, get_or,
}
use green_gate.Base.Bytes.{Bytes, bytes_eq}
use green_gate.Cluster.{FatSignature, ShuffleEntry}
use green_gate.Cluster.RowId.{unpack_row_id}
use green_gate.Cluster.Shuffle.{sig_eq, left_sends, right_sends, perform_local_join}
use green_gate.Cluster.Sides.{prepare_side}
use green_gate.Query.{Predicate, RecordBatch}

-- `left_batches_` and `right_batches_` of each node.
pub record Cluster : Type 0 where
  pub num_nodes : ℕ
  pub left_batches : ℕ → List RecordBatch
  pub right_batches : ℕ → List RecordBatch

-- `GetLeftStringVal` and `GetRightStringVal` of the node that has the row. A batch out of range,
-- which is undefined there, reads as a missing column.
unfoldable pub string_val : (ℕ → List RecordBatch) → ℕ → Bytes → Bytes
unfolding unpack_row_id
string_val batches row_id col_name =
    let id = unpack_row_id row_id in
    elim (get_elem? (batches id.node_id) id.batch_idx) [
      | none ↦ []
      | some batch ↦ elim (batch.column_by_name col_name) [
        | none ↦ []
        | some col ↦ col.view id.row_idx
      ]
    ]

-- `GetLeftNumericVal`.
unfoldable pub numeric_val : (ℕ → List RecordBatch) → ℕ → Bytes → ℕ
unfolding unpack_row_id
numeric_val batches row_id col_name =
    let id = unpack_row_id row_id in
    elim (get_elem? (batches id.node_id) id.batch_idx) [
      | none ↦ 0
      | some batch ↦ elim (batch.column_by_name col_name) [
        | none ↦ 0
        | some col ↦ col.value_at id.row_idx
      ]
    ]

-- The entries that the nodes from `n` on, `k` of them, prepare for a side.
unfoldable pub prepare_all :
    (ℕ → List RecordBatch) → List Predicate → Bytes → ℕ → ℕ → List ShuffleEntry
unfolding prepare_side
prepare_all batches preds join_col n zero = []
prepare_all batches preds join_col n (suc k) =
    prepare_side n 0 (batches n) preds join_col ++ prepare_all batches preds join_col (n + 1) k

-- `global_counts[sig]`, and membership in `global_hot_signatures`.
unfoldable pub global_count : FatSignature → List ShuffleEntry → ℕ
unfolding sig_eq
global_count sig [] = 0
global_count sig (entry ∷ entries) =
    if sig_eq entry.sig sig then suc (global_count sig entries) else global_count sig entries

unfoldable pub is_hot : List ShuffleEntry → FatSignature → Bool
unfolding global_count
is_hot entries sig = ltb 16 (global_count sig entries)

-- `l_val == r_val`
unfoldable pub same_strings : Cluster → Bytes → Bytes → ℕ × ℕ → Bool
unfolding string_val
same_strings cluster left_join_col right_join_col (left_id, right_id) =
    bytes_eq (string_val cluster.left_batches left_id left_join_col)
      (string_val cluster.right_batches right_id right_join_col)

-- The loop over the matches of a node, with `total_matches` and `out_agg_sum` so far.
unfoldable pub verify_matches : Cluster → Bytes → Bytes → Bytes → List (ℕ × ℕ) → ℕ → ℕ → ℕ × ℕ
unfolding numeric_val
verify_matches cluster left_join_col right_join_col agg_col [] total sum = (total, sum)
verify_matches cluster left_join_col right_join_col agg_col ((left_id, right_id) ∷ matches) total
      sum =
    let same = same_strings cluster left_join_col right_join_col (left_id, right_id) in
    let added = (sum + numeric_val cluster.left_batches left_id agg_col) % 2 ^ 64 in
    let no_column = bytes_eq agg_col [] in
    verify_matches cluster left_join_col right_join_col agg_col matches
      (if same then (total + 1) % 2 ^ 64 else total)
      (if same then (if no_column then sum else added) else sum)

-- The loop over the nodes, from node `n`.
unfoldable pub join_nodes :
    Cluster
    → Bytes
    → Bytes
    → Bytes
    → List (List ShuffleEntry)
    → List (List ShuffleEntry)
    → ℕ
    → ℕ
    → ℕ
    → ℕ
    → ℕ × ℕ
unfolding verify_matches perform_local_join
join_nodes cluster left_join_col right_join_col agg_col left right n zero total sum = (total, sum)
join_nodes cluster left_join_col right_join_col agg_col left right n (suc k) total sum =
    let matches = perform_local_join (get_or left n []) (get_or right n []) in
    let (total', sum') =
      verify_matches cluster left_join_col right_join_col agg_col matches total sum in
    join_nodes cluster left_join_col right_join_col agg_col left right (n + 1) k total' sum'

-- `ExecuteJoinQuery`: the number of matches and `out_agg_sum`.
unfoldable pub execute_join_query :
    Cluster → Bytes → Bytes → List Predicate → List Predicate → Bytes → ℕ × ℕ
unfolding prepare_all is_hot join_nodes left_sends right_sends
execute_join_query cluster left_join_col right_join_col left_preds right_preds agg_col =
    let left = prepare_all cluster.left_batches left_preds left_join_col 0 cluster.num_nodes in
    let right = prepare_all cluster.right_batches right_preds right_join_col 0 cluster.num_nodes in
    let hot = is_hot left in
    join_nodes cluster left_join_col right_join_col agg_col (left_sends hot cluster.num_nodes left)
      (right_sends hot cluster.num_nodes right) 0 cluster.num_nodes 0 0
