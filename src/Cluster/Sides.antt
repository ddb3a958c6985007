-- ===== src/Cluster/Sides.antt =====
-- The sides of a join in src/lex/distributed/distributed_coordinator.cpp: how a batch is divided
-- among the nodes, and the signatures that a node prepares for its rows.
pub mod Laws
mod Tests
use green_gate.Base.{
  ℕ, zero, suc, ◌+◌, ◌-◌, ◌*◌, ◌/◌, ◌%◌, ◌^◌, bit_xor, Bool, not, ◌&&◌, none, some, List, [], ◌∷◌,
  ◌++◌, ltb, ◌==◌, if◌then◌else◌,
}
use green_gate.Base.Bytes.{Bytes}
use green_gate.Cluster.{FatSignature, ShuffleEntry}
use green_gate.Cluster.Matching.{get_matching_rows}
use green_gate.Cluster.RowId.{pack_row_id}
use green_gate.Ingest.Kim.{generate_kim_signature}
use green_gate.Query.{Predicate, Column, RecordBatch}

-- The loop of `DistributeAndIngest` over `k` nodes from node `n` on: the node, the start and the
-- length of each slice that is sent.
unfoldable pub distribute_from : ℕ → ℕ → ℕ → ℕ → List (ℕ × ℕ × ℕ)
distribute_from num_nodes total_rows n zero = []
distribute_from num_nodes total_rows n (suc k) =
    let rows_per_node = total_rows / num_nodes in
    let start = n * rows_per_node in
    let length = if n == num_nodes - 1 then total_rows - start else rows_per_node in
    let rest = distribute_from num_nodes total_rows (n + 1) k in
    if ltb 0 length then (n, start, length) ∷ rest else rest

unfoldable pub distribute : ℕ → ℕ → List (ℕ × ℕ × ℕ)
unfolding distribute_from
distribute num_nodes total_rows = distribute_from num_nodes total_rows 0 num_nodes

-- `GenerateXorSum`: the 64-bit FNV hash, from a hash on.
unfoldable pub xor_sum_from : Bytes → ℕ → ℕ
xor_sum_from [] hash = hash
xor_sum_from (c ∷ str) hash = xor_sum_from str (bit_xor hash c * 1099511628211 % 2 ^ 64)

unfoldable pub generate_xor_sum : Bytes → ℕ
unfolding xor_sum_from
generate_xor_sum str = xor_sum_from str 14695981039346656037

unfoldable pub signature_of : Bytes → FatSignature
unfolding generate_xor_sum generate_kim_signature
signature_of val = record { kim = generate_kim_signature val; xor_sum = generate_xor_sum val }

-- The loop over the rows of a batch, from row `r`, with the flags of the rows left.
unfoldable pub sign_rows : ℕ → ℕ → Column → ℕ → List Bool → List ShuffleEntry
unfolding signature_of pack_row_id
sign_rows node_id b col r [] = []
sign_rows node_id b col r (m ∷ matches) =
    let rest = sign_rows node_id b col (r + 1) matches in
    if m && not (col.is_null r)
    then record { sig = signature_of (col.view r); row_id = pack_row_id node_id b r } ∷ rest
    else rest

-- The loop over the batches of one side, from batch `b`; a batch without the column is left out.
unfoldable pub prepare_side : ℕ → ℕ → List RecordBatch → List Predicate → Bytes → List ShuffleEntry
unfolding sign_rows get_matching_rows
prepare_side node_id b [] preds join_col = []
prepare_side node_id b (batch ∷ batches) preds join_col =
    let rest = prepare_side node_id (b + 1) batches preds join_col in
    elim (batch.column_by_name join_col) [
      | none ↦ rest
      | some col ↦ sign_rows node_id b col 0 (get_matching_rows batch preds) ++ rest
    ]

-- `PrepareJoinSignatures`: the entries of the two sides of a node.
unfoldable pub prepare_join_signatures :
    ℕ
    → List RecordBatch
    → List RecordBatch
    → List Predicate
    → List Predicate
    → Bytes
    → Bytes
    → List ShuffleEntry × List ShuffleEntry
unfolding prepare_side
prepare_join_signatures node_id left_batches right_batches left_preds right_preds left_join_col
      right_join_col =
    (
      prepare_side node_id 0 left_batches left_preds left_join_col,
      prepare_side node_id 0 right_batches right_preds right_join_col,
    )
