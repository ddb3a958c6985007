-- ===== src/Cluster/Join/Tests.antt =====
-- Two nodes with one batch on each side, joined by a column of strings.
use green_gate.Base.{◌%◌, ◌^◌, ◌≡◌, refl, false, none, some, [], ◌∷◌, ◌==◌, if◌then◌else◌, arith}
use green_gate.Base.Bytes.{bytes_eq, codes}
use green_gate.Cluster.Join.{Cluster, execute_join_query}
use green_gate.Cluster.Join.Rows.{
  keyed_rows, keyed_side, keyed_all, equal_to, equal_pairs, IsInRange,
  execute_join_query-equal_pairs,
}
use green_gate.Cluster.Matching.{get_matching_rows, keep_all}
use green_gate.Cluster.RowId.{pack_row_id}
use green_gate.Query.{Column, RecordBatch}

-- The rows "x" and "y".
abbrev key_column : Column
key_column = record {
  is_null = λ r. false;
  view = λ r. if r == 0 then codes "x" else codes "y";
  value_at = λ r. r;
}

abbrev batch : RecordBatch
batch = record {
  num_rows = 2;
  column_by_name = λ name. if bytes_eq name (codes "k") then some key_column else none;
  buffer_sizes = [];
}

abbrev cluster : Cluster
cluster = record { num_nodes = 2; left_batches = λ n. batch ∷ []; right_batches = λ n. batch ∷ [] }

in_range : IsInRange (λ n. batch ∷ []) 0 2
in_range = (omega arith, (omega arith, tt), (omega arith, (omega arith, tt), tt))

execute_join_query-equal_pairs_example :
    (execute_join_query cluster (codes "k") (codes "k") [] [] []).0
    ≡ equal_pairs
        (keyed_all (λ n. batch ∷ []) [] (codes "k") 0 2)
        (keyed_all (λ n. batch ∷ []) [] (codes "k") 0 2)
      % 2 ^ 64
execute_join_query-equal_pairs_example =
    execute_join_query-equal_pairs cluster (codes "k") (codes "k") [] [] [] (omega arith)
      (omega arith) in_range in_range

-- Each string has two rows on each side.
equal_pairs-cluster :
    equal_pairs
      (keyed_all (λ n. batch ∷ []) [] (codes "k") 0 2)
      (keyed_all (λ n. batch ∷ []) [] (codes "k") 0 2)
    ≡ 8
unfolding equal_pairs equal_to keyed_all keyed_side keyed_rows get_matching_rows keep_all
    pack_row_id bytes_eq
equal_pairs-cluster = refl
