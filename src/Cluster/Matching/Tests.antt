-- ===== src/Cluster/Matching/Tests.antt =====
-- A batch of two rows, matched by a node and by the in-memory table.
use green_gate.Base.{◌≡◌, refl, true, false, some, [], ◌∷◌, ◌==◌}
use green_gate.Base.Bytes.{codes}
use green_gate.Query.{PredicateOp, like_prefix, gt, Predicate, Column, RecordBatch}
use green_gate.Lsm.MemTable.{match_string, test_row, filter_rows, apply_predicates, matching_rows}
use green_gate.Cluster.Matching.{keep_string, keep_row, keep_rows, keep_all, get_matching_rows}
use green_gate.Cluster.Matching.Laws.{get_matching_rows-matching_rows}

abbrev names : Column
names = record { is_null = λ r. r == 1; view = λ r. codes "abc"; value_at = λ r. 0 }

abbrev batch : RecordBatch
batch = record { num_rows = 2; column_by_name = λ name. some names; buffer_sizes = [] }

abbrev predicate_of : PredicateOp → Predicate
predicate_of op = record {
  column_name = codes "name";
  op = op;
  value = codes "ab%";
  numeric_value = 0;
  is_string = true;
}

get_matching_rows-matching_rows_example :
    get_matching_rows batch (predicate_of like_prefix ∷ [])
    ≡ matching_rows batch (predicate_of like_prefix ∷ [])
get_matching_rows-matching_rows_example =
    get_matching_rows-matching_rows batch (predicate_of like_prefix ∷ []) (refl, tt)

-- An order on strings: the node keeps the row, the table rejects it.
get_matching_rows_gt : get_matching_rows batch (predicate_of gt ∷ []) ≡ true ∷ false ∷ []
unfolding get_matching_rows keep_all keep_rows keep_row keep_string
get_matching_rows_gt = refl

matching_rows_gt : matching_rows batch (predicate_of gt ∷ []) ≡ false ∷ false ∷ []
unfolding matching_rows apply_predicates filter_rows test_row match_string
matching_rows_gt = refl
