-- ===== src/Query/Planner/Tests.antt =====
-- A plan for a string column and a column of numbers.
use green_gate.Base.{ℕ, ◌≡◌, refl, true, false, some, List, [], ◌∷◌, replicate}
use green_gate.Base.Bytes.{Bytes, bytes_eq, codes}
use green_gate.Query.Text.{clean_pattern}
use green_gate.Storage.Codec.{from_le}
use green_gate.Query.{like_prefix, gt, Predicate}
use green_gate.Query.Tail.{Memory}
use green_gate.Query.Compiler.{MicroOp, cmp_skeleton, cmp_gt, bits_compared}
use green_gate.Query.Compiler.Semantics.{is_scoped}
use green_gate.Query.Planner.{
  load, compare_with, physical_idx, str_col_idx, logical_columns, highest_bit, plane_active,
  threshold_msb, compare_op, skeleton_constant, string_ops, numeric_ops, emit, plan_string,
  plan_number, plan_predicates, all_ops, plan_aggregate, plan,
}
use green_gate.Query.Planner.Scoping.{plan-is_scoped}
use green_gate.Query.Runner.{QueryRunner}
use green_gate.Storage.{CbstTile, RowGroup}

abbrev tile : CbstTile
tile = record { planes = 1 ∷ 3 ∷ replicate 62 0; validity = 0; padding = replicate 7 0 }

abbrev group : RowGroup
group = record {
  num_rows = 2;
  num_columns = 3;
  column_names = codes "s" ∷ codes "s_kim" ∷ codes "v" ∷ [];
  column_types = 13 ∷ 8 ∷ 9 ∷ [];
  blocks =
      record { columns = tile ∷ tile ∷ tile ∷ []; tail_payload = replicate 64 0; delete_mask = 3 }
      ∷ [];
}

abbrev starts_a : Predicate
starts_a = record {
  column_name = codes "s";
  op = like_prefix;
  value = codes "a%";
  numeric_value = 0;
  is_string = true;
}

abbrev above_five : Predicate
above_five = record {
  column_name = codes "v";
  op = gt;
  value = [];
  numeric_value = 5;
  is_string = false;
}

-- The active rows, whatever the operations.
abbrev all_rows : List CbstTile → Memory → ℕ → ℕ
all_rows columns mem active = active

abbrev small_runner : QueryRunner
small_runner = record {
  scan_func = all_rows;
  string_predicates = starts_a ∷ [];
  all_predicates = starts_a ∷ above_five ∷ [];
  string_col_indices = 0 ∷ [];
  clean_string_patterns = codes "a" ∷ [];
  agg_col_idx = some 2;
  max_agg_bit = 1;
  agg_col_name = codes "v";
}

plan-small_runner :
    plan (λ ops. some all_rows) (starts_a ∷ above_five ∷ []) group (codes "v") ≡ some small_runner
unfolding plan plan_predicates plan_string plan_number all_ops plan_aggregate physical_idx
    str_col_idx logical_columns string_ops numeric_ops emit highest_bit plane_active bytes_eq
    clean_pattern
plan-small_runner = refl

plan-is_scoped_example :
    (ops : List MicroOp) × (some all_rows ≡ some all_rows) × (is_scoped [] ops ≡ true)
plan-is_scoped_example =
    plan-is_scoped (λ ops. some all_rows) (starts_a ∷ above_five ∷ []) group (codes "v")
      small_runner plan-small_runner

-- Five is compared in three bits, although the column has two.
numeric_ops-above_five :
    numeric_ops above_five group 2 7 ≡ (load 7 2 ∷ compare_with cmp_gt 8 7 3 5 ∷ [], some 8)
unfolding numeric_ops compare_op threshold_msb highest_bit plane_active
numeric_ops-above_five = refl

-- The pattern of all strings.
abbrev any : Bytes
any = codes "%"

-- It asks for a comparison of no bits, which stands for all of them.
string_ops-any :
    string_ops like_prefix any 0 1 0 ≡ (load 0 0 ∷ compare_with cmp_skeleton 1 0 0 0 ∷ [], some 1)
unfolding string_ops skeleton_constant clean_pattern from_le
string_ops-any = refl

bits_compared-any : bits_compared 32 0 ≡ 32
unfolding bits_compared
bits_compared-any = refl
