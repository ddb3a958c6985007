-- ===== src/Query/Runner/Spec.antt =====
-- What a scan of a row group means, row by row: a row is selected if it is within the block, the
-- compiled function kept it, and its strings match.
use green_gate.Base.{
  ℕ, zero, suc, ◌+◌, ◌*◌, Bool, true, ◌&&◌, Option, none, some, List, [], ◌∷◌, ltb, ◌==◌,
  if◌then◌else◌, drop, get_or,
}
use green_gate.Base.Bits.{bit}
use green_gate.Base.Bytes.{Bytes}
use green_gate.Query.{Predicate}
use green_gate.Query.Tail.{Memory, memory_of, string_at}
use green_gate.Query.Runner.{QueryRunner, rows_of_block}
use green_gate.Query.Runner.Sums.{plane_value}
use green_gate.Lsm.MemTable.{match_string}
use green_gate.Storage.{BlockData, RowGroup}

-- The strings of row `i` pass every predicate, each tested as in the in-memory table.
unfoldable pub strings_match : Memory → ℕ → List Predicate → List Bytes → List ℕ → ℕ → Bool
strings_match mem rows [] pats cols i = true
strings_match mem rows (pred ∷ preds) pats cols i =
    match_string (string_at mem (get_or cols 0 0 * rows + i)) pred.op (get_or pats 0 [])
    && strings_match mem rows preds (drop 1 pats) (drop 1 cols) i

unfoldable pub is_selected : QueryRunner → Memory → ℕ → BlockData → ℕ → Bool
unfolding strings_match
is_selected runner mem rows block i =
    ltb i rows
    && ((bit (runner.scan_func block.columns mem block.delete_mask) i == 1)
        && strings_match mem rows runner.string_predicates runner.clean_string_patterns
            runner.string_col_indices i)

-- `f i + … + f (i + n - 1)`.
unfoldable pub sum_range : ℕ → ℕ → (ℕ → ℕ) → ℕ
sum_range zero i f = 0
sum_range (suc n) i f = f i + sum_range n (i + 1) f

-- The value of row `i` in the column that is summed, if there is one, by the planes up to `top`.
unfoldable pub value_of : Option ℕ → ℕ → BlockData → ℕ → ℕ
unfolding plane_value
value_of none top block i = 0
value_of (some c) top block i =
    plane_value (get_or block.columns c (record { planes = []; validity = 0; padding = [] })).planes
      (suc top) i

unfoldable pub aggregated_value : QueryRunner → BlockData → ℕ → ℕ
unfolding value_of
aggregated_value runner = value_of runner.agg_col_idx runner.max_agg_bit

-- `f` summed over the selected rows of the blocks from block `b` on.
unfoldable pub sum_selected :
    QueryRunner → Memory → RowGroup → (BlockData → ℕ → ℕ) → ℕ → List BlockData → ℕ
unfolding is_selected sum_range
sum_selected runner outside rg f b [] = 0
sum_selected runner outside rg f b (block ∷ blocks) =
    let mem = memory_of outside block.tail_payload in
    sum_range 64 0
      (λ i. if is_selected runner mem (rows_of_block rg b) block i then f block i else 0)
    + sum_selected runner outside rg f (b + 1) blocks
