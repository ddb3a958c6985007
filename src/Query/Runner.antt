-- ===== src/Query/Runner.antt =====
-- `QueryRunner::Execute` of src/lex/jit/query_planner.cpp: the scan of a row group. The compiled
-- function narrows the rows of a block; string predicates are then checked on the tail, row by row,
-- and the matching rows are counted and summed from the bit planes.
pub mod Strings
pub mod Sums
pub mod Spec
pub mod Laws
mod Tests
use green_gate.Base.{
  ℕ, zero, suc, ◌+◌, ◌-◌, ◌*◌, ◌/◌, ◌%◌, ◌^◌, min, bit_and, Bool, true, false, Option, none, some,
  List, [], ◌∷◌, ltb, leb, ◌==◌, if◌then◌else◌, length, drop, get_or,
}
use green_gate.Base.Bytes.{Bytes, bytes_eq}
use green_gate.Base.Loops.{for_steps}
use green_gate.Base.SetBits.{for_set_bits, mark}
use green_gate.Base.SetBits.Sums.{popcount}
use green_gate.Query.{PredicateOp, eq, like_prefix, like_contains, gt, lt, Predicate}
use green_gate.Query.Text.{contains}
use green_gate.Query.Tail.{
  Memory, memory_of, bytes_at, word_at, string_start, string_len, string_at,
}
use green_gate.Storage.{CbstTile, BlockData, RowGroup}
use green_gate.Storage.Codec.{from_le}

-- `scan_func` is the compiled function without its materialized output, which no caller reads.
-- `agg_col_idx` is `none` for -1.
pub record QueryRunner : Type 0 where
  pub scan_func : List CbstTile → Memory → ℕ → ℕ
  pub string_predicates : List Predicate
  pub all_predicates : List Predicate
  pub string_col_indices : List ℕ
  pub clean_string_patterns : List Bytes
  pub agg_col_idx : Option ℕ
  pub max_agg_bit : ℕ
  pub agg_col_name : Bytes

-- The candidates of a block, without the rows beyond the last.
unfoldable pub candidates : QueryRunner → Memory → BlockData → ℕ → ℕ
candidates runner mem block rows_in_block =
    let mask = runner.scan_func block.columns mem block.delete_mask in
    if ltb rows_in_block 64 then bit_and mask (2 ^ rows_in_block - 1) else mask

-- The comparison of the first bytes of a string: by one word if the pattern is short.
unfoldable pub head_matches : Memory → ℕ → Bytes → Bool
head_matches mem p pat =
    let word_test = bit_and (word_at mem p) (2 ^ (length pat * 8) - 1) == from_le pat in
    let bytes_test = bytes_eq (bytes_at mem p (length pat)) pat in
    if ltb (length pat) 8 then word_test else bytes_test

-- The tests of string `k` of the tail by an operation and a cleaned pattern.
unfoldable pub eq_test : Memory → Bytes → ℕ → Bool
unfolding head_matches
eq_test mem pat k =
    if string_len mem k == length pat then head_matches mem (string_start mem k) pat else false

unfoldable pub prefix_test : Memory → Bytes → ℕ → Bool
unfolding head_matches
prefix_test mem pat k =
    if leb (length pat) (string_len mem k) then head_matches mem (string_start mem k) pat else false

unfoldable pub contains_test : Memory → Bytes → ℕ → Bool
contains_test mem pat k =
    if leb (length pat) (string_len mem k) then contains pat (string_at mem k) else false

-- The rows that one predicate leaves of the candidates; an operation without a loop leaves none.
unfoldable pub verify_one : Memory → PredicateOp → Bytes → ℕ → ℕ → ℕ
unfolding eq_test prefix_test contains_test
verify_one mem eq pat base_idx mask =
    for_set_bits 64 (mark (λ i. eq_test mem pat (base_idx + i))) mask 0
verify_one mem like_prefix pat base_idx mask =
    for_set_bits 64 (mark (λ i. prefix_test mem pat (base_idx + i))) mask 0
verify_one mem like_contains pat base_idx mask =
    for_set_bits 64 (mark (λ i. contains_test mem pat (base_idx + i))) mask 0
verify_one mem gt pat base_idx mask = 0
verify_one mem lt pat base_idx mask = 0

-- One predicate of several: an operation without a test lets the row pass.
unfoldable pub row_test : Memory → PredicateOp → Bytes → ℕ → Bool
unfolding eq_test prefix_test contains_test
row_test mem eq pat k = eq_test mem pat k
row_test mem like_prefix pat k = prefix_test mem pat k
row_test mem like_contains pat k = contains_test mem pat k
row_test mem gt pat k = true
row_test mem lt pat k = true

-- The loop over several predicates for row `i`, which ends at the first that fails.
unfoldable pub row_matches : Memory → ℕ → List Predicate → List Bytes → List ℕ → ℕ → Bool
unfolding row_test
row_matches mem rows_in_block [] pats cols i = true
row_matches mem rows_in_block (pred ∷ preds) pats cols i =
    let rest = row_matches mem rows_in_block preds (drop 1 pats) (drop 1 cols) i in
    if row_test mem pred.op (get_or pats 0 []) (get_or cols 0 0 * rows_in_block + i)
    then rest
    else false

-- The rows of a block that pass the string predicates.
unfoldable pub verify_strings : Memory → ℕ → List Predicate → List Bytes → List ℕ → ℕ → ℕ
unfolding verify_one row_matches
verify_strings mem rows_in_block [] pats cols mask = mask
verify_strings mem rows_in_block (pred ∷ []) pats cols mask =
    verify_one mem pred.op (get_or pats 0 []) (get_or cols 0 0 * rows_in_block) mask
verify_strings mem rows_in_block (pred ∷ pred' ∷ preds) pats cols mask =
    for_set_bits 64 (mark (row_matches mem rows_in_block (pred ∷ pred' ∷ preds) pats cols)) mask 0

-- `while (bit > 0 && planes[bit] == 0) bit--;`
unfoldable pub highest_plane : List ℕ → ℕ → ℕ
highest_plane planes zero = 0
highest_plane planes (suc b) =
    let lower = highest_plane planes b in if get_or planes (suc b) 0 == 0 then lower else suc b

-- `sum += popcount(mask & planes[bit]) << bit`
unfoldable pub add_plane : ℕ → List ℕ → ℕ → ℕ → ℕ
add_plane mask planes b sum =
    (sum + popcount 64 (bit_and mask (get_or planes b 0)) * 2 ^ b % 2 ^ 64) % 2 ^ 64

-- The sum over a block: four planes in a round, then the rest.
unfoldable pub block_sum : ℕ → List ℕ → ℕ → ℕ
unfolding highest_plane add_plane
block_sum mask planes max_agg_bit =
    let top = highest_plane planes max_agg_bit in
    let rounds = (top + 1) / 4 in
    let sum =
      for_steps rounds 0 4
        (λ b s. add_plane mask planes (b + 3) (
          add_plane mask planes (b + 2)
            (add_plane mask planes (b + 1) (add_plane mask planes b s))))
        0 in
    for_steps (top + 1 - 4 * rounds) (4 * rounds) 1 (add_plane mask planes) sum

-- The sum so far after a block.
unfoldable pub aggregate_block : Option ℕ → ℕ → ℕ → BlockData → ℕ → ℕ
unfolding block_sum
aggregate_block none max_agg_bit mask block sum = sum
aggregate_block (some c) max_agg_bit mask block sum =
    let planes =
      (get_or block.columns c (record { planes = []; validity = 0; padding = [] })).planes in
    if mask == 0 then sum else (sum + block_sum mask planes max_agg_bit) % 2 ^ 64

-- The rows of block `b`.
unfoldable pub rows_of_block : RowGroup → ℕ → ℕ
rows_of_block rg b = min 64 ((rg.num_rows + 2 ^ 64 - b * 64 % 2 ^ 64) % 2 ^ 64)

-- The rows of a block that match, or 0 when there is no candidate.
unfoldable pub final_mask : QueryRunner → Memory → ℕ → BlockData → ℕ
unfolding candidates verify_strings
final_mask runner mem rows block =
    let mask = candidates runner mem block rows in
    let verified =
      verify_strings mem rows runner.string_predicates runner.clean_string_patterns
        runner.string_col_indices mask in
    if mask == 0 then 0 else verified

-- The loop over the blocks, from block `b`, with the two results so far.
unfoldable pub execute_blocks : QueryRunner → Memory → RowGroup → ℕ → List BlockData → ℕ → ℕ → ℕ × ℕ
unfolding final_mask rows_of_block aggregate_block
execute_blocks runner outside rg b [] total sum = (total, sum)
execute_blocks runner outside rg b (block ∷ blocks) total sum =
    let mem = memory_of outside block.tail_payload in
    let mask = final_mask runner mem (rows_of_block rg b) block in
    execute_blocks runner outside rg (b + 1) blocks ((total + popcount 64 mask) % 2 ^ 64)
      (aggregate_block runner.agg_col_idx runner.max_agg_bit mask block sum)

-- `Execute` on a row group: the number of matches and `out_agg_sum`.
unfoldable pub execute : QueryRunner → Memory → RowGroup → ℕ × ℕ
unfolding execute_blocks
execute runner outside rg = execute_blocks runner outside rg 0 rg.blocks 0 0
