-- ===== src/Lsm/Scan/Statistics/Selection.antt =====
-- The selection of rows of a row group in `QueryRunner::ExecuteQueryResult` of
-- src/lex/jit/query_planner.cpp, which has its own copy of the loops of `Execute`; and that both
-- select the same rows.
use green_gate.Base.{
  ℕ, ◌+◌, ◌-◌, ◌*◌, ◌^◌, ◌≡◌, refl, ap, ap₂, fun_ext, bit_and, Bool, true, false, List, [], ◌∷◌,
  ltb, leb, ◌==◌, if◌then◌else◌, length, drop, get_or,
}
use green_gate.Base.Bytes.{Bytes, bytes_eq}
use green_gate.Base.SetBits.{for_set_bits, mark}
use green_gate.Query.{PredicateOp, eq, like_prefix, like_contains, gt, lt, Predicate}
use green_gate.Query.Text.{contains}
use green_gate.Query.Tail.{Memory, bytes_at, word_at, string_start, string_len, string_at}
use green_gate.Query.Runner.{
  QueryRunner, candidates, head_matches, eq_test, prefix_test, contains_test, verify_one, row_test,
  row_matches, verify_strings, final_mask,
}
use green_gate.Storage.{BlockData}
use green_gate.Storage.Codec.{from_le}

-- The result_candidates of a block, without the rows beyond the last.
unfoldable pub result_candidates : QueryRunner → Memory → BlockData → ℕ → ℕ
result_candidates runner mem block rows_in_block =
    let mask = runner.scan_func block.columns mem block.delete_mask in
    if ltb rows_in_block 64 then bit_and mask (2 ^ rows_in_block - 1) else mask

-- The comparison of the first bytes of a string: by one word if the pattern is short.
unfoldable pub result_head : Memory → ℕ → Bytes → Bool
result_head mem p pat =
    let word_test = bit_and (word_at mem p) (2 ^ (length pat * 8) - 1) == from_le pat in
    let bytes_test = bytes_eq (bytes_at mem p (length pat)) pat in
    if ltb (length pat) 8 then word_test else bytes_test

-- The tests of string `k` of the tail by an operation and a cleaned pattern.
unfoldable pub result_eq : Memory → Bytes → ℕ → Bool
unfolding result_head
result_eq mem pat k =
    if string_len mem k == length pat then result_head mem (string_start mem k) pat else false

unfoldable pub result_prefix : Memory → Bytes → ℕ → Bool
unfolding result_head
result_prefix mem pat k =
    if leb (length pat) (string_len mem k) then result_head mem (string_start mem k) pat else false

unfoldable pub result_contains : Memory → Bytes → ℕ → Bool
result_contains mem pat k =
    if leb (length pat) (string_len mem k) then contains pat (string_at mem k) else false

-- The rows that one predicate leaves of the result_candidates; an operation without a loop leaves none.
unfoldable pub result_one : Memory → PredicateOp → Bytes → ℕ → ℕ → ℕ
unfolding result_eq result_prefix result_contains
result_one mem eq pat base_idx mask =
    for_set_bits 64 (mark (λ i. result_eq mem pat (base_idx + i))) mask 0
result_one mem like_prefix pat base_idx mask =
    for_set_bits 64 (mark (λ i. result_prefix mem pat (base_idx + i))) mask 0
result_one mem like_contains pat base_idx mask =
    for_set_bits 64 (mark (λ i. result_contains mem pat (base_idx + i))) mask 0
result_one mem gt pat base_idx mask = 0
result_one mem lt pat base_idx mask = 0

-- One predicate of several: an operation without a test lets the row pass.
unfoldable pub result_test : Memory → PredicateOp → Bytes → ℕ → Bool
unfolding result_eq result_prefix result_contains
result_test mem eq pat k = result_eq mem pat k
result_test mem like_prefix pat k = result_prefix mem pat k
result_test mem like_contains pat k = result_contains mem pat k
result_test mem gt pat k = true
result_test mem lt pat k = true

-- The loop over several predicates for row `i`, which ends at the first that fails.
unfoldable pub result_row : Memory → ℕ → List Predicate → List Bytes → List ℕ → ℕ → Bool
unfolding result_test
result_row mem rows_in_block [] pats cols i = true
result_row mem rows_in_block (pred ∷ preds) pats cols i =
    let rest = result_row mem rows_in_block preds (drop 1 pats) (drop 1 cols) i in
    if result_test mem pred.op (get_or pats 0 []) (get_or cols 0 0 * rows_in_block + i)
    then rest
    else false

-- The rows of a block that pass the string predicates.
unfoldable pub result_strings : Memory → ℕ → List Predicate → List Bytes → List ℕ → ℕ → ℕ
unfolding result_one result_row
result_strings mem rows_in_block [] pats cols mask = mask
result_strings mem rows_in_block (pred ∷ []) pats cols mask =
    result_one mem pred.op (get_or pats 0 []) (get_or cols 0 0 * rows_in_block) mask
result_strings mem rows_in_block (pred ∷ pred' ∷ preds) pats cols mask =
    for_set_bits 64 (mark (result_row mem rows_in_block (pred ∷ pred' ∷ preds) pats cols)) mask 0

-- The rows of a block that match, or 0 when there is no candidate.
unfoldable pub result_mask : QueryRunner → Memory → ℕ → BlockData → ℕ
unfolding result_candidates result_strings
result_mask runner mem rows block =
    let mask = result_candidates runner mem block rows in
    let verified =
      result_strings mem rows runner.string_predicates runner.clean_string_patterns
        runner.string_col_indices mask in
    if mask == 0 then 0 else verified

result_eq-eq_test : (mem : Memory) (pat : Bytes) (k : ℕ) → result_eq mem pat k ≡ eq_test mem pat k
unfolding result_eq eq_test result_head head_matches
result_eq-eq_test mem pat k = refl

result_prefix-prefix_test :
    (mem : Memory) (pat : Bytes) (k : ℕ) → result_prefix mem pat k ≡ prefix_test mem pat k
unfolding result_prefix prefix_test result_head head_matches
result_prefix-prefix_test mem pat k = refl

result_contains-contains_test :
    (mem : Memory) (pat : Bytes) (k : ℕ) → result_contains mem pat k ≡ contains_test mem pat k
unfolding result_contains contains_test
result_contains-contains_test mem pat k = refl

-- The same marks from the same tests.
marks :
    (test test' : ℕ → Bool) (mask : ℕ)
    → ((i : ℕ) → test i ≡ test' i)
    → for_set_bits 64 (mark test) mask 0 ≡ for_set_bits 64 (mark test') mask 0
marks test test' mask h = ap (λ (t : ℕ → Bool). for_set_bits 64 (mark t) mask 0) (fun_ext h)

result_one-verify_one :
    (mem : Memory) (op : PredicateOp) (pat : Bytes) (base mask : ℕ)
    → result_one mem op pat base mask ≡ verify_one mem op pat base mask
unfolding result_one verify_one
result_one-verify_one mem eq pat base mask =
    marks _ _ mask (λ i. result_eq-eq_test mem pat (base + i))
result_one-verify_one mem like_prefix pat base mask =
    marks _ _ mask (λ i. result_prefix-prefix_test mem pat (base + i))
result_one-verify_one mem like_contains pat base mask =
    marks _ _ mask (λ i. result_contains-contains_test mem pat (base + i))
result_one-verify_one mem gt pat base mask = refl
result_one-verify_one mem lt pat base mask = refl

result_test-row_test :
    (mem : Memory) (op : PredicateOp) (pat : Bytes) (k : ℕ)
    → result_test mem op pat k ≡ row_test mem op pat k
unfolding result_test row_test
result_test-row_test mem eq pat k = result_eq-eq_test mem pat k
result_test-row_test mem like_prefix pat k = result_prefix-prefix_test mem pat k
result_test-row_test mem like_contains pat k = result_contains-contains_test mem pat k
result_test-row_test mem gt pat k = refl
result_test-row_test mem lt pat k = refl

result_row-row_matches :
    (mem : Memory) (rows : ℕ) (preds : List Predicate) (pats : List Bytes) (cols : List ℕ) (i : ℕ)
    → result_row mem rows preds pats cols i ≡ row_matches mem rows preds pats cols i
unfolding result_row row_matches
result_row-row_matches mem rows [] pats cols i = refl
result_row-row_matches mem rows (pred ∷ preds) pats cols i =
    ap₂ (λ (x y : Bool). if x then y else false)
      (result_test-row_test mem pred.op (get_or pats 0 []) (get_or cols 0 0 * rows + i))
      (result_row-row_matches mem rows preds (drop 1 pats) (drop 1 cols) i)

result_strings-verify_strings :
    (mem : Memory) (rows : ℕ) (preds : List Predicate) (pats : List Bytes) (cols : List ℕ)
    (mask : ℕ)
    → result_strings mem rows preds pats cols mask ≡ verify_strings mem rows preds pats cols mask
unfolding result_strings verify_strings
result_strings-verify_strings mem rows [] pats cols mask = refl
result_strings-verify_strings mem rows (pred ∷ []) pats cols mask =
    result_one-verify_one mem pred.op (get_or pats 0 []) (get_or cols 0 0 * rows) mask
result_strings-verify_strings mem rows (pred ∷ pred' ∷ preds) pats cols mask =
    marks _ _ mask (result_row-row_matches mem rows (pred ∷ pred' ∷ preds) pats cols)

-- `ExecuteQueryResult` and `Execute` select the same rows of a block.
pub result_mask-final_mask :
    (runner : QueryRunner) (mem : Memory) (rows : ℕ) (block : BlockData)
    → result_mask runner mem rows block ≡ final_mask runner mem rows block
unfolding result_mask final_mask result_candidates candidates
result_mask-final_mask runner mem rows block =
    let mask = candidates runner mem block rows in
    ap (λ (verified : ℕ). if mask == 0 then 0 else verified)
      (result_strings-verify_strings mem rows runner.string_predicates runner.clean_string_patterns
        runner.string_col_indices mask)
