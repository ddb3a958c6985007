-- ===== src/Query/Runner/Laws.antt =====
-- The scan of a row group counts and sums the rows that the row-by-row reading selects.
use green_gate.Base.{
  ℕ, zero, suc, ◌+◌, ◌-◌, ◌*◌, ◌/◌, ◌%◌, ◌^◌, ◌≤◌, ◌<◌, ◌≡◌, refl, ap, ap₂, ◌∙◌, inl, inr, bit_and,
  Bool, true, false, ◌&&◌, Option, none, some, List, [], ◌∷◌, arith, ltb, ◌==◌, if◌then◌else◌,
  Bool-cases, drop, get_or, All,
}
use native.Mathlib.Nat.{one-le-pow}
use green_gate.Base.Bits.{bit, bit-le, bit-mod, bit-ge, bit_and-lt, bit_and_mask, bit-zero}
use green_gate.Base.Bytes.{Bytes}
use green_gate.Base.SetBits.{for_set_bits, mark, bit-for_set_bits}
use green_gate.Base.SetBits.Sums.{sum_set, popcount-sum_set}
use green_gate.Query.{PredicateOp, Predicate, eq, like_prefix, like_contains, gt, lt}
use green_gate.Query.Tail.{Memory, memory_of}
use green_gate.Query.Runner.{
  QueryRunner, candidates, verify_one, row_test, row_matches, verify_strings, aggregate_block,
  rows_of_block, final_mask, execute_blocks, execute,
}
use green_gate.Query.Runner.Spec.{
  strings_match, is_selected, sum_range, value_of, aggregated_value, sum_selected,
}
use green_gate.Query.Runner.Strings.{on_strings, row_test_lem}
use green_gate.Query.Runner.Sums.{plane_value, block_sum_lem}
use green_gate.Storage.{CbstTile, BlockData, RowGroup}

abbrev pub IsBytes : Bytes → Type 0
IsBytes bs = All (λ b. b < 256) bs

first-IsBytes : (pats : List Bytes) → All IsBytes pats → IsBytes (get_or pats 0 [])
first-IsBytes [] h = tt
first-IsBytes (pat ∷ pats) h = h.0

rest-IsBytes : (pats : List Bytes) → All IsBytes pats → All IsBytes (drop 1 pats)
rest-IsBytes [] h = tt
rest-IsBytes (pat ∷ pats) h = h.1

memory_of-IsBytes :
    (outside : Memory) (payload : Bytes)
    → ((p : ℕ) → outside p < 256)
    → IsBytes payload
    → (p : ℕ) → memory_of outside payload p < 256
unfolding memory_of
memory_of-IsBytes outside payload ho hp p =
    let entry : (bs : Bytes) (i : ℕ) → IsBytes bs → get_or bs i 0 < 256 = get_or-IsBytes in
    ground (arith, ho p, entry payload p hp)
  where
    get_or-IsBytes : (bs : Bytes) (i : ℕ) → IsBytes bs → get_or bs i 0 < 256
    get_or-IsBytes [] i h = omega arith
    get_or-IsBytes (b ∷ bs) zero h = h.0
    get_or-IsBytes (b ∷ bs) (suc i) h = get_or-IsBytes bs i h.1

module _ (mem : Memory) (bytes : (p : ℕ) → mem p < 256) (rows : ℕ) where
  row_matches-strings_match :
      (preds : List Predicate) (pats : List Bytes) (cols : List ℕ) (i : ℕ)
      → All (λ pred. on_strings pred.op ≡ true) preds
      → All IsBytes pats
      → row_matches mem rows preds pats cols i ≡ strings_match mem rows preds pats cols i
  unfolding row_matches strings_match
  row_matches-strings_match [] pats cols i hs hp = refl
  row_matches-strings_match (pred ∷ preds) pats cols i hs hp = ground (
    arith,
    row_test_lem mem bytes pred.op (get_or pats 0 []) (get_or cols 0 0 * rows + i)
        (first-IsBytes pats hp) hs.0,
    row_matches-strings_match preds (drop 1 pats) (drop 1 cols) i hs.1 (rest-IsBytes pats hp),
  )

  verify_one-marks :
      (op : PredicateOp) (pat : Bytes) (base mask : ℕ)
      → on_strings op ≡ true
      → verify_one mem op pat base mask
        ≡ for_set_bits 64 (mark (λ i. row_test mem op pat (base + i))) mask 0
  unfolding verify_one row_test
  verify_one-marks eq pat base mask h = refl
  verify_one-marks like_prefix pat base mask h = refl
  verify_one-marks like_contains pat base mask h = refl
  verify_one-marks gt pat base mask h = cc
  verify_one-marks lt pat base mask h = cc

  -- The verification of the strings of a block keeps candidate `j` exactly if its strings match all
  -- predicates, each as in the in-memory table: on a memory of bytes, for a mask of 64 bits, `j`
  -- below 64, operations on strings and patterns of bytes, however many predicates there are.
  pub bit-verify_strings :
      (preds : List Predicate) (pats : List Bytes) (cols : List ℕ) (mask j : ℕ)
      → All (λ pred. on_strings pred.op ≡ true) preds
      → All IsBytes pats
      → mask < 2 ^ 64
      → j < 64
      → bit (verify_strings mem rows preds pats cols mask) j
        ≡ (if (bit mask j == 1) && strings_match mem rows preds pats cols j then 1 else 0)
  unfolding verify_strings strings_match
  bit-verify_strings [] pats cols mask j hs hp hm hj = ground (arith, bit-le mask j)
  bit-verify_strings (pred ∷ []) pats cols mask j hs hp hm hj =
      let pat = get_or pats 0 [] in
      let base = get_or cols 0 0 * rows in
      ap (λ (w : ℕ). bit w j) (verify_one-marks pred.op pat base mask hs.0)
      ∙ bit-for_set_bits (λ i. row_test mem pred.op pat (base + i)) mask j hm hj
      ∙ ground (arith, row_test_lem mem bytes pred.op pat (base + j) (first-IsBytes pats hp) hs.0)
  bit-verify_strings (pred ∷ pred' ∷ preds) pats cols mask j hs hp hm hj =
      let preds' = pred ∷ pred' ∷ preds in
      bit-for_set_bits (row_matches mem rows preds' pats cols) mask j hm hj
      ∙ ap (λ (t : Bool). if (bit mask j == 1) && t then 1 else 0)
          (row_matches-strings_match preds' pats cols j hs hp)

module _ (runner : QueryRunner) (mem : Memory) (rows : ℕ) (block : BlockData) where
  candidates-lt :
      runner.scan_func block.columns mem block.delete_mask < 2 ^ 64
      → candidates runner mem block rows < 2 ^ 64
  unfolding candidates
  candidates-lt h =
      ground (
        arith,
        bit_and-lt 64 (runner.scan_func block.columns mem block.delete_mask) (2 ^ rows - 1) h,
      )

  bit-candidates :
      (j : ℕ)
      → rows ≤ 64
      → j < 64
      → runner.scan_func block.columns mem block.delete_mask < 2 ^ 64
      → (bit (candidates runner mem block rows) j == 1)
        ≡ (ltb j rows && (bit (runner.scan_func block.columns mem block.delete_mask) j == 1))
  unfolding candidates
  bit-candidates j hr hj h =
      let mask = runner.scan_func block.columns mem block.delete_mask in
      let low : bit_and mask (2 ^ rows - 1) ≡ mask % 2 ^ rows = bit_and_mask 64 rows mask h in
      let below : ltb j rows ≡ true → bit (mask % 2 ^ rows) j ≡ bit mask j =
        λ h. bit-mod rows mask j (ground arith) in
      let above : ltb j rows ≡ false → bit (mask % 2 ^ rows) j ≡ 0 =
        λ h. bit-ge rows (mask % 2 ^ rows) j (ground (arith, one-le-pow rows 2)) (ground arith) in
      elim (Bool-cases (ltb rows 64)) [
        | inl short ↦ elim (Bool-cases (ltb j rows)) [
          | inl inside ↦ rw (short, low, below inside, inside) refl
          | inr beyond ↦ rw (short, low, above beyond, beyond) refl
        ]
        | inr full ↦ let inside : ltb j rows ≡ true = ground arith in rw (full, inside) refl
      ]

module _ (runner : QueryRunner) (mem : Memory) (bytes : (p : ℕ) → mem p < 256) (rows : ℕ)
    (block : BlockData) (rows_fit : rows ≤ 64)
    (strings : All (λ pred. on_strings pred.op ≡ true) runner.string_predicates)
    (patterns : All IsBytes runner.clean_string_patterns)
    (word : runner.scan_func block.columns mem block.delete_mask < 2 ^ 64) where
  -- Exactly the selected rows are left.
  pub bit-final_mask :
      (j : ℕ)
      → j < 64
      → (bit (final_mask runner mem rows block) j == 1) ≡ is_selected runner mem rows block j
  unfolding final_mask is_selected
  bit-final_mask j h =
      let mask = candidates runner mem block rows in
      let left =
        bit-verify_strings mem bytes rows runner.string_predicates runner.clean_string_patterns
          runner.string_col_indices mask j strings patterns
          (candidates-lt runner mem rows block word) h in
      let candidate = bit-candidates runner mem rows block j rows_fit h word in
      elim (Bool-cases (mask == 0)) [
        | inl empty ↦
            let e : mask ≡ 0 = ground arith in
            let none_set : bit mask j ≡ 0 = ap (λ (w : ℕ). bit w j) e ∙ bit-zero j in
            rw (empty) (ground (arith, none_set, candidate, bit-zero j))
        | inr some_set ↦ rw (some_set) (ground (arith, left, candidate))
      ]

-- A sum over the set bits, as a sum over a range with the test of each bit.
sum_set-sum_range :
    (n i w : ℕ) (f : ℕ → ℕ) (test : ℕ → Bool)
    → ((k : ℕ) → k < n → (bit w k == 1) ≡ test (i + k))
    → sum_set n i w f ≡ sum_range n i (λ j. if test j then f j else 0)
unfolding sum_set sum_range
sum_set-sum_range zero i w f test h = refl
sum_set-sum_range (suc n) i w f test h =
    let here : (w % 2 == 1) ≡ test i = h 0 (omega arith) ∙ ap test (omega arith) in
    let rest : sum_set n (i + 1) (w / 2) f ≡ sum_range n (i + 1) (λ j. if test j then f j else 0) =
      sum_set-sum_range n (i + 1) (w / 2) f test
        (λ k k_lt. h (suc k) (omega arith) ∙ ap test {y = i + 1 + k} (omega arith)) in
    rw (here, rest) refl

rows_of_block-le : (rg : RowGroup) (b : ℕ) → rows_of_block rg b ≤ 64
unfolding rows_of_block
rows_of_block-le rg b = omega arith

sum_set-none : (n i : ℕ) (f : ℕ → ℕ) → sum_set n i 0 f ≡ 0
unfolding sum_set
sum_set-none zero i f = refl
sum_set-none (suc n) i f = omega (arith, sum_set-none n (i + 1) f)

sum_range-none : (n i : ℕ) (test : ℕ → Bool) → sum_range n i (λ j. if test j then 0 else 0) ≡ 0
unfolding sum_range
sum_range-none zero i test = refl
sum_range-none (suc n) i test = ground (arith, sum_range-none n (i + 1) test)

-- The sum after a block, for rows given by a test.
aggregate_block_lem :
    (agg : Option ℕ) (top mask : ℕ) (block : BlockData) (sum : ℕ) (test : ℕ → Bool)
    → ((k : ℕ) → k < 64 → (bit mask k == 1) ≡ test k)
    → aggregate_block agg top mask block (sum % 2 ^ 64)
      ≡ (sum + sum_range 64 0 (λ j. if test j then value_of agg top block j else 0)) % 2 ^ 64
unfolding aggregate_block value_of
aggregate_block_lem none top mask block sum test h = omega (arith, sum_range-none 64 0 test)
aggregate_block_lem (some c) top mask block sum test h =
    let planes =
      (get_or block.columns c (record { planes = []; validity = 0; padding = [] })).planes in
    let chosen =
      sum_set-sum_range 64 0 mask (plane_value planes (suc top)) test
        (λ k k_lt. h k k_lt ∙ ap test (omega arith)) in
    elim (Bool-cases (mask == 0)) [
      | inl empty ↦
          let e : mask ≡ 0 = ground arith in
          let nothing : sum_set 64 0 mask (plane_value planes (suc top)) ≡ 0 =
            ap (λ (w : ℕ). sum_set 64 0 w (plane_value planes (suc top))) e ∙ sum_set-none 64 0 _ in
          rw (empty) (omega (arith, nothing, chosen))
      | inr some_set ↦ rw (some_set) (omega (arith, block_sum_lem mask planes top, chosen))
    ]

module _ (runner : QueryRunner) (outside : Memory) (bytes : (p : ℕ) → outside p < 256)
    (strings : All (λ pred. on_strings pred.op ≡ true) runner.string_predicates)
    (patterns : All IsBytes runner.clean_string_patterns)
    (word : (columns : List CbstTile) (mem : Memory) (active : ℕ)
      → runner.scan_func columns mem active < 2 ^ 64)
    (rg : RowGroup) where
  execute_blocks_lem :
      (b : ℕ) (blocks : List BlockData) (total sum : ℕ)
      → All (λ block. IsBytes block.tail_payload) blocks
      → execute_blocks runner outside rg b blocks (total % 2 ^ 64) (sum % 2 ^ 64) ≡ (
        (total + sum_selected runner outside rg (λ block i. 1) b blocks) % 2 ^ 64,
        (sum + sum_selected runner outside rg (aggregated_value runner) b blocks) % 2 ^ 64,
      )
  unfolding execute_blocks sum_selected aggregated_value
  execute_blocks_lem b [] total sum h = ap₂ (λ (t u : ℕ). (t, u)) (omega arith) (omega arith)
  execute_blocks_lem b (block ∷ blocks) total sum h =
      let mem = memory_of outside block.tail_payload in
      let rows = rows_of_block rg b in
      let mask = final_mask runner mem rows block in
      let test = is_selected runner mem rows block in
      let fit : rows ≤ 64 = rows_of_block-le rg b in
      let exact : (k : ℕ) → k < 64 → (bit mask k == 1) ≡ test k =
        bit-final_mask runner mem (memory_of-IsBytes outside block.tail_payload bytes h.0) rows
          block fit strings patterns (word block.columns mem block.delete_mask) in
      let counted =
        popcount-sum_set 64 0 mask
        ∙ sum_set-sum_range 64 0 mask (λ i. 1) test
            (λ k k_lt. exact k k_lt ∙ ap test (omega arith)) in
      let new_total = total + sum_range 64 0 (λ i. if test i then 1 else 0) in
      let new_sum =
        sum + sum_range 64 0 (λ i. if test i then aggregated_value runner block i else 0) in
      let step : execute_blocks runner outside rg b (block ∷ blocks) (total % 2 ^ 64) (sum % 2 ^ 64)
          ≡ execute_blocks runner outside rg (b + 1) blocks (new_total % 2 ^ 64)
              (new_sum % 2 ^ 64) =
        ap₂ (execute_blocks runner outside rg (b + 1) blocks) (omega (arith, counted))
          (aggregate_block_lem runner.agg_col_idx runner.max_agg_bit mask block sum test exact) in
      step
      ∙ execute_blocks_lem (b + 1) blocks new_total new_sum h.1
      ∙ ap₂ (λ (t u : ℕ). (t, u)) (omega arith) (omega arith)

-- The scan of a row group returns the number of the selected rows of all blocks and the sum of
-- their values in the column that is summed, each modulo `2 ^ 64`: whatever stands behind the
-- payloads, if the operations of the string predicates are those on strings, the payloads and
-- patterns are bytes, and the compiled function returns 64-bit words.
pub execute_lem :
    (runner : QueryRunner) (outside : Memory) (rg : RowGroup)
    → ((p : ℕ) → outside p < 256)
    → All (λ pred. on_strings pred.op ≡ true) runner.string_predicates
    → All IsBytes runner.clean_string_patterns
    → ((columns : List CbstTile) (mem : Memory) (active : ℕ)
        → runner.scan_func columns mem active < 2 ^ 64)
    → All (λ block. IsBytes block.tail_payload) rg.blocks
    → execute runner outside rg ≡ (
      sum_selected runner outside rg (λ block i. 1) 0 rg.blocks % 2 ^ 64,
      sum_selected runner outside rg (aggregated_value runner) 0 rg.blocks % 2 ^ 64,
    )
unfolding execute
execute_lem runner outside rg bytes strings patterns word payloads =
    execute_blocks_lem runner outside bytes strings patterns word rg 0 rg.blocks 0 0 payloads
    ∙ ap₂ (λ (t u : ℕ). (t, u)) (omega arith) (omega arith)
