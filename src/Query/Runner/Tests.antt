-- ===== src/Query/Runner/Tests.antt =====
-- The scan of a block of two rows with one string column and one number column.
use green_gate.Base.{
  ◌^◌, ◌%◌, ◌==◌, ◌≡◌, refl, true, ◌&&◌, if◌then◌else◌, some, [], ◌∷◌, ◌++◌, replicate, arith,
}
use green_gate.Base.Bits.{bit}
use green_gate.Base.Bytes.{Bytes, codes}
use green_gate.Base.Loops.{all_lt-All, for_steps}
use green_gate.Base.SetBits.{for_set_bits, mark, ctz}
use green_gate.Base.SetBits.Sums.{popcount}
use green_gate.Query.{like_prefix, Predicate}
use green_gate.Query.Tail.{
  Memory, memory_of, bytes_at, word_at, offset_at, data_start, string_start, string_len,
}
use green_gate.Query.Runner.{
  QueryRunner, candidates, head_matches, prefix_test, verify_one, verify_strings, highest_plane,
  add_plane, block_sum, aggregate_block, rows_of_block, final_mask, execute_blocks, execute,
}
use green_gate.Query.Runner.Laws.{bit-verify_strings, execute_lem}
use green_gate.Query.Runner.Spec.{strings_match, aggregated_value, sum_selected}
use green_gate.Storage.{CbstTile, BlockData, RowGroup}
use green_gate.Storage.Codec.{from_le}

-- The strings "ab" and "b", with their offsets.
abbrev payload : Bytes
payload =
    (2 ∷ replicate 7 0)
    ++ (replicate 8 0 ++ ((3 ∷ replicate 7 0) ++ ((5 ∷ replicate 7 0) ++ codes "ab\0b\0")))

-- The numbers 3 and 2, and a third row that is not one.
abbrev tile : CbstTile
tile = record { planes = 5 ∷ 3 ∷ 0 ∷ 0 ∷ replicate 60 0; validity = 0; padding = replicate 7 0 }

abbrev block : BlockData
block = record { columns = tile ∷ []; tail_payload = payload; delete_mask = 3 }

abbrev group : RowGroup
group = record {
  num_rows = 2;
  num_columns = 1;
  column_names = codes "v" ∷ [];
  column_types = 9 ∷ [];
  blocks = block ∷ [];
}

abbrev starts_a : Predicate
starts_a = record {
  column_name = codes "s";
  op = like_prefix;
  value = codes "a%";
  numeric_value = 0;
  is_string = true;
}

-- The compiled function keeps three rows.
abbrev runner : QueryRunner
runner = record {
  scan_func = λ columns mem active. 7;
  string_predicates = starts_a ∷ [];
  all_predicates = starts_a ∷ [];
  string_col_indices = 0 ∷ [];
  clean_string_patterns = codes "a" ∷ [];
  agg_col_idx = some 0;
  max_agg_bit = 3;
  agg_col_name = codes "v";
}

abbrev outside : Memory
outside p = 255

execute_lem_example : execute runner outside group ≡ (
  sum_selected runner outside group (λ block i. 1) 0 group.blocks % 2 ^ 64,
  sum_selected runner outside group (aggregated_value runner) 0 group.blocks % 2 ^ 64,
)
execute_lem_example =
    execute_lem runner outside group (λ p. omega arith) (refl, tt)
      (all_lt-All 256 (codes "a") refl, tt) (λ columns mem active. omega arith)
      (all_lt-All 256 payload refl, tt)

bit-verify_strings_example :
    bit (verify_strings outside 2 (starts_a ∷ []) (codes "a" ∷ []) (0 ∷ []) 3) 1 ≡ (
      if (bit 3 1 == 1) && strings_match outside 2 (starts_a ∷ []) (codes "a" ∷ []) (0 ∷ []) 1
      then 1
      else 0)
bit-verify_strings_example =
    bit-verify_strings outside (λ p. omega arith) 2 (starts_a ∷ []) (codes "a" ∷ []) (0 ∷ []) 3 1
      (refl, tt) (all_lt-All 256 (codes "a") refl, tt) (omega arith) (omega arith)

execute-group : execute runner outside group ≡ (1, 3)
unfolding execute execute_blocks final_mask candidates verify_strings verify_one prefix_test
    head_matches for_set_bits mark popcount ctz word_at bytes_at offset_at data_start string_start
    string_len memory_of from_le aggregate_block block_sum highest_plane add_plane for_steps
    rows_of_block
execute-group = refl
