-- ===== src/Lsm/MemTable/Statistics.antt =====
-- `MemTable::ExecuteQueryResult` of src/lex/lsm/mem_table.cpp: the statistics of the rows that match.
-- Whether an array has a string type is a parameter, `type_id` not being among what `Column` reads. The
-- `double` of the average is kept as its two operands. The order of distinct values, which a hash
-- table decides, is that of their first occurrence.
pub mod Selection
pub mod Laws
pub mod Numbers
pub mod Median
mod Tests
use green_gate.Base.{
  ℕ, ◌+◌, ◌-◌, ◌*◌, ◌/◌, ◌%◌, ◌^◌, Bool, true, false, not, ◌&&◌, ◌||◌, Option, none, some, List, [],
  ◌∷◌, ◌++◌, map, replicate, ltb, ◌==◌, if◌then◌else◌, length, get_or,
}
use green_gate.Base.Int.{ltb_signed}
use green_gate.Base.Bytes.{Bytes, bytes_eq}
use green_gate.Query.{
  PredicateOp, eq, like_prefix, like_contains, gt, lt, Predicate, Column, RecordBatch,
}
use green_gate.Query.Text.{pop_percent, erase_percent}
use green_gate.Lsm.MemTable.{MemTable, match_string, match_numeric}

-- Numbers of type `int64_t` are 64-bit patterns. `avg` is the dividend and the divisor.
pub record QueryResult : Type 0 where
  pub count : ℕ
  pub sum : ℕ
  pub avg : ℕ × ℕ
  pub min_val : ℕ
  pub max_val : ℕ
  pub median_val : ℕ
  pub distinct_count : ℕ
  pub distinct_strings : List Bytes
  pub distinct_numerics : List ℕ

-- `QueryResult` with its initial members.
abbrev pub no_result : QueryResult
no_result = record {
  count = 0;
  sum = 0;
  avg = (0, 1);
  min_val = 0;
  max_val = 0;
  median_val = 0;
  distinct_count = 0;
  distinct_strings = [];
  distinct_numerics = [];
}

-- The selection of rows, which `ExecuteQueryResult` does by loops of its own. `clean_pat`.
unfoldable pub stripped_pattern : PredicateOp → Bytes → Bytes
stripped_pattern like_prefix value = pop_percent value
stripped_pattern like_contains value = pop_percent (erase_percent value)
stripped_pattern eq value = value
stripped_pattern gt value = value
stripped_pattern lt value = value

-- The loops over the rows for a predicate on strings and for one on numbers, from row `r`.
unfoldable pub select_strings : Predicate → Bytes → Column → ℕ → List Bool → List Bool
select_strings pred clean_pat str_arr r [] = []
select_strings pred clean_pat str_arr r (m ∷ matches) =
    (if not m
      then m
      else if str_arr.is_null r
      then false
      else match_string (str_arr.view r) pred.op clean_pat)
    ∷ select_strings pred clean_pat str_arr (r + 1) matches

unfoldable pub select_numbers : Predicate → Column → ℕ → List Bool → List Bool
select_numbers pred int_arr r [] = []
select_numbers pred int_arr r (m ∷ matches) =
    (if not m
      then m
      else if int_arr.is_null r
      then false
      else match_numeric (int_arr.value_at r) pred.op pred.numeric_value)
    ∷ select_numbers pred int_arr (r + 1) matches

-- The loop over the predicates; a missing column fails all rows and ends it.
unfoldable pub select_rows : RecordBatch → List Predicate → List Bool → List Bool
unfolding stripped_pattern select_strings select_numbers
select_rows batch [] matches = matches
select_rows batch (pred ∷ preds) matches = elim (batch.column_by_name pred.column_name) [
  | none ↦ map (λ _. false) matches
  | some col ↦ select_rows batch preds (
      if pred.is_string
      then select_strings pred (stripped_pattern pred.op pred.value) col 0 matches
      else select_numbers pred col 0 matches)
]

-- `batch_matches`.
unfoldable pub selected_count : List Bool → ℕ
selected_count [] = 0
selected_count (m ∷ matches) = (if m then 1 else 0) + selected_count matches

-- The loops over the rows of the aggregated column, from row `r`: the values of the rows that match
-- and are not null.
unfoldable pub matched_values {ℓ} : {A : Type ℓ} → (ℕ → A) → Column → ℕ → List Bool → List A
matched_values value col r [] = []
matched_values value col r (m ∷ matches) =
    let later = matched_values value col (r + 1) matches in
    if m && not (col.is_null r) then value r ∷ later else later

-- `res.sum += val` for each value.
unfoldable pub add_values : List ℕ → ℕ → ℕ
add_values [] sum = sum
add_values (v ∷ values) sum = add_values values ((sum + v) % 2 ^ 64)

-- What the loop over the batches collects.
pub record Collected : Type 0 where
  pub count : ℕ
  pub sum : ℕ
  pub numerics : List ℕ
  pub strings : List Bytes
  pub is_agg_str : Bool

-- The values of one batch, if the column is there.
unfoldable pub collect_column : (Column → Bool) → List Bool → Collected → Option Column → Collected
unfolding matched_values add_values
collect_column has_string_type matches c none = c
collect_column has_string_type matches c (some col) =
    let values = matched_values col.value_at col 0 matches in
    if has_string_type col
    then record c {
      is_agg_str = true;
      strings = c.strings ++ matched_values col.view col 0 matches;
    }
    else record c { numerics = c.numerics ++ values; sum = add_values values c.sum }

-- `agg_col_name.empty()`
unfoldable pub is_empty_name : Bytes → Bool
is_empty_name [] = true
is_empty_name (c ∷ name) = false

-- The body of the loop over the batches.
unfoldable pub collect_batch :
    (Column → Bool) → RecordBatch → List Predicate → Bytes → Collected → Collected
unfolding collect_column is_empty_name select_rows selected_count
collect_batch has_string_type batch preds agg_col c =
    let matches = select_rows batch preds (replicate batch.num_rows true) in
    let batch_matches = selected_count matches in
    let counted = record c { count = (c.count + batch_matches) % 2 ^ 64 } in
    if batch.num_rows == 0
    then c
    else if batch_matches == 0 || is_empty_name agg_col
    then counted
    else collect_column has_string_type matches counted (batch.column_by_name agg_col)

-- The loop over the batches.
unfoldable pub collect :
    (Column → Bool) → List RecordBatch → List Predicate → Bytes → Collected → Collected
unfolding collect_batch
collect has_string_type [] preds agg_col c = c
collect has_string_type (batch ∷ batches) preds agg_col c =
    collect has_string_type batches preds agg_col
      (collect_batch has_string_type batch preds agg_col c)

-- `if (val < min) min = val;` and its counterpart, for each value.
unfoldable pub min_of : List ℕ → ℕ → ℕ
min_of [] m = m
min_of (v ∷ values) m = min_of values (if ltb_signed v m then v else m)

unfoldable pub max_of : List ℕ → ℕ → ℕ
max_of [] m = m
max_of (v ∷ values) m = max_of values (if ltb_signed m v then v else m)

-- A hash set of the values: each once.
unfoldable pub occurs {ℓ} : {A : Type ℓ} → (A → A → Bool) → A → List A → Bool
occurs equal v [] = false
occurs equal v (w ∷ values) = equal w v || occurs equal v values

unfoldable pub distinct {ℓ} : {A : Type ℓ} → (A → A → Bool) → List A → List A → List A
unfolding occurs
distinct equal seen [] = []
distinct equal seen (v ∷ values) =
    let new = v ∷ distinct equal (v ∷ seen) values in
    let old = distinct equal seen values in if occurs equal v seen then old else new

-- `std::sort` of `int64_t`s.
unfoldable pub insert_sorted : ℕ → List ℕ → List ℕ
insert_sorted v [] = v ∷ []
insert_sorted v (w ∷ values) =
    let rest = insert_sorted v values in if ltb_signed w v then w ∷ rest else v ∷ (w ∷ values)

unfoldable pub sort : List ℕ → List ℕ
unfolding insert_sorted
sort [] = []
sort (v ∷ values) = insert_sorted v (sort values)

-- Half of an `int64_t`, rounded to zero.
unfoldable pub half : ℕ → ℕ
half w = if ltb w (2 ^ 63) then w / 2 else (2 ^ 64 - (2 ^ 64 - w) / 2) % 2 ^ 64

-- The median of a sorted list; a sum out of range wraps around.
unfoldable pub median : List ℕ → ℕ
unfolding half
median sorted =
    let size = length sorted in
    let middle = get_or sorted (size / 2) 0 in
    if size % 2 == 1 then middle else half ((get_or sorted (size / 2 - 1) 0 + middle) % 2 ^ 64)

-- The statistics of the numbers.
unfoldable pub numeric_statistics : List ℕ → QueryResult → QueryResult
unfolding min_of max_of distinct sort median
numeric_statistics [] res = res
numeric_statistics (v ∷ values) res =
    let all = v ∷ values in
    let dist_set = distinct (λ a b. a == b) [] all in
    record res {
      min_val = min_of all v;
      max_val = max_of all v;
      distinct_count = length dist_set;
      distinct_numerics = dist_set;
      avg = (res.sum, length all);
      median_val = median (sort all);
    }

-- The statistics of the strings: their least and greatest are found and not used.
unfoldable pub string_statistics : List Bytes → QueryResult → QueryResult
unfolding distinct
string_statistics [] res = res
string_statistics (s ∷ strings) res =
    let dist_set = distinct bytes_eq [] (s ∷ strings) in
    record res { distinct_count = length dist_set; distinct_strings = dist_set }

-- `ExecuteQueryResult`.
unfoldable pub execute_query_result :
    (Column → Bool) → MemTable → List Predicate → Bytes → QueryResult
unfolding collect numeric_statistics string_statistics is_empty_name
execute_query_result has_string_type t preds agg_col =
    let c =
      collect has_string_type t.batches preds agg_col
        (record { count = 0; sum = 0; numerics = []; strings = []; is_agg_str = false }) in
    let res = record no_result { count = c.count; sum = c.sum } in
    if c.count == 0 || is_empty_name agg_col
    then res
    else if c.is_agg_str
    then string_statistics c.strings res
    else numeric_statistics c.numerics res
