-- ===== src/Query/Planner.antt =====
-- `QueryPlanner::Plan` of src/lex/jit/query_planner.cpp: from predicates to micro-operations and to
-- what the scan of a row group needs. An exception is `none`; `MicroOpCompiler::Compile`, which
-- makes the operations a function, is a parameter. Log lines and `agg_type`, which nothing reads,
-- are left out.
pub mod Scoping
mod Tests
use green_gate.Base.{
  ℕ, zero, suc, ◌+◌, ◌-◌, ◌*◌, ◌/◌, ◌%◌, ◌^◌, min, max, Bool, true, false, ◌||◌, Option, none, some,
  List, [], ◌∷◌, ◌++◌, ltb, ◌==◌, if◌then◌else◌, length, get_or, take,
}
use green_gate.Base.Bytes.{Bytes, bytes_eq, codes}
use green_gate.Base.Options.{◌>>=◌}
use green_gate.Ingest.Kim.{generate_kim_signature}
use green_gate.Query.{PredicateOp, eq, like_prefix, like_contains, gt, lt, Predicate}
use green_gate.Query.Text.{pop_percent, clean_pattern}
use green_gate.Query.Tail.{Memory}
use green_gate.Query.Compiler.{
  Opcode, load_tile, bit_and_op, cmp_skeleton, cmp_kim, cmp_gt, cmp_lt, cmp_eq, MicroOp,
}
use green_gate.Query.Runner.{QueryRunner}
use green_gate.Storage.{CbstTile, BlockData, RowGroup}
use green_gate.Storage.Codec.{from_le}

-- `logical_col_names` and `logical_col_is_str`: a column followed by its signatures is of strings.
unfoldable pub logical_columns : List Bytes → List (Bytes × Bool)
logical_columns [] = []
logical_columns (name ∷ []) = (name, false) ∷ []
logical_columns (name ∷ next ∷ names) =
    let of_strings = (name, true) ∷ logical_columns names in
    let plain = (name, false) ∷ logical_columns (next ∷ names) in
    if bytes_eq next (name ++ codes "_kim") then of_strings else plain

-- `get_str_col_idx`, from string column `count` on.
unfoldable pub str_col_idx : Bytes → List (Bytes × Bool) → ℕ → Option ℕ
str_col_idx col_name [] count = none
str_col_idx col_name ((name, is_str) ∷ columns) count =
    let later = str_col_idx col_name columns (if is_str then count + 1 else count) in
    if bytes_eq name col_name then some count else later

-- `get_physical_idx`, from column `i` on.
unfoldable pub physical_idx : Bytes → List Bytes → ℕ → Option ℕ
physical_idx col_name [] i = none
physical_idx col_name (name ∷ names) i =
    let later = physical_idx col_name names (i + 1) in
    if bytes_eq name col_name then some i else later

-- `GetSkeletonConstant`.
unfoldable pub skeleton_constant : Bytes → ℕ
skeleton_constant str = from_le (take 4 (pop_percent str))

-- The highest of the bits below `n` that passes, or 0.
unfoldable pub highest_bit : (ℕ → Bool) → ℕ → ℕ
highest_bit active zero = 0
highest_bit active (suc bit) =
    let lower = highest_bit active bit in if active bit then bit else lower

-- `plane_active`: some block has a bit in the plane of the column.
unfoldable pub plane_active : ℕ → List BlockData → ℕ → Bool
plane_active p [] bit = false
plane_active p (block ∷ blocks) bit =
    let tile = get_or block.columns p (record { planes = []; validity = 0; padding = [] }) in
    if get_or tile.planes bit 0 == 0 then plane_active p blocks bit else true

-- `vreg_counter`, `ops`, `predicate_mask_regs` and the lists of the runner.
pub record Planning : Type 0 where
  pub vreg_counter : ℕ
  pub ops : List MicroOp
  pub predicate_mask_regs : List ℕ
  pub string_predicates : List Predicate
  pub string_col_indices : List ℕ
  pub clean_string_patterns : List Bytes

-- The operations, their missing operands being -1.
abbrev pub load : ℕ → ℕ → MicroOp
load dest p = record {
  op = load_tile;
  dest_reg = dest;
  src_reg1 = 2 ^ 32 - 1;
  src_reg2 = 2 ^ 32 - 1;
  imm = p;
}

abbrev pub compare_with : Opcode → ℕ → ℕ → ℕ → ℕ → MicroOp
compare_with op dest tile bits imm = record {
  op = op;
  dest_reg = dest;
  src_reg1 = tile;
  src_reg2 = bits;
  imm = imm;
}

abbrev pub both : ℕ → ℕ → ℕ → MicroOp
both dest a b = record { op = bit_and_op; dest_reg = dest; src_reg1 = a; src_reg2 = b; imm = 0 }

-- The operations for a string predicate on the columns of skeletons and signatures, from virtual
-- register `n` on, and the register of its mask, if it has one.
unfoldable pub string_ops : PredicateOp → Bytes → ℕ → ℕ → ℕ → List MicroOp × Option ℕ
unfolding skeleton_constant
string_ops eq value p_skeleton p_kim n = (
  load n p_skeleton
      ∷ load (n + 1) p_kim
      ∷ compare_with cmp_skeleton (n + 2) n (min 32 ((length value + 1) * 8))
          (skeleton_constant value)
      ∷ compare_with cmp_kim (n + 3) (n + 1) 64 (generate_kim_signature value)
      ∷ both (n + 4) (n + 2) (n + 3)
      ∷ [],
  some (n + 4),
)
string_ops like_prefix value p_skeleton p_kim n = (
  load n p_skeleton
      ∷ compare_with cmp_skeleton (n + 1) n (min 32 (length (clean_pattern like_prefix value) * 8))
          (skeleton_constant value)
      ∷ [],
  some (n + 1),
)
string_ops like_contains value p_skeleton p_kim n = (
  load n p_skeleton
      ∷ load (n + 1) p_kim
      ∷ compare_with cmp_kim (n + 2) (n + 1) 64
          (generate_kim_signature (clean_pattern like_contains value))
      ∷ [],
  some (n + 2),
)
string_ops gt value p_skeleton p_kim n = (load n p_skeleton ∷ [], none)
string_ops lt value p_skeleton p_kim n = (load n p_skeleton ∷ [], none)

-- The comparison of numbers.
unfoldable pub compare_op : PredicateOp → Opcode
compare_op gt = cmp_gt
compare_op lt = cmp_lt
compare_op eq = cmp_eq
compare_op like_prefix = cmp_eq
compare_op like_contains = cmp_eq

-- `threshold_msb`.
unfoldable pub threshold_msb : ℕ → ℕ
unfolding highest_bit
threshold_msb v = highest_bit (λ b. v / 2 ^ b % 2 == 1) 64

-- The operations for a predicate on numbers.
unfoldable pub numeric_ops : Predicate → RowGroup → ℕ → ℕ → List MicroOp × Option ℕ
unfolding compare_op threshold_msb highest_bit plane_active
numeric_ops pred rg p n =
    let max_bit = highest_bit (plane_active p rg.blocks) 64 in
    let bits = max max_bit (threshold_msb pred.numeric_value) + 1 in
    (
      load n p ∷ compare_with (compare_op pred.op) (n + 1) n bits pred.numeric_value ∷ [],
      some (n + 1),
    )

-- The operations taken up, with a virtual register for each.
unfoldable pub emit : Planning → List MicroOp × Option ℕ → Planning
emit st (ops, mask) = record st {
  vreg_counter = st.vreg_counter + length ops;
  ops = st.ops ++ ops;
  predicate_mask_regs = st.predicate_mask_regs ++ elim mask [ none ↦ [] | some m ↦ m ∷ [] ];
}

-- The body of the loop for a string predicate, and for one on numbers.
unfoldable pub plan_string : RowGroup → Predicate → Planning → Option Planning
unfolding physical_idx str_col_idx logical_columns string_ops emit
plan_string rg pred st = do
  p_skeleton ← physical_idx pred.column_name rg.column_names 0
  p_kim ← physical_idx (pred.column_name ++ codes "_kim") rg.column_names 0
  idx ← str_col_idx pred.column_name (logical_columns rg.column_names) 0
  let noted : Planning = record st {
    string_predicates = st.string_predicates ++ pred ∷ [];
    string_col_indices = st.string_col_indices ++ idx ∷ [];
    clean_string_patterns = st.clean_string_patterns ++ clean_pattern pred.op pred.value ∷ [];
  }
  some (emit noted (string_ops pred.op pred.value p_skeleton p_kim st.vreg_counter))

unfoldable pub plan_number : RowGroup → Predicate → Planning → Option Planning
unfolding physical_idx numeric_ops emit
plan_number rg pred st = do
  p ← physical_idx pred.column_name rg.column_names 0
  some (emit st (numeric_ops pred rg p st.vreg_counter))

-- The loop over the predicates.
unfoldable pub plan_predicates : RowGroup → List Predicate → Planning → Option Planning
unfolding plan_string plan_number
plan_predicates rg [] st = some st
plan_predicates rg (pred ∷ preds) st = do
  st ← if pred.is_string then plan_string rg pred st else plan_number rg pred st
  plan_predicates rg preds st

-- The conjunction of the masks, from register `n` on.
unfoldable pub combine : ℕ → ℕ → List ℕ → List MicroOp
combine n mask [] = []
combine n mask (m ∷ masks) = both n mask m ∷ combine (n + 1) n masks

-- The operations of all predicates; there is an exception if none of them has a mask.
unfoldable pub all_ops : Planning → Option (List MicroOp)
unfolding combine
all_ops st = elim st.predicate_mask_regs [
  | [] ↦ none
  | m ∷ masks ↦ some (st.ops ++ combine st.vreg_counter m masks)
]

-- `agg_col_idx` and `max_agg_bit`.
unfoldable pub plan_aggregate : RowGroup → Bytes → Option (Option ℕ × ℕ)
unfolding physical_idx highest_bit plane_active
plan_aggregate rg [] = some (none, 0)
plan_aggregate rg (c ∷ name) = do
  p ← physical_idx (c ∷ name) rg.column_names 0
  some (some p, highest_bit (plane_active p rg.blocks) 64)

-- `Plan`.
unfoldable pub plan :
    (List MicroOp → Option (List CbstTile → Memory → ℕ → ℕ))
    → List Predicate
    → RowGroup
    → Bytes
    → Option QueryRunner
unfolding plan_predicates all_ops plan_aggregate
plan compile_ops predicates rg agg_column_name = do
  st ← plan_predicates rg predicates (record {
    vreg_counter = 0;
    ops = [];
    predicate_mask_regs = [];
    string_predicates = [];
    string_col_indices = [];
    clean_string_patterns = [];
  })
  ops ← all_ops st
  (agg_col_idx, max_agg_bit) ← plan_aggregate rg agg_column_name
  scan_func ← compile_ops ops
  some (record {
    scan_func = scan_func;
    string_predicates = st.string_predicates;
    all_predicates = predicates;
    string_col_indices = st.string_col_indices;
    clean_string_patterns = st.clean_string_patterns;
    agg_col_idx = agg_col_idx;
    max_agg_bit = max_agg_bit;
    agg_col_name = agg_column_name;
  })
