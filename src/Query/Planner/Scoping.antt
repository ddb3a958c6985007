-- ===== src/Query/Planner/Scoping.antt =====
-- The operations of a plan read only registers that operations before them write.
use green_gate.Base.{
  ℕ, ◌+◌, ◌≡◌, refl, sym, subst, Bool, true, false, Option, none, some, List, [], ◌∷◌, ◌++◌, arith,
  All, if◌then◌else◌,
}
use green_gate.Query.{PredicateOp, eq, like_prefix, like_contains, gt, lt, Predicate}
use green_gate.Base.Bytes.{Bytes, codes}
use green_gate.Query.Text.{clean_pattern}
use green_gate.Query.Compiler.{MicroOp, is_listed}
use green_gate.Query.Compiler.Semantics.{sources_defined, is_scoped}
use green_gate.Query.Planner.{
  Planning, load, compare_with, string_ops, compare_op, numeric_ops, emit, plan_string, plan_number,
  plan_predicates, logical_columns, physical_idx, str_col_idx, combine, all_ops, plan_aggregate,
  plan,
}
use green_gate.Base.Options.{◌>>=◌}
use green_gate.Query.Tail.{Memory}
use green_gate.Query.Runner.{QueryRunner}
use green_gate.Storage.{CbstTile, RowGroup}

-- The registers written, the last first.
unfoldable written : List ℕ → List MicroOp → List ℕ
written defined [] = defined
written defined (o ∷ ops) = written (o.dest_reg ∷ defined) ops

is_scoped-append :
    (defined : List ℕ) (ops others : List MicroOp)
    → is_scoped defined ops ≡ true
    → is_scoped (written defined ops) others ≡ true
    → is_scoped defined (ops ++ others) ≡ true
unfolding is_scoped written
is_scoped-append defined [] others h h' = h'
is_scoped-append defined (o ∷ ops) others h h' =
    ground (arith, is_scoped-append (o.dest_reg ∷ defined) ops others)

written-append :
    (defined : List ℕ) (ops others : List MicroOp)
    → written defined (ops ++ others) ≡ written (written defined ops) others
unfolding written
written-append defined [] others = refl
written-append defined (o ∷ ops) others = written-append (o.dest_reg ∷ defined) ops others

is_listed-written :
    (v : ℕ) (defined : List ℕ) (ops : List MicroOp)
    → is_listed v defined ≡ true
    → is_listed v (written defined ops) ≡ true
unfolding written is_listed
is_listed-written v defined [] h = h
is_listed-written v defined (o ∷ ops) h =
    is_listed-written v (o.dest_reg ∷ defined) ops (ground arith)

abbrev AreListed : List ℕ → List ℕ → Type 0
AreListed masks defined = All (λ m. is_listed m defined ≡ true) masks

AreListed-written :
    (masks defined : List ℕ) (ops : List MicroOp)
    → AreListed masks defined
    → AreListed masks (written defined ops)
AreListed-written [] defined ops h = tt
AreListed-written (m ∷ masks) defined ops (h, hs) =
    (is_listed-written m defined ops h, AreListed-written masks defined ops hs)

All-append :
    (masks others defined : List ℕ)
    → AreListed masks defined
    → AreListed others defined
    → AreListed (masks ++ others) defined
All-append [] others defined h h' = h'
All-append (m ∷ masks) others defined (h, hs) h' = (h, All-append masks others defined hs h')

-- The registers of masks.
abbrev mask_list : Option ℕ → List ℕ
mask_list none = []
mask_list (some m) = m ∷ []

-- Operations that stand by themselves, with a mask among their registers.
abbrev AreClosed : List MicroOp × Option ℕ → Type 0
AreClosed (ops, mask) =
    (defined : List ℕ)
    → (is_scoped defined ops ≡ true) × AreListed (mask_list mask) (written defined ops)

string_ops-AreClosed :
    (op : PredicateOp) (value : Bytes) (p_skeleton p_kim n : ℕ)
    → AreClosed (string_ops op value p_skeleton p_kim n)
unfolding string_ops is_scoped sources_defined is_listed written
string_ops-AreClosed eq value p_skeleton p_kim n defined = (ground arith, (ground arith, tt))
string_ops-AreClosed like_prefix value p_skeleton p_kim n defined =
    (ground arith, (ground arith, tt))
string_ops-AreClosed like_contains value p_skeleton p_kim n defined =
    (ground arith, (ground arith, tt))
string_ops-AreClosed gt value p_skeleton p_kim n defined = (refl, tt)
string_ops-AreClosed lt value p_skeleton p_kim n defined = (refl, tt)

-- A load and a comparison of what is loaded.
compared :
    (op : PredicateOp) (p n bits threshold : ℕ) (defined : List ℕ)
    → is_scoped defined (load n p ∷ compare_with (compare_op op) (n + 1) n bits threshold ∷ [])
      ≡ true
unfolding compare_op is_scoped sources_defined is_listed
compared eq p n bits threshold defined = ground arith
compared gt p n bits threshold defined = ground arith
compared lt p n bits threshold defined = ground arith
compared like_prefix p n bits threshold defined = ground arith
compared like_contains p n bits threshold defined = ground arith

numeric_ops-AreClosed :
    (pred : Predicate) (rg : RowGroup) (p n : ℕ) → AreClosed (numeric_ops pred rg p n)
unfolding numeric_ops is_listed written
numeric_ops-AreClosed pred rg p n defined = (compared pred.op p n _ _ defined, (ground arith, tt))

abbrev IsPlanned : Planning → Type 0
IsPlanned st = (is_scoped [] st.ops ≡ true) × AreListed st.predicate_mask_regs (written [] st.ops)

combine-is_scoped :
    (defined : List ℕ) (n mask : ℕ) (masks : List ℕ)
    → is_listed mask defined ≡ true
    → AreListed masks defined
    → is_scoped defined (combine n mask masks) ≡ true
unfolding combine is_scoped sources_defined is_listed
combine-is_scoped defined n mask [] h hs = refl
combine-is_scoped defined n mask (m ∷ masks) h (h', hs) =
    ground (arith, combine-is_scoped (n ∷ defined) (n + 1) n masks (ground arith) (more masks hs))
  where
    more : (ms : List ℕ) → AreListed ms defined → AreListed ms (n ∷ defined)
    more [] hs = tt
    more (x ∷ ms) (h, hs) = (ground arith, more ms hs)

emit-IsPlanned :
    (st : Planning) (new : List MicroOp × Option ℕ)
    → AreClosed new
    → IsPlanned st
    → IsPlanned (emit st new)
unfolding emit
emit-IsPlanned st (ops, none) closed (scoped, listed) = (
  is_scoped-append [] st.ops ops scoped (closed (written [] st.ops)).0,
  All-append st.predicate_mask_regs [] _
      (subst (AreListed st.predicate_mask_regs) (sym (written-append [] st.ops ops))
        (AreListed-written st.predicate_mask_regs _ ops listed))
      tt,
)
emit-IsPlanned st (ops, some m) closed (scoped, listed) = (
  is_scoped-append [] st.ops ops scoped (closed (written [] st.ops)).0,
  subst (AreListed (st.predicate_mask_regs ++ m ∷ [])) (sym (written-append [] st.ops ops)) (
      All-append st.predicate_mask_regs (m ∷ []) _
        (AreListed-written st.predicate_mask_regs _ ops listed) (closed (written [] st.ops)).1),
)

-- The value, if there is one, has the property.
data Each {ℓ} {A : Type ℓ} (P : A → Type 0) : Option A → Type ℓ where
  nothing : Each P none
  value : {a : A} → P a → Each P (some a)

Each-bind {ℓ κ} :
    {A : Type ℓ} {B : Type κ} (P : B → Type 0) (o : Option A) (f : A → Option B)
    → ((a : A) → o ≡ some a → Each P (f a))
    → Each P (o >>= f)
Each-bind P none f h = nothing
Each-bind P (some a) f h = h a refl

Each-value {ℓ} : {B : Type ℓ} (P : B → Type 0) (o : Option B) (b : B) → o ≡ some b → Each P o → P b
Each-value P (some a) b e (value h) = subst P (cc) h
Each-value P none b e nothing = cc

plan_string-IsPlanned :
    (rg : RowGroup) (pred : Predicate) (st : Planning)
    → IsPlanned st
    → Each IsPlanned (plan_string rg pred st)
unfolding plan_string
plan_string-IsPlanned rg pred st planned =
    Each-bind IsPlanned (physical_idx pred.column_name rg.column_names 0) _ λ p_skeleton _.
      Each-bind IsPlanned (physical_idx (pred.column_name ++ codes "_kim") rg.column_names 0) _
        λ p_kim _.
          Each-bind IsPlanned (str_col_idx pred.column_name (logical_columns rg.column_names) 0) _
            λ idx _. value (
              emit-IsPlanned
                (record st {
                  string_predicates = st.string_predicates ++ pred ∷ [];
                  string_col_indices = st.string_col_indices ++ idx ∷ [];
                  clean_string_patterns =
                      st.clean_string_patterns ++ clean_pattern pred.op pred.value ∷ [];
                })
                (string_ops pred.op pred.value p_skeleton p_kim st.vreg_counter)
                (string_ops-AreClosed pred.op pred.value p_skeleton p_kim st.vreg_counter) planned)

plan_number-IsPlanned :
    (rg : RowGroup) (pred : Predicate) (st : Planning)
    → IsPlanned st
    → Each IsPlanned (plan_number rg pred st)
unfolding plan_number
plan_number-IsPlanned rg pred st planned =
    Each-bind IsPlanned (physical_idx pred.column_name rg.column_names 0) _ λ p _. value (
      emit-IsPlanned st (numeric_ops pred rg p st.vreg_counter)
        (numeric_ops-AreClosed pred rg p st.vreg_counter) planned)

plan_predicates-IsPlanned :
    (rg : RowGroup) (preds : List Predicate) (st : Planning)
    → IsPlanned st
    → Each IsPlanned (plan_predicates rg preds st)
unfolding plan_predicates
plan_predicates-IsPlanned rg [] st planned = value planned
plan_predicates-IsPlanned rg (pred ∷ preds) st planned =
    let one = if pred.is_string then plan_string rg pred st else plan_number rg pred st in
    Each-bind IsPlanned one _ λ st' e.
      plan_predicates-IsPlanned rg preds st'
        (Each-value IsPlanned one st' e (either pred.is_string))
  where
    either :
        (b : Bool) → Each IsPlanned (if b then plan_string rg pred st else plan_number rg pred st)
    either true = plan_string-IsPlanned rg pred st planned
    either false = plan_number-IsPlanned rg pred st planned

all_ops-is_scoped :
    (st : Planning) → IsPlanned st → Each (λ ops. is_scoped [] ops ≡ true) (all_ops st)
unfolding all_ops
all_ops-is_scoped st (scoped, listed) =
    elim st.predicate_mask_regs
        as (λ masks.
          AreListed masks (written [] st.ops)
          → Each (λ ops. is_scoped [] ops ≡ true)
              (elim masks [ [] ↦ none | m ∷ ms ↦ some (st.ops ++ combine st.vreg_counter m ms) ])) [
                | [] ↦ λ h. nothing
                | m ∷ ms ↦ λ h. value (
                    is_scoped-append [] st.ops _ scoped
                      (combine-is_scoped (written [] st.ops) st.vreg_counter m ms h.0 h.1))
              ]
      listed

-- The function of a planned query is compiled from operations that read only registers that
-- operations before them write, and none of the comparisons writes the register that it reads: for
-- any predicates, row group and column, if `Plan` does not throw.
pub plan-is_scoped :
    (compile_ops : List MicroOp → Option (List CbstTile → Memory → ℕ → ℕ))
    (predicates : List Predicate) (rg : RowGroup) (agg_column_name : Bytes) (runner : QueryRunner)
    → plan compile_ops predicates rg agg_column_name ≡ some runner
    → (ops : List MicroOp) × (compile_ops ops ≡ some runner.scan_func) × (is_scoped [] ops ≡ true)
unfolding plan is_scoped
plan-is_scoped compile_ops predicates rg agg_column_name runner e =
    Each-value Compiled (plan compile_ops predicates rg agg_column_name) runner e (
      Each-bind Compiled (plan_predicates rg predicates begun) _ λ st planned.
        Each-bind Compiled (all_ops st) _ λ ops operated.
          Each-bind Compiled (plan_aggregate rg agg_column_name) _ λ aggregate _.
            Each-bind Compiled (compile_ops ops) _ λ scan_func compiled. value (
              ops,
              compiled,
              Each-value (λ ops. is_scoped [] ops ≡ true) (all_ops st) ops operated
                  (all_ops-is_scoped st (
                    Each-value IsPlanned (plan_predicates rg predicates begun) st planned
                      (plan_predicates-IsPlanned rg predicates begun (refl, tt)))),
            ))
  where
    begun : Planning
    begun = record {
      vreg_counter = 0;
      ops = [];
      predicate_mask_regs = [];
      string_predicates = [];
      string_col_indices = [];
      clean_string_patterns = [];
    }

    Compiled : QueryRunner → Type 0
    Compiled r =
        (ops : List MicroOp) × (compile_ops ops ≡ some r.scan_func) × (is_scoped [] ops ≡ true)
