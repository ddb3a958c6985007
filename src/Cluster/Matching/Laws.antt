-- ===== src/Cluster/Matching/Laws.antt =====
-- The rows that a node matches are those that the in-memory table matches.
use green_gate.Base.{
  ℕ, ◌+◌, ◌≡◌, refl, sym, ap, ap₂, ◌∙◌, Bool, true, false, List, [], ◌∷◌, All, inl, inr,
  Option-cases, replicate, if◌then◌else◌, Bool-cases,
}
use green_gate.Base.Bytes.{Bytes}
use green_gate.Query.{
  PredicateOp, eq, like_prefix, like_contains, gt, lt, Predicate, Column, RecordBatch,
}
use green_gate.Query.Text.{clean_pattern}
use green_gate.Lsm.MemTable.{
  match_string, match_numeric, test_row, filter_rows, apply_predicates, matching_rows,
}
use green_gate.Cluster.Matching.{
  keep_string, keep_numeric, keep_row, keep_rows, keep_all, get_matching_rows,
}

-- Strings are compared by equality and patterns, numbers by equality and order.
abbrev pub is_applicable : Bool → PredicateOp → Bool
is_applicable is_string eq = true
is_applicable true like_prefix = true
is_applicable true like_contains = true
is_applicable true gt = false
is_applicable true lt = false
is_applicable false like_prefix = false
is_applicable false like_contains = false
is_applicable false gt = true
is_applicable false lt = true

keep_string_lem :
    (op : PredicateOp) (val pat : Bytes)
    → is_applicable true op ≡ true
    → keep_string val op pat ≡ match_string val op pat
unfolding keep_string match_string
keep_string_lem eq val pat h = refl
keep_string_lem like_prefix val pat h = refl
keep_string_lem like_contains val pat h = refl
keep_string_lem gt val pat h = sym h
keep_string_lem lt val pat h = sym h

keep_numeric_lem :
    (op : PredicateOp) (val target : ℕ)
    → is_applicable false op ≡ true
    → keep_numeric val op target ≡ match_numeric val op target
unfolding keep_numeric match_numeric
keep_numeric_lem eq val target h = refl
keep_numeric_lem like_prefix val target h = sym h
keep_numeric_lem like_contains val target h = sym h
keep_numeric_lem gt val target h = refl
keep_numeric_lem lt val target h = refl

keep_row_lem :
    (pred : Predicate) (col : Column) (r : ℕ)
    → is_applicable pred.is_string pred.op ≡ true
    → keep_row pred col r ≡ test_row pred col r
unfolding keep_row test_row
keep_row_lem pred col r h = elim (Bool-cases pred.is_string) [
  | inl string ↦
      let h' : is_applicable true pred.op ≡ true = (rw (string) at h) in
      let same = keep_string_lem pred.op (col.view r) (clean_pattern pred.op pred.value) h' in
      rw (string) (ap (λ b. if col.is_null r then false else b) same)
  | inr number ↦
      let h' : is_applicable false pred.op ≡ true = (rw (number) at h) in
      let same = keep_numeric_lem pred.op (col.value_at r) pred.numeric_value h' in
      rw (number) (ap (λ b. if col.is_null r then false else b) same)
]

keep_rows_lem :
    (pred : Predicate) (col : Column) (r : ℕ) (matches : List Bool)
    → is_applicable pred.is_string pred.op ≡ true
    → keep_rows pred col r matches ≡ filter_rows pred col r matches
unfolding keep_rows filter_rows
keep_rows_lem pred col r [] h = refl
keep_rows_lem pred col r (m ∷ matches) h =
    ap₂ ◌∷◌ (ap (λ b. if m then b else false) (keep_row_lem pred col r h))
      (keep_rows_lem pred col (r + 1) matches h)

keep_all_lem :
    (batch : RecordBatch) (preds : List Predicate) (matches : List Bool)
    → All (λ (pred : Predicate). is_applicable pred.is_string pred.op ≡ true) preds
    → keep_all batch preds matches ≡ apply_predicates batch preds matches
unfolding keep_all apply_predicates
keep_all_lem batch [] matches h = refl
keep_all_lem batch (pred ∷ preds) matches h =
    elim (Option-cases (batch.column_by_name pred.column_name)) [
      | inl missing ↦ rw (missing, keep_all, apply_predicates)
      | inr (col, found) ↦
          rw (found, keep_all, apply_predicates)
            (ap (keep_all batch preds) (keep_rows_lem pred col 0 matches h.0)
              ∙ keep_all_lem batch preds (filter_rows pred col 0 matches) h.1)
    ]

-- For predicates whose operation fits their type, that is, order on numbers and patterns on
-- strings, a node of the cluster matches the same rows of a batch as the in-memory table does.
pub get_matching_rows-matching_rows :
    (batch : RecordBatch) (preds : List Predicate)
    → All (λ (pred : Predicate). is_applicable pred.is_string pred.op ≡ true) preds
    → get_matching_rows batch preds ≡ matching_rows batch preds
unfolding get_matching_rows matching_rows
get_matching_rows-matching_rows batch preds h =
    keep_all_lem batch preds (replicate batch.num_rows true) h
