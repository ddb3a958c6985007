-- ===== src/Cluster/Join/Rows.antt =====
-- The join of the cluster is the nested loop over the rows of both sides, by their strings.
use green_gate.Base.{
  ℕ, zero, suc, ◌+◌, ◌%◌, ◌^◌, ◌≤◌, ◌<◌, ◌≡◌, refl, sym, ap, ap₂, subst, ◌∙◌, inl, inr, Bool, true,
  false, not, ◌&&◌, none, some, Option-cases, List, [], ◌∷◌, ◌++◌, map, arith, ==_self,
  if◌then◌else◌, Bool-cases, length, length-append, length-map, length-replicate, get_elem?,
  replicate, append_assoc, All,
}
use green_gate.Base.Bytes.{Bytes, bytes_eq, bytes_eq_iff}
use green_gate.Cluster.{ShuffleEntry}
use green_gate.Cluster.Matching.{keep_rows, keep_all, get_matching_rows}
use green_gate.Cluster.RowId.{InRange, RowId, pack_row_id, unpack_row_id-pack_row_id}
use green_gate.Cluster.Shuffle.{sig_eq, equal_range, probe, perform_local_join}
use green_gate.Cluster.Shuffle.Laws.{count, count-append}
use green_gate.Cluster.Sides.{signature_of, sign_rows, prepare_side}
use green_gate.Cluster.Join.{Cluster, string_val, prepare_all, same_strings, execute_join_query}
use green_gate.Cluster.Join.Laws.{execute_join_query-perform_local_join}
use green_gate.Query.{Predicate, Column, RecordBatch}

-- A row that takes part: its number and its string.
abbrev pub KeyedRow : Type 0
KeyedRow = ℕ × Bytes

abbrev entry_of : KeyedRow → ShuffleEntry
entry_of (row_id, val) = record { sig = signature_of val; row_id = row_id }

-- The rows of a batch, a side of a node, and a side of all nodes that take part.
unfoldable pub keyed_rows : ℕ → ℕ → Column → ℕ → List Bool → List KeyedRow
keyed_rows node_id b col r [] = []
keyed_rows node_id b col r (m ∷ matches) =
    if m && not (col.is_null r)
    then (pack_row_id node_id b r, col.view r) ∷ keyed_rows node_id b col (r + 1) matches
    else keyed_rows node_id b col (r + 1) matches

unfoldable pub keyed_side : ℕ → ℕ → List RecordBatch → List Predicate → Bytes → List KeyedRow
unfolding keyed_rows
keyed_side node_id b [] preds join_col = []
keyed_side node_id b (batch ∷ batches) preds join_col = elim (batch.column_by_name join_col) [
  | none ↦ keyed_side node_id (b + 1) batches preds join_col
  | some col ↦
      keyed_rows node_id b col 0 (get_matching_rows batch preds)
      ++ keyed_side node_id (b + 1) batches preds join_col
]

unfoldable pub keyed_all : (ℕ → List RecordBatch) → List Predicate → Bytes → ℕ → ℕ → List KeyedRow
unfolding keyed_side
keyed_all batches preds join_col n zero = []
keyed_all batches preds join_col n (suc k) =
    keyed_side n 0 (batches n) preds join_col ++ keyed_all batches preds join_col (n + 1) k

-- The pairs of rows with equal strings.
unfoldable pub equal_to : Bytes → List KeyedRow → ℕ
equal_to val [] = 0
equal_to val ((row_id, val') ∷ rows) = (if bytes_eq val' val then 1 else 0) + equal_to val rows

unfoldable pub equal_pairs : List KeyedRow → List KeyedRow → ℕ
unfolding equal_to
equal_pairs left [] = 0
equal_pairs left ((row_id, val) ∷ right) = equal_to val left + equal_pairs left right

-- The entries are those of the rows.
sign_rows-keyed_rows :
    (node_id b : ℕ) (col : Column) (r : ℕ) (matches : List Bool)
    → sign_rows node_id b col r matches ≡ map entry_of (keyed_rows node_id b col r matches)
unfolding sign_rows keyed_rows
sign_rows-keyed_rows node_id b col r [] = refl
sign_rows-keyed_rows node_id b col r (m ∷ matches) = elim (Bool-cases (m && not (col.is_null r))) [
  | inl taken ↦ rw (taken) (
      ap (λ rows. entry_of (pack_row_id node_id b r, col.view r) ∷ rows)
        (sign_rows-keyed_rows node_id b col (r + 1) matches))
  | inr left_out ↦ rw (left_out) (sign_rows-keyed_rows node_id b col (r + 1) matches)
]

map-append : (xs ys : List KeyedRow) → map entry_of (xs ++ ys) ≡ map entry_of xs ++ map entry_of ys
map-append [] ys = refl
map-append (x ∷ xs) ys = ap (λ rows. entry_of x ∷ rows) (map-append xs ys)

prepare_side-keyed_side :
    (node_id b : ℕ) (batches : List RecordBatch) (preds : List Predicate) (join_col : Bytes)
    → prepare_side node_id b batches preds join_col
      ≡ map entry_of (keyed_side node_id b batches preds join_col)
unfolding prepare_side keyed_side
prepare_side-keyed_side node_id b [] preds join_col = refl
prepare_side-keyed_side node_id b (batch ∷ batches) preds join_col =
    let later = prepare_side-keyed_side node_id (b + 1) batches preds join_col in
    elim (Option-cases (batch.column_by_name join_col)) [
      | inl missing ↦ rw (missing) later
      | inr (col, found) ↦
          let rows = keyed_rows node_id b col 0 (get_matching_rows batch preds) in
          rw (found) (
            ap₂ ◌++◌ (sign_rows-keyed_rows node_id b col 0 (get_matching_rows batch preds)) later
            ∙ sym (map-append rows (keyed_side node_id (b + 1) batches preds join_col)))
    ]

prepare_all-keyed_all :
    (batches : ℕ → List RecordBatch) (preds : List Predicate) (join_col : Bytes) (n k : ℕ)
    → prepare_all batches preds join_col n k ≡ map entry_of (keyed_all batches preds join_col n k)
unfolding prepare_all keyed_all
prepare_all-keyed_all batches preds join_col n zero = refl
prepare_all-keyed_all batches preds join_col n (suc k) =
    ap₂ ◌++◌ (prepare_side-keyed_side n 0 (batches n) preds join_col)
      (prepare_all-keyed_all batches preds join_col (n + 1) k)
    ∙ sym (
        map-append (keyed_side n 0 (batches n) preds join_col)
          (keyed_all batches preds join_col (n + 1) k))

-- Rows have the strings that the coordinator looks up by their numbers.
abbrev HasStrings : (ℕ → List RecordBatch) → Bytes → List KeyedRow → Type 0
HasStrings batches join_col rows = All (λ row. string_val batches row.0 join_col ≡ row.1) rows

HasStrings-append :
    (batches : ℕ → List RecordBatch) (join_col : Bytes) (xs ys : List KeyedRow)
    → HasStrings batches join_col xs
    → HasStrings batches join_col ys
    → HasStrings batches join_col (xs ++ ys)
HasStrings-append batches join_col [] ys hx hy = hy
HasStrings-append batches join_col (x ∷ xs) ys hx hy =
    (hx.0, HasStrings-append batches join_col xs ys hx.1 hy)

sig_eq_self : (val : Bytes) → sig_eq (signature_of val) (signature_of val) ≡ true
unfolding sig_eq
sig_eq_self val = rw (==_self (signature_of val).kim, ==_self (signature_of val).xor_sum) refl

-- Equal strings have equal signatures, so the hash join loses no pair.
module _ (cluster : Cluster) (left_join_col right_join_col : Bytes) where
  probe-equal_to :
      (left : List KeyedRow) (row_id : ℕ) (val : Bytes)
      → HasStrings cluster.left_batches left_join_col left
      → string_val cluster.right_batches row_id right_join_col ≡ val
      → count
          (same_strings cluster left_join_col right_join_col)
          (probe (equal_range (signature_of val) (map entry_of left)) row_id)
        ≡ equal_to val left
  unfolding equal_range probe equal_to same_strings
  probe-equal_to [] row_id val h e = refl
  probe-equal_to ((left_id, val') ∷ left) row_id val h e =
      let rest = probe-equal_to left row_id val h.1 e in
      let counted =
        count (same_strings cluster left_join_col right_join_col)
          (probe (equal_range (signature_of val) (map entry_of left)) row_id) in
      elim (Bool-cases (sig_eq (signature_of val') (signature_of val))) [
        | inl same_sig ↦ rw (same_sig) (
            ap₂ (λ a b. (if bytes_eq a b then 1 else 0) + counted) h.0 e
            ∙ ap (λ (n : ℕ). (if bytes_eq val' val then 1 else 0) + n) rest)
        | inr other_sig ↦
            let differ : bytes_eq val' val ≡ false = elim (Bool-cases (bytes_eq val' val)) [
              | inl same ↦
                  let eq : val' ≡ val = (bytes_eq_iff val' val).0 same in
                  absurd (
                    cc (
                      other_sig,
                      ap (λ v. sig_eq (signature_of v) (signature_of val)) eq,
                      sig_eq_self val,
                    ))
              | inr other ↦ other
            ] in
            rw (other_sig, differ) (rest ∙ omega arith)
      ]

  join-equal_pairs :
      (left right : List KeyedRow)
      → HasStrings cluster.left_batches left_join_col left
      → HasStrings cluster.right_batches right_join_col right
      → count
          (same_strings cluster left_join_col right_join_col)
          (perform_local_join (map entry_of left) (map entry_of right))
        ≡ equal_pairs left right
  unfolding perform_local_join equal_pairs
  join-equal_pairs left [] hl hr = refl
  join-equal_pairs left ((row_id, val) ∷ right) hl hr =
      count-append (same_strings cluster left_join_col right_join_col)
        (probe (equal_range (signature_of val) (map entry_of left)) row_id)
        (perform_local_join (map entry_of left) (map entry_of right))
      ∙ ap₂ ◌+◌ (probe-equal_to left row_id val hl hr.0) (join-equal_pairs left right hl hr.1)

string_val-found :
    (batches : ℕ → List RecordBatch) (join_col : Bytes) (n b r : ℕ) (batch : RecordBatch)
    (col : Column)
    → InRange n b r
    → get_elem? (batches n) b ≡ some batch
    → batch.column_by_name join_col ≡ some col
    → string_val batches (pack_row_id n b r) join_col ≡ col.view r
unfolding string_val
string_val-found batches join_col n b r batch col range found has_col =
    ap
      (λ (id : RowId). elim (get_elem? (batches id.node_id) id.batch_idx) [
        | none ↦ []
        | some batch ↦ elim (batch.column_by_name join_col) [
          | none ↦ []
          | some col ↦ col.view id.row_idx
        ]
      ])
      (unpack_row_id-pack_row_id n b r range)
    ∙ rw (found) (rw (has_col) refl)

keyed_rows-HasStrings :
    (batches : ℕ → List RecordBatch) (join_col : Bytes) (n b : ℕ) (batch : RecordBatch)
    (col : Column)
    → n < 256
    → b < 4096
    → get_elem? (batches n) b ≡ some batch
    → batch.column_by_name join_col ≡ some col
    → (r : ℕ) (matches : List Bool) → r + length matches ≤ 4096
    → HasStrings batches join_col (keyed_rows n b col r matches)
unfolding keyed_rows
keyed_rows-HasStrings batches join_col n b batch col n_lt b_lt found has_col r [] h = tt
keyed_rows-HasStrings batches join_col n b batch col n_lt b_lt found has_col r (m ∷ matches) h =
    let later =
      keyed_rows-HasStrings batches join_col n b batch col n_lt b_lt found has_col (r + 1) matches
        (omega arith) in
    elim (Bool-cases (m && not (col.is_null r))) [
      | inl taken ↦ rw (taken) (
        string_val-found batches join_col n b r batch col
            (record { node_range = n_lt; batch_range = b_lt; row_range = omega arith }) found
            has_col,
        later,
      )
      | inr left_out ↦ rw (left_out) later
    ]

length-keep_rows :
    (pred : Predicate) (col : Column) (r : ℕ) (matches : List Bool)
    → length (keep_rows pred col r matches) ≡ length matches
unfolding keep_rows
length-keep_rows pred col r [] = refl
length-keep_rows pred col r (m ∷ matches) = ap suc (length-keep_rows pred col (r + 1) matches)

length-keep_all :
    (batch : RecordBatch) (preds : List Predicate) (matches : List Bool)
    → length (keep_all batch preds matches) ≡ length matches
unfolding keep_all
length-keep_all batch [] matches = refl
length-keep_all batch (pred ∷ preds) matches =
    elim (Option-cases (batch.column_by_name pred.column_name)) [
      | inl missing ↦
          let all_fail : keep_all batch (pred ∷ preds) matches ≡ map (λ m. false) matches =
            rw (missing, keep_all) refl in
          ap length all_fail ∙ length-map matches (λ m. false)
      | inr (col, found) ↦
          let next : keep_all batch (pred ∷ preds) matches
              ≡ keep_all batch preds (keep_rows pred col 0 matches) =
            rw (found, keep_all) refl in
          ap length next
          ∙ length-keep_all batch preds (keep_rows pred col 0 matches)
          ∙ length-keep_rows pred col 0 matches
    ]

length-get_matching_rows :
    (batch : RecordBatch) (preds : List Predicate)
    → length (get_matching_rows batch preds) ≡ batch.num_rows
unfolding get_matching_rows
length-get_matching_rows batch preds =
    length-keep_all batch preds (replicate batch.num_rows true)
    ∙ length-replicate batch.num_rows true

get_elem?-append :
    (front : List RecordBatch) (batch : RecordBatch) (back : List RecordBatch)
    → get_elem? (front ++ batch ∷ back) (length front) ≡ some batch
get_elem?-append [] batch back = refl
get_elem?-append (x ∷ front) batch back = get_elem?-append front batch back

keyed_side-HasStrings :
    (batches : ℕ → List RecordBatch) (preds : List Predicate) (join_col : Bytes) (n : ℕ)
    → n < 256
    → length (batches n) ≤ 4096
    → (front back : List RecordBatch) → batches n ≡ front ++ back
    → All (λ batch. batch.num_rows ≤ 4096) back
    → HasStrings batches join_col (keyed_side n (length front) back preds join_col)
unfolding keyed_side
keyed_side-HasStrings batches preds join_col n n_lt few front [] e h = tt
keyed_side-HasStrings batches preds join_col n n_lt few front (batch ∷ back) e h =
    let e' : batches n ≡ (front ++ batch ∷ []) ++ back =
      e ∙ sym (append_assoc front (batch ∷ []) back) in
    let next : length (front ++ batch ∷ []) ≡ length front + 1 = length-append front (batch ∷ []) in
    let later =
      subst (λ b. HasStrings batches join_col (keyed_side n b back preds join_col)) next
        (keyed_side-HasStrings batches preds join_col n n_lt few (front ++ batch ∷ []) back e'
          h.1) in
    let here : get_elem? (batches n) (length front) ≡ some batch =
      ap (λ xs. get_elem? xs (length front)) e ∙ get_elem?-append front batch back in
    let b_lt : length front < 4096 =
      omega (arith, few, ap length e, length-append front (batch ∷ back)) in
    elim (Option-cases (batch.column_by_name join_col)) [
      | inl missing ↦ rw (missing) later
      | inr (col, found) ↦ rw (found) (
          HasStrings-append batches join_col
            (keyed_rows n (length front) col 0 (get_matching_rows batch preds))
            (keyed_side n (length front + 1) back preds join_col)
            (keyed_rows-HasStrings batches join_col n (length front) batch col n_lt b_lt here found
              0 (get_matching_rows batch preds)
              (omega (arith, length-get_matching_rows batch preds, h.0)))
            later)
    ]

-- The batches of the nodes from `n` on are within the range of row numbers.
abbrev pub IsInRange : (ℕ → List RecordBatch) → ℕ → ℕ → Type 0
IsInRange batches n zero = Unit
IsInRange batches n (suc k) =
    (length (batches n) ≤ 4096)
    × All (λ batch. batch.num_rows ≤ 4096) (batches n)
    × IsInRange batches (n + 1) k

keyed_all-HasStrings :
    (batches : ℕ → List RecordBatch) (preds : List Predicate) (join_col : Bytes) (n k : ℕ)
    → n + k ≤ 256
    → IsInRange batches n k
    → HasStrings batches join_col (keyed_all batches preds join_col n k)
unfolding keyed_all
keyed_all-HasStrings batches preds join_col n zero h range = tt
keyed_all-HasStrings batches preds join_col n (suc k) h range =
    HasStrings-append batches join_col (keyed_side n 0 (batches n) preds join_col)
      (keyed_all batches preds join_col (n + 1) k)
      (keyed_side-HasStrings batches preds join_col n (omega arith) range.0 [] (batches n) refl
        range.1)
      (keyed_all-HasStrings batches preds join_col (n + 1) k (omega arith) range.2)

-- The number that `ExecuteJoinQuery` returns is the number of the pairs of rows of the two sides with
-- equal strings, modulo `2 ^ 64`, out of the rows that satisfy their side's predicates and have a
-- string: for 1 to 256 nodes with at most 4096 batches of at most 4096 rows on each side.
pub execute_join_query-equal_pairs :
    (cluster : Cluster) (left_join_col right_join_col agg_col : Bytes)
    (left_preds right_preds : List Predicate)
    → 0 < cluster.num_nodes
    → cluster.num_nodes ≤ 256
    → IsInRange cluster.left_batches 0 cluster.num_nodes
    → IsInRange cluster.right_batches 0 cluster.num_nodes
    → (execute_join_query cluster left_join_col right_join_col left_preds right_preds agg_col).0
      ≡ equal_pairs
          (keyed_all cluster.left_batches left_preds left_join_col 0 cluster.num_nodes)
          (keyed_all cluster.right_batches right_preds right_join_col 0 cluster.num_nodes)
        % 2 ^ 64
execute_join_query-equal_pairs cluster left_join_col right_join_col agg_col left_preds right_preds
      some_node few left_range right_range =
    let n = cluster.num_nodes in
    let left = keyed_all cluster.left_batches left_preds left_join_col 0 n in
    let right = keyed_all cluster.right_batches right_preds right_join_col 0 n in
    execute_join_query-perform_local_join cluster left_join_col right_join_col agg_col left_preds
      right_preds some_node
    ∙ ap₂
        (λ ls rs.
          count (same_strings cluster left_join_col right_join_col) (perform_local_join ls rs)
          % 2 ^ 64)
        (prepare_all-keyed_all cluster.left_batches left_preds left_join_col 0 n)
        (prepare_all-keyed_all cluster.right_batches right_preds right_join_col 0 n)
    ∙ ap (λ (c : ℕ). c % 2 ^ 64)
        (join-equal_pairs cluster left_join_col right_join_col left right
          (keyed_all-HasStrings cluster.left_batches left_preds left_join_col 0 n (omega arith)
            left_range)
          (keyed_all-HasStrings cluster.right_batches right_preds right_join_col 0 n (omega arith)
            right_range))
