-- ===== src/Lsm/Promotion/Compaction/Counts.antt =====
-- The compaction counts the rows whose cells it collects.
use green_gate.Base.{
  ℕ, zero, suc, ◌+◌, ◌≡◌, refl, sym, ap, subst, ◌∙◌, Bool, true, false, Option, none, some, List,
  [], ◌∷◌, ◌++◌, arith, ◌==◌, if◌then◌else◌, length, length-append, All,
}
use green_gate.Base.Bits.{bit-le}
use green_gate.Base.Bytes.{Bytes}
use green_gate.Base.Options.{◌>>=◌, bind-some, some_value}
use green_gate.Query.{Column, RecordBatch}
use green_gate.Query.Tail.{Memory}
use green_gate.Query.Runner.{rows_of_block}
use green_gate.Storage.{BlockData, RowGroup}
use green_gate.Lsm.Promotion.{
  Cell, is_string, logical_to_physical, logical_to_str_col_idx, read_cell, read_row, append_row,
  column_cells, append_batch, append_batches,
}
use green_gate.Lsm.Promotion.Compaction.{
  new_builders, alive_rows, alive_in_blocks, total_reconstructed,
}
use green_gate.Lsm.Promotion.Compaction.Alive.{
  Place, live_rows, live_blocks, live_groups, cells_at, gather,
}
use green_gate.Lsm.Promotion.Compaction.Columns.{Fits, AreColumns, no_columns, a_column}

-- A builder with `n` cells for each type.
data AreSized (n : ℕ) : List ℕ → List (List Cell) → Type 0 where
  no_builders : AreSized n [] []
  a_builder :
      {t : ℕ} {types : List ℕ} {cells : List Cell} {builders : List (List Cell)}
      → length cells ≡ n
      → AreSized n types builders
      → AreSized n (t ∷ types) (cells ∷ builders)

-- A column for each name and type, its cells of the type.
pub data AreTyped : List Bytes → List ℕ → List (List Cell) → Type 0 where
  none_typed : AreTyped [] [] []
  a_typed :
      {name : Bytes} {names : List Bytes} {t : ℕ} {types : List ℕ} {cells : List Cell}
      {columns : List (List Cell)}
      → All (Fits t) cells
      → AreTyped names types columns
      → AreTyped (name ∷ names) (t ∷ types) (cells ∷ columns)

AreTyped-AreColumns :
    {n : ℕ} {names : List Bytes} {types : List ℕ} {columns : List (List Cell)}
    → AreTyped names types columns
    → AreSized n types columns
    → AreColumns n names types columns
AreTyped-AreColumns none_typed no_builders = no_columns
AreTyped-AreColumns (a_typed fit typed) (a_builder size sized) =
    a_column fit size (AreTyped-AreColumns typed sized)

AreSized-same :
    {n m : ℕ} {types : List ℕ} {builders : List (List Cell)}
    → n ≡ m
    → AreSized n types builders
    → AreSized m types builders
AreSized-same e no_builders = no_builders
AreSized-same e (a_builder size sized) = a_builder (size ∙ e) (AreSized-same e sized)

new_builders-AreSized : (types : List ℕ) → AreSized 0 types (new_builders types)
unfolding new_builders
new_builders-AreSized [] = no_builders
new_builders-AreSized (t ∷ types) = a_builder refl (new_builders-AreSized types)

length-read_row :
    (mem : Memory) (block : BlockData) (rows r p k : ℕ) (types : List ℕ) (cells : List Cell)
    → read_row mem block rows r types (logical_to_physical p types) (logical_to_str_col_idx k types)
      ≡ some cells
    → length cells ≡ length types
unfolding read_row logical_to_physical logical_to_str_col_idx
length-read_row mem block rows r p k [] cells e = ap length (sym (some_value [] cells e))
length-read_row mem block rows r p k (t ∷ types) cells e =
    let p' = p + (if is_string t then 2 else 1) in
    let k' = if is_string t then k + 1 else k in
    let (cell, _, e') =
      bind-some (read_cell mem block rows r t p (if is_string t then k else 0)) _ cells e in
    let (rest, later, e'') =
      bind-some
        (read_row mem block rows r types (logical_to_physical p' types)
          (logical_to_str_col_idx k' types))
        _ cells e' in
    ap length (sym (some_value (cell ∷ rest) cells e''))
    ∙ ap suc (length-read_row mem block rows r p' k' types rest later)

append_row-AreSized :
    {n : ℕ} {types : List ℕ} {builders : List (List Cell)} (cells : List Cell)
    → length cells ≡ length types
    → AreSized n types builders
    → AreSized (n + 1) types (append_row builders cells)
unfolding append_row
append_row-AreSized cells e no_builders = no_builders
append_row-AreSized [] e (a_builder size sized) = absurd (omega (arith, e))
append_row-AreSized (c ∷ cells) e (a_builder {cells = b} size sized) =
    a_builder (length-append b (c ∷ []) ∙ omega (arith, size))
      (append_row-AreSized cells (omega (arith, e)) sized)

module _ (types : List ℕ) (outside : Memory) where
  gather-AreSized :
      (n : ℕ) (places : List Place) (builders cells : List (List Cell))
      → AreSized n types builders
      → gather types outside places builders ≡ some cells
      → AreSized (n + length places) types cells
  unfolding gather cells_at
  gather-AreSized n [] builders cells sized e =
      subst (AreSized (n + 0) types) (some_value builders cells e)
        (AreSized-same (omega arith) sized)
  gather-AreSized n (p ∷ places) builders cells sized e =
      let (row, at, e') = bind-some (cells_at types outside p) _ cells e in
      let longer =
        append_row-AreSized row (length-read_row _ p.block p.rows p.row 0 0 types row at) sized in
      AreSized-same (omega arith)
        (gather-AreSized (n + 1) places (append_row builders row) cells longer e')

length-live_rows :
    (block : BlockData) (rows r n : ℕ)
    → alive_rows block.delete_mask r n ≡ length (live_rows block rows r n)
unfolding alive_rows live_rows
length-live_rows block rows r zero = refl
length-live_rows block rows r (suc n) =
    ground (arith, bit-le block.delete_mask r, length-live_rows block rows (r + 1) n)

length-live_blocks :
    (rg : RowGroup) (b : ℕ) (blocks : List BlockData)
    → alive_in_blocks rg b blocks ≡ length (live_blocks rg b blocks)
unfolding alive_in_blocks live_blocks
length-live_blocks rg b [] = refl
length-live_blocks rg b (block ∷ blocks) =
    let rows = rows_of_block rg b in
    omega (
      arith,
      length-live_rows block rows 0 rows,
      length-live_blocks rg (b + 1) blocks,
      length-append (live_rows block rows 0 rows) (live_blocks rg (b + 1) blocks),
    )

-- The rows counted: the places and the rows of the batches.
unfoldable batch_rows : List RecordBatch → ℕ
batch_rows [] = 0
batch_rows (batch ∷ batches) = batch.num_rows + batch_rows batches

total_reconstructed-length :
    (groups : List RowGroup) (batches : List RecordBatch)
    → total_reconstructed groups batches ≡ length (live_groups groups) + batch_rows batches
unfolding total_reconstructed live_groups batch_rows
total_reconstructed-length [] [] = refl
total_reconstructed-length [] (batch ∷ batches) =
    omega (arith, total_reconstructed-length [] batches)
total_reconstructed-length (rg ∷ groups) batches = omega (
  arith,
  total_reconstructed-length groups batches,
  length-live_blocks rg 0 rg.blocks,
  length-append (live_blocks rg 0 rg.blocks) (live_groups groups),
)

length-column_cells : (t : ℕ) (col : Column) (r n : ℕ) → length (column_cells t col r n) ≡ n
unfolding column_cells
length-column_cells t col r zero = refl
length-column_cells t col r (suc n) = omega (arith, length-column_cells t col (r + 1) n)

column_of-length :
    (batch : RecordBatch) (t : ℕ) (o : Option Column) (cells : List Cell)
    → elim o [
      | none ↦ if batch.num_rows == 0 then some [] else none
      | some col ↦ some (column_cells t col 0 batch.num_rows)
    ]
      ≡ some cells
    → length cells ≡ batch.num_rows
column_of-length batch t none cells e = by_rows (batch.num_rows == 0) refl e
  where
    by_rows :
        (b : Bool)
        → (batch.num_rows == 0) ≡ b
        → (if b then some [] else none) ≡ some cells
        → length cells ≡ batch.num_rows
    by_rows true zero_rows h = ap length (sym (some_value [] cells h)) ∙ ground arith
    by_rows false rows h = absurd (cc h)
column_of-length batch t (some col) cells e =
    ap length (sym (some_value (column_cells t col 0 batch.num_rows) cells e))
    ∙ length-column_cells t col 0 batch.num_rows

append_batch-AreSized :
    (batch : RecordBatch) (n : ℕ) (names : List Bytes) (types : List ℕ)
    (builders cells : List (List Cell))
    → length names ≡ length types
    → AreSized n types builders
    → append_batch batch names types builders ≡ some cells
    → AreSized (n + batch.num_rows) types cells
unfolding append_batch
append_batch-AreSized batch n [] _ _ cells same no_builders e =
    subst (AreSized (n + batch.num_rows) []) (some_value [] cells e) no_builders
append_batch-AreSized batch n (name ∷ names) _ _ cells same no_builders e =
    absurd (omega (arith, same))
append_batch-AreSized batch n [] _ _ cells same (a_builder size sized) e =
    absurd (omega (arith, same))
append_batch-AreSized batch n (name ∷ names) (t ∷ types) (b ∷ builders) cells same
      (a_builder size sized) e =
    let cells_of : Option (List Cell) = elim (batch.column_by_name name) [
      | none ↦ if batch.num_rows == 0 then some [] else none
      | some col ↦ some (column_cells t col 0 batch.num_rows)
    ] in
    let (column, found, e') = bind-some cells_of _ cells e in
    let (rest, later, e'') = bind-some (append_batch batch names types builders) _ cells e' in
    subst (AreSized (n + batch.num_rows) (t ∷ types)) (some_value ((b ++ column) ∷ rest) cells e'')
      (a_builder
        (length-append b column
          ∙ omega (arith, size, column_of-length batch t (batch.column_by_name name) column found))
        (append_batch-AreSized batch n names types builders rest (omega (arith, same)) sized later))

append_batches-AreSized :
    (batches : List RecordBatch) (n : ℕ) (names : List Bytes) (types : List ℕ)
    (builders cells : List (List Cell))
    → length names ≡ length types
    → AreSized n types builders
    → append_batches batches names types builders ≡ some cells
    → AreSized (n + batch_rows batches) types cells
unfolding append_batches batch_rows
append_batches-AreSized [] n names types builders cells same sized e =
    subst (AreSized (n + 0) types) (some_value builders cells e) (AreSized-same (omega arith) sized)
append_batches-AreSized (batch ∷ batches) n names types builders cells same sized e =
    let (longer, first, e') = bind-some (append_batch batch names types builders) _ cells e in
    AreSized-same (omega arith) (
      append_batches-AreSized batches (n + batch.num_rows) names types longer cells same
        (append_batch-AreSized batch n names types builders longer same sized first) e')

length-AreTyped :
    {names : List Bytes} {types : List ℕ} {cells : List (List Cell)}
    → AreTyped names types cells
    → length names ≡ length types
length-AreTyped none_typed = refl
length-AreTyped (a_typed fit typed) = ap suc (length-AreTyped typed)

-- The cells of the rows that are not deleted and of the batches are, in each column, as many as the
-- compaction counts.
pub AreColumns-total_reconstructed :
    (outside : Memory) (groups : List RowGroup) (batches : List RecordBatch) (names : List Bytes)
    (types : List ℕ) (cells : List (List Cell))
    → (gather types outside (live_groups groups) (new_builders types)
        >>= append_batches batches names types)
      ≡ some cells
    → AreTyped names types cells
    → AreColumns (total_reconstructed groups batches) names types cells
AreColumns-total_reconstructed outside groups batches names types cells e typed =
    let (persisted, found, e') =
      bind-some (gather types outside (live_groups groups) (new_builders types))
        (append_batches batches names types) cells e in
    let sized =
      gather-AreSized types outside 0 (live_groups groups) (new_builders types) persisted
        (new_builders-AreSized types) found in
    AreTyped-AreColumns typed (
      AreSized-same (sym (total_reconstructed-length groups batches)) (
        append_batches-AreSized batches (length (live_groups groups)) names types persisted cells
          (length-AreTyped typed) (AreSized-same (omega arith) sized) e'))
