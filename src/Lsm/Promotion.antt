-- ===== src/Lsm/Promotion.antt =====
-- `PromotionDaemon` of src/lex/lsm/promotion_daemon.cpp: the rows of persisted row groups that are
-- not deleted and those of the frozen in-memory table, taken together in a new row group. The
-- builders of Arrow collect the cells of each column.
pub mod Reading
pub mod Compaction
pub mod Access
mod Tests
use green_gate.Base.{
  ℕ, zero, suc, ◌+◌, ◌*◌, ◌-◌, Bool, true, false, Option, none, some, List, [], ◌∷◌, ◌++◌, ◌==◌,
  if◌then◌else◌, get_or, get_elem?, replicate, length, map,
}
use green_gate.Base.Bits.{bit}
use green_gate.Base.Bytes.{Bytes}
use green_gate.Base.Options.{◌>>=◌}
use green_gate.Query.{Column, RecordBatch}
use green_gate.Query.Tail.{Memory, memory_of, string_at}
use green_gate.Query.Runner.{rows_of_block}
use green_gate.Storage.{CbstTile, BlockData, RowGroup}
use green_gate.Ingest.Transposer.{butterfly_transpose}

-- What is appended to a builder: `AppendNull`, or `Append` to an `Int64Builder` (as the 64-bit
-- pattern) or a `StringBuilder`.
pub data Cell : Type 0 where
  null_cell : Cell
  integer : ℕ → Cell
  text : Bytes → Cell

-- `column_types[col_idx] == 13`
abbrev pub is_string : ℕ → Bool
is_string t = t == 13

-- `logical_to_physical`, from `p` on.
unfoldable pub logical_to_physical : ℕ → List ℕ → List ℕ
logical_to_physical p [] = []
logical_to_physical p (t ∷ types) =
    p ∷ logical_to_physical (p + (if is_string t then 2 else 1)) types

-- `logical_to_str_col_idx`, from `str_col_count` on.
unfoldable pub logical_to_str_col_idx : ℕ → List ℕ → List ℕ
logical_to_str_col_idx str_col_count [] = []
logical_to_str_col_idx str_col_count (t ∷ types) =
    (if is_string t then str_col_count else 0)
    ∷ logical_to_str_col_idx (if is_string t then str_col_count + 1 else str_col_count) types

-- The cell of row `r` in the tile of a column.
unfoldable pub tile_cell : Memory → ℕ → ℕ → ℕ → ℕ → CbstTile → Cell
tile_cell mem rows_in_block r t str_col_idx tile =
    if bit tile.validity r == 0
    then null_cell
    else if is_string t
    then text (string_at mem (str_col_idx * rows_in_block + r))
    else integer (get_or (butterfly_transpose tile.planes) r 0)

-- The cell of row `r` in a physical column; `none` is an index out of range.
unfoldable pub read_cell : Memory → BlockData → ℕ → ℕ → ℕ → ℕ → ℕ → Option Cell
unfolding tile_cell
read_cell mem block rows_in_block r t p_idx str_col_idx = do
  tile ← get_elem? block.columns p_idx
  some (tile_cell mem rows_in_block r t str_col_idx tile)

-- The loop over the columns for a row: types, physical columns and indices of string columns.
unfoldable pub read_row : Memory → BlockData → ℕ → ℕ → List ℕ → List ℕ → List ℕ → Option (List Cell)
unfolding read_cell
read_row mem block rows_in_block r (t ∷ types) (p ∷ physical) (s ∷ strings) = do
  cell ← read_cell mem block rows_in_block r t p s
  cells ← read_row mem block rows_in_block r types physical strings
  some (cell ∷ cells)
read_row mem block rows_in_block r types physical strings = some []

-- A cell appended to each builder.
unfoldable pub append_row : List (List Cell) → List Cell → List (List Cell)
append_row [] cells = []
append_row (b ∷ builders) [] = b ∷ builders
append_row (b ∷ builders) (c ∷ cells) = (b ++ c ∷ []) ∷ append_row builders cells

-- The loop over the rows of a block: `n` of them, from row `r` on.
unfoldable pub read_rows :
    List ℕ → Memory → BlockData → ℕ → ℕ → ℕ → List (List Cell) → Option (List (List Cell))
unfolding read_row append_row logical_to_physical logical_to_str_col_idx
read_rows types mem block rows_in_block zero r builders = some builders
read_rows types mem block rows_in_block (suc n) r builders =
    let next = read_rows types mem block rows_in_block n (r + 1) in
    if bit block.delete_mask r == 0 then next builders else do
      cells ←
          read_row mem block rows_in_block r types (logical_to_physical 0 types)
            (logical_to_str_col_idx 0 types)
      next (append_row builders cells)

-- The loop over the blocks of a row group, from block `b` on. `outside` is what stands behind a
-- tail in memory.
unfoldable pub read_blocks :
    List ℕ → Memory → RowGroup → ℕ → List BlockData → List (List Cell) → Option (List (List Cell))
unfolding read_rows
read_blocks types outside rg b [] builders = some builders
read_blocks types outside rg b (block ∷ blocks) builders = do
  let rows_in_block = rows_of_block rg b
  let mem = memory_of outside block.tail_payload
  later ← read_rows types mem block rows_in_block rows_in_block 0 builders
  read_blocks types outside rg (b + 1) blocks later

-- The loop over the persisted row groups.
unfoldable pub read_groups :
    List ℕ → Memory → List RowGroup → List (List Cell) → Option (List (List Cell))
unfolding read_blocks
read_groups types outside [] builders = some builders
read_groups types outside (rg ∷ groups) builders = do
  later ← read_blocks types outside rg 0 rg.blocks builders
  read_groups types outside groups later

-- The cell of row `r` of a column of an in-memory table.
unfoldable pub cell_of : ℕ → Column → ℕ → Cell
cell_of t col r =
    if col.is_null r
    then null_cell
    else if is_string t
    then text (col.view r)
    else integer (col.value_at r)

-- The loop over the rows of a column: `n` of them, from row `r` on.
unfoldable pub column_cells : ℕ → Column → ℕ → ℕ → List Cell
unfolding cell_of
column_cells t col r zero = []
column_cells t col r (suc n) = cell_of t col r ∷ column_cells t col (r + 1) n

-- The loop over the columns of a batch; `none` is a null pointer that is read.
unfoldable pub append_batch :
    RecordBatch → List Bytes → List ℕ → List (List Cell) → Option (List (List Cell))
unfolding column_cells
append_batch batch (name ∷ names) (t ∷ types) (b ∷ builders) = do
  cells ← elim (batch.column_by_name name) [
    | none ↦ if batch.num_rows == 0 then some [] else none
    | some col ↦ some (column_cells t col 0 batch.num_rows)
  ]
  later ← append_batch batch names types builders
  some ((b ++ cells) ∷ later)
append_batch batch names types builders = some builders

-- The loop over the batches of the frozen table.
unfoldable pub append_batches :
    List RecordBatch → List Bytes → List ℕ → List (List Cell) → Option (List (List Cell))
unfolding append_batch
append_batches [] names types builders = some builders
append_batches (batch ∷ batches) names types builders = do
  later ← append_batch batch names types builders
  append_batches batches names types later
