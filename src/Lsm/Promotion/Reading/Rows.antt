-- ===== src/Lsm/Promotion/Reading/Rows.antt =====
-- The rows of ingested blocks, read one after the other.
use green_gate.Base.{
  ℕ, zero, suc, ◌+◌, ◌-◌, ◌*◌, ◌^◌, ◌≤◌, ◌<◌, ◌≡◌, refl, sym, ap, ap₂, ◌∙◌, false, Option, some,
  List, [], ◌∷◌, ◌++◌, append_assoc, arith, ◌==◌, if◌then◌else◌, length, length-append, get_or,
}
use green_gate.Base.Bits.{bit, bit-zero, bit-complement}
use green_gate.Base.Bytes.{Bytes}
use green_gate.Base.Options.{◌>>=◌}
use green_gate.Query.Tail.{Memory, string_at}
use green_gate.Storage.{CbstTile, BlockData}
use green_gate.Ingest.Ingester.{Field, column_strings, block_strings}
use green_gate.Ingest.Ingester.Blocks.{
  Matches, no_fields, string_field, integer_field, skeleton_tile, kim_tile, integer_tile, tiles_of,
  tiles_of_string, tiles_of_integer,
}
use green_gate.Lsm.Promotion.{
  Cell, logical_to_physical, logical_to_str_col_idx, read_cell, read_row, append_row, read_rows,
  cell_of,
}
use green_gate.Lsm.Promotion.Reading.{
  row_cells, length-column_strings, block_strings_string, block_strings_integer, read_cell_at,
  integer_tile-cell, skeleton_tile-cell,
}

-- `n` rows of a batch from row `i` on, appended to builders.
unfoldable pub add_rows : List Field → List ℕ → ℕ → ℕ → List (List Cell) → List (List Cell)
unfolding append_row row_cells
add_rows fields types i zero builders = builders
add_rows fields types i (suc n) builders =
    add_rows fields types (i + 1) n (append_row builders (row_cells fields types i))

read_row_cons :
    (mem : Memory) (block : BlockData) (rows r t p s : ℕ) (types ps ss : List ℕ) (c : Cell)
    (cs : List Cell)
    → read_cell mem block rows r t p s ≡ some c
    → read_row mem block rows r types ps ss ≡ some cs
    → read_row mem block rows r (t ∷ types) (p ∷ ps) (s ∷ ss) ≡ some (c ∷ cs)
unfolding read_row
read_row_cons mem block rows r t p s types ps ss c cs e e' =
    ap
      (λ (o : Option Cell).
        o >>= λ cell. read_row mem block rows r types ps ss >>= λ cells. some (cell ∷ cells))
      e
    ∙ ap (λ (o : Option (List Cell)). o >>= λ cells. some (c ∷ cells)) e'

physical_integer :
    (p t : ℕ) (types : List ℕ)
    → (t == 13) ≡ false
    → logical_to_physical p (t ∷ types) ≡ p ∷ logical_to_physical (p + 1) types
unfolding logical_to_physical
physical_integer p t types h = rw h refl

str_col_integer :
    (s t : ℕ) (types : List ℕ)
    → (t == 13) ≡ false
    → logical_to_str_col_idx s (t ∷ types) ≡ 0 ∷ logical_to_str_col_idx s types
unfolding logical_to_str_col_idx
str_col_integer s t types h = rw h refl

module _ (mem : Memory) (block : BlockData) (count start : ℕ) (strings : List Bytes)
    (room : count ≤ 64)
    (strings_at : (k : ℕ) → k < length strings → string_at mem k ≡ get_or strings k []) where
  -- The columns of a row, from tile `p` and string column `s` on.
  read_row-row_cells :
      {fields : List Field} {types : List ℕ} (r p s : ℕ) (front : List CbstTile)
      (sfront : List Bytes)
      → r < count
      → Matches fields types
      → block.columns ≡ front ++ tiles_of start count fields
      → p ≡ length front
      → strings ≡ sfront ++ block_strings start count fields
      → length sfront ≡ s * count
      → read_row mem block count r types
          (logical_to_physical p types)
          (logical_to_str_col_idx s types)
        ≡ some (row_cells fields types (start + r))
  unfolding read_row logical_to_physical logical_to_str_col_idx row_cells
  read_row-row_cells r p s front sfront inside no_fields e e1 e2 e3 = refl
  read_row-row_cells r p s front sfront inside
        (string_field {field = field} {fields = fields} {types = types} is_str later) e e1 e2 e3 =
      let a = skeleton_tile field start count in
      let b = kim_tile field start count in
      let own = column_strings field.column start count in
      let columns_are : block.columns ≡ front ++ a ∷ (b ∷ tiles_of start count fields) =
        e
        ∙ ap (λ (cs : List CbstTile). front ++ cs)
            (tiles_of_string start count field fields is_str) in
      let strings_are : strings ≡ sfront ++ (own ++ block_strings start count fields) =
        e2
        ∙ ap (λ (xs : List Bytes). sfront ++ xs)
            (block_strings_string start count field fields is_str) in
      read_row_cons mem block count r 13 p s types (logical_to_physical (p + 2) types)
        (logical_to_str_col_idx (s + 1) types) (cell_of 13 field.column (start + r))
        (row_cells fields types (start + r))
        (read_cell_at mem block count r 13 p s front (b ∷ tiles_of start count fields) a _
          columns_are e1
          (skeleton_tile-cell mem count start r strings inside room strings_at field s sfront
            (block_strings start count fields) strings_are e3))
        (read_row-row_cells r (p + 2) (s + 1) ((front ++ a ∷ []) ++ b ∷ []) (sfront ++ own) inside
          later
          (columns_are
            ∙ sym (append_assoc front (a ∷ []) (b ∷ tiles_of start count fields))
            ∙ sym (append_assoc (front ++ a ∷ []) (b ∷ []) (tiles_of start count fields)))
          (omega (arith, length-append front (a ∷ []), length-append (front ++ a ∷ []) (b ∷ [])))
          (strings_are ∙ sym (append_assoc sfront own (block_strings start count fields)))
          (omega (arith, length-append sfront own, length-column_strings field.column start count)))
  read_row-row_cells r p s front sfront inside
        (integer_field {field = field} {fields = fields} {t = t} {types = types} is_int other fits
          later)
        e e1 e2 e3 =
      let a = integer_tile field start count in
      let columns_are : block.columns ≡ front ++ a ∷ tiles_of start count fields =
        e
        ∙ ap (λ (cs : List CbstTile). front ++ cs)
            (tiles_of_integer start count field fields is_int) in
      ap₂ (λ (ps ss : List ℕ). read_row mem block count r (t ∷ types) ps ss)
        (physical_integer p t types other) (str_col_integer s t types other)
      ∙ (read_row_cons mem block count r t p 0 types (logical_to_physical (p + 1) types)
          (logical_to_str_col_idx s types) (cell_of t field.column (start + r))
          (row_cells fields types (start + r))
          (read_cell_at mem block count r t p 0 front (tiles_of start count fields) a _ columns_are
            e1
            (integer_tile-cell mem count start r strings inside room strings_at field t 0 other
              fits))
          (read_row-row_cells r (p + 1) s (front ++ a ∷ []) sfront inside later
            (columns_are ∙ sym (append_assoc front (a ∷ []) (tiles_of start count fields)))
            (omega (arith, length-append front (a ∷ [])))
            (e2
              ∙ ap (λ (xs : List Bytes). sfront ++ xs)
                  (block_strings_integer start count field fields is_int))
            e3))

  -- The loop over the rows of a block of active rows.
  pub read_rows-add_rows :
      {fields : List Field} {types : List ℕ} (n r : ℕ) (builders : List (List Cell))
      → Matches fields types
      → block.columns ≡ tiles_of start count fields
      → block.delete_mask ≡ 2 ^ 64 - 1
      → strings ≡ block_strings start count fields
      → r + n ≤ count
      → read_rows types mem block count n r builders
        ≡ some (add_rows fields types (start + r) n builders)
  unfolding read_rows add_rows
  read_rows-add_rows zero r builders m e e1 e2 h = refl
  read_rows-add_rows {fields} {types} (suc n) r builders m e e1 e2 h =
      let active : bit block.delete_mask r ≡ 1 =
        ap (λ (w : ℕ). bit w r) e1
        ∙ bit-complement 64 0 r (omega arith) (omega arith)
        ∙ omega (arith, bit-zero r) in
      let cells = row_cells fields types (start + r) in
      let row = read_row-row_cells r 0 0 [] [] (omega arith) m e refl e2 (omega arith) in
      let next = read_rows types mem block count n (r + 1) in
      let taken =
        read_row mem block count r types (logical_to_physical 0 types)
          (logical_to_str_col_idx 0 types)
        >>= λ cs. next (append_row builders cs) in
      ap (λ (x : ℕ). if x == 0 then next builders else taken) active
      ∙ ap (λ (o : Option (List Cell)). o >>= λ cs. next (append_row builders cs)) row
      ∙ read_rows-add_rows n (r + 1) (append_row builders cells) m e e1 e2 (omega arith)
      ∙ ap (λ (i : ℕ). some (add_rows fields types i n (append_row builders cells)))
          {x = start + (r + 1)} {y = start + r + 1} (omega arith)
