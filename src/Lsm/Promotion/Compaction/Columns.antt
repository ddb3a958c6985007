-- ===== src/Lsm/Promotion/Compaction/Columns.antt =====
-- The cells of a table, column by column, and the columns that Arrow's builders make of them.
use green_gate.Base.{
  ℕ, zero, suc, ◌+◌, ◌^◌, ◌<◌, ◌≡◌, refl, sym, ap, ap₂, ◌∙◌, subst, true, false, some, List, [],
  ◌∷◌, ◌++◌, append_assoc, append-nil, arith, ◌==◌, ==_iff, Bool-cases, inl, inr, length,
  length-append, get_elem?, All,
}
use green_gate.Base.Bytes.{Bytes}
use green_gate.Query.{Column}
use green_gate.Ingest.Ingester.{Field}
use green_gate.Ingest.Ingester.Blocks.{Matches, no_fields, string_field, integer_field}
use green_gate.Lsm.Promotion.{Cell, null_cell, integer, text, append_row, cell_of, column_cells}
use green_gate.Lsm.Promotion.Reading.{row_cells, get_elem?-append}
use green_gate.Lsm.Promotion.Reading.Rows.{add_rows}
use green_gate.Lsm.Promotion.Compaction.{new_builders, new_fields}

-- What Arrow's builders promise: a cell is null if a null was appended there, and otherwise has the
-- value that was appended. Values are 64-bit patterns.
pub record IsFinish (finish : List Cell → Column) : Type 0 where
  pub at_null :
      (cells : List Cell) (i : ℕ)
      → get_elem? cells i ≡ some null_cell
      → (finish cells).is_null i ≡ true
  pub at_integer :
      (cells : List Cell) (i v : ℕ)
      → get_elem? cells i ≡ some (integer v)
      → v < 2 ^ 64
      → ((finish cells).is_null i ≡ false) × ((finish cells).value_at i ≡ v)
  pub at_text :
      (cells : List Cell) (i : ℕ) (s : Bytes)
      → get_elem? cells i ≡ some (text s)
      → ((finish cells).is_null i ≡ false) × ((finish cells).view i ≡ s)
  pub is_word : (cells : List Cell) (i : ℕ) → (finish cells).value_at i < 2 ^ 64

-- A cell of a column: text in a string column, and 64-bit patterns in the others.
unfoldable pub Fits : ℕ → Cell → Type 0
Fits t null_cell = Unit
Fits t (integer v) = ((t == 13) ≡ false) × (v < 2 ^ 64)
Fits t (text s) = (t == 13) ≡ true

-- Columns of `total` cells each, by the names and types of the table.
pub data AreColumns (total : ℕ) : List Bytes → List ℕ → List (List Cell) → Type 0 where
  no_columns : AreColumns total [] [] []
  a_column :
      {name : Bytes} {names : List Bytes} {t : ℕ} {types : List ℕ} {cells : List Cell}
      {columns : List (List Cell)}
      → All (Fits t) cells
      → length cells ≡ total
      → AreColumns total names types columns
      → AreColumns total (name ∷ names) (t ∷ types) (cells ∷ columns)

-- Cells appended to each builder.
unfoldable pub append_columns : List (List Cell) → List (List Cell) → List (List Cell)
append_columns [] columns = []
append_columns (b ∷ builders) [] = b ∷ builders
append_columns (b ∷ builders) (c ∷ columns) = (b ++ c) ∷ append_columns builders columns

-- The columns of `n` rows of a batch, from row `i` on.
unfoldable pub columns_of : List Field → List ℕ → ℕ → ℕ → List (List Cell)
unfolding column_cells
columns_of (field ∷ fields) (t ∷ types) i n =
    column_cells t field.column i n ∷ columns_of fields types i n
columns_of fields types i n = []

append_columns_none :
    (builders : List (List Cell)) (fields : List Field) (types : List ℕ) (i : ℕ)
    → append_columns builders (columns_of fields types i 0) ≡ builders
unfolding append_columns columns_of
append_columns_none [] fields types i = refl
append_columns_none (b ∷ builders) [] types i = refl
append_columns_none (b ∷ builders) (field ∷ fields) [] i = refl
append_columns_none (b ∷ builders) (field ∷ fields) (t ∷ types) i =
    ap₂ ◌∷◌ (append-nil b) (append_columns_none builders fields types i)

append_columns-append_row :
    (builders : List (List Cell)) (fields : List Field) (types : List ℕ) (i n : ℕ)
    → append_columns
        (append_row builders (row_cells fields types i))
        (columns_of fields types (i + 1) n)
      ≡ append_columns builders (columns_of fields types i (suc n))
unfolding append_columns columns_of append_row row_cells column_cells
append_columns-append_row [] fields types i n = refl
append_columns-append_row (b ∷ builders) [] types i n = refl
append_columns-append_row (b ∷ builders) (field ∷ fields) [] i n = refl
append_columns-append_row (b ∷ builders) (field ∷ fields) (t ∷ types) i n =
    ap₂ ◌∷◌ (append_assoc b (cell_of t field.column i ∷ []) (column_cells t field.column (i + 1) n))
      (append_columns-append_row builders fields types i n)

-- Row by row or column by column, the builders get the same cells.
pub add_rows-append_columns :
    (fields : List Field) (types : List ℕ) (i n : ℕ) (builders : List (List Cell))
    → add_rows fields types i n builders ≡ append_columns builders (columns_of fields types i n)
unfolding add_rows
add_rows-append_columns fields types i zero builders =
    sym (append_columns_none builders fields types i)
add_rows-append_columns fields types i (suc n) builders =
    add_rows-append_columns fields types (i + 1) n (append_row builders (row_cells fields types i))
    ∙ append_columns-append_row builders fields types i n

module _ (finish : List Cell → Column) (arrow : IsFinish finish) where
  cell_of-finish :
      (t i : ℕ) (cells : List Cell) (c : Cell)
      → get_elem? cells i ≡ some c
      → Fits t c
      → cell_of t (finish cells) i ≡ c
  unfolding cell_of Fits
  cell_of-finish t i cells null_cell e h = rw (arrow.at_null cells i e) refl
  cell_of-finish t i cells (integer v) e (not_string, small) =
      let (here, value) = arrow.at_integer cells i v e small in
      rw (here, not_string) (ap integer value)
  cell_of-finish t i cells (text s) e is_str =
      let (here, value) = arrow.at_text cells i s e in rw (here, is_str) (ap text value)

  column_cells-finish :
      (t : ℕ) (front rest all : List Cell) (i : ℕ)
      → all ≡ front ++ rest
      → i ≡ length front
      → All (Fits t) rest
      → column_cells t (finish all) i (length rest) ≡ rest
  unfolding column_cells
  column_cells-finish t front [] all i e e' h = refl
  column_cells-finish t front (c ∷ rest) all i e e' (here, later) =
      ap₂ ◌∷◌
        (cell_of-finish t i all c
          (ap (λ (cs : List Cell). get_elem? cs i) e ∙ get_elem?-append front c rest i e') here)
        (column_cells-finish t (front ++ c ∷ []) rest all (i + 1)
          (e ∙ sym (append_assoc front (c ∷ []) rest)) (omega (arith, length-append front (c ∷ [])))
          later)

  -- The columns of the batch that is made of the cells are the cells.
  pub columns_of-new_fields :
      (total : ℕ) (names : List Bytes) (types : List ℕ) (columns : List (List Cell))
      → AreColumns total names types columns
      → columns_of (new_fields finish names types columns) types 0 total ≡ columns
  unfolding columns_of new_fields
  columns_of-new_fields total _ _ _ no_columns = refl
  columns_of-new_fields total (name ∷ names) (t ∷ types) (cells ∷ columns)
        (a_column fit size later) =
      ap₂ ◌∷◌
        (ap (λ (n : ℕ). column_cells t (finish cells) 0 n) (sym size)
          ∙ column_cells-finish t [] cells cells 0 refl refl fit)
        (columns_of-new_fields total names types columns later)

  -- The batch has the types of the table.
  pub Matches-new_fields :
      (total : ℕ) (names : List Bytes) (types : List ℕ) (columns : List (List Cell))
      → AreColumns total names types columns
      → Matches (new_fields finish names types columns) types
  unfolding new_fields
  Matches-new_fields total _ _ _ no_columns = no_fields
  Matches-new_fields total (name ∷ names) (t ∷ types) (cells ∷ columns) (a_column fit size later) =
      let rest = Matches-new_fields total names types columns later in
      elim (Bool-cases (t == 13)) [
        | inl is_str ↦
            let same : 13 ≡ t = sym ((==_iff t 13).0 is_str) in
            subst
              (λ (u : ℕ).
                Matches (new_fields finish (name ∷ names) (t ∷ types) (cells ∷ columns))
                  (u ∷ types))
              same (string_field (rw is_str refl) rest)
        | inr other ↦ integer_field (rw other refl) other (arrow.is_word cells) rest
      ]

-- What is appended to new builders is what they hold.
pub append_columns-new_builders :
    (total : ℕ) (names : List Bytes) (types : List ℕ) (columns : List (List Cell))
    → AreColumns total names types columns
    → append_columns (new_builders types) columns ≡ columns
unfolding append_columns new_builders
append_columns-new_builders total _ _ _ no_columns = refl
append_columns-new_builders total (name ∷ names) (t ∷ types) (cells ∷ columns)
      (a_column fit size later) =
    ap (λ (cs : List (List Cell)). cells ∷ cs)
      (append_columns-new_builders total names types columns later)
