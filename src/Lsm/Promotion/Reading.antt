-- ===== src/Lsm/Promotion/Reading.antt =====
-- The cells that are read from an ingested block are those of the batch.
pub mod Rows
pub mod Groups
use green_gate.Base.{
  ℕ, zero, suc, ◌+◌, ◌-◌, ◌*◌, ◌%◌, ◌^◌, ◌≤◌, ◌<◌, ◌≡◌, refl, sym, ap, ◌∙◌, Bool, true, false, not,
  Option, none, some, List, [], ◌∷◌, ◌++◌, append_assoc, arith, ltb, ◌==◌, if◌then◌else◌,
  Bool-cases, inl, inr, length, length-append, get_or, get_elem?,
}
use green_gate.Base.Bits.{bit}
use green_gate.Base.Bytes.{Bytes}
use green_gate.Base.Options.{◌>>=◌}
use green_gate.Query.{Column}
use green_gate.Query.Tail.{Memory, string_at}
use green_gate.Storage.{CbstTile, BlockData}
use green_gate.Ingest.Transposer.{butterfly_transpose}
use green_gate.Ingest.Ingester.{
  ArrowType, string, int64, Field, is_text, sign_extend, skeleton, tile_of_rows, column_strings,
  block_strings,
}
use green_gate.Ingest.Ingester.Tiles.{
  value_of_row, get_or-append_front, scalar-tile_of_rows, bit-tile_of_rows,
}
use green_gate.Ingest.Ingester.Blocks.{
  Matches, no_fields, string_field, integer_field, skeleton_tile, kim_tile, integer_tile, tiles_of,
  tiles_of_string, tiles_of_integer,
}
use green_gate.Lsm.Promotion.{
  Cell, null_cell, integer, text, logical_to_physical, logical_to_str_col_idx, tile_cell, read_cell,
  read_row, cell_of,
}

-- The cells of row `i` of a batch.
unfoldable pub row_cells : List Field → List ℕ → ℕ → List Cell
row_cells (field ∷ fields) (t ∷ types) i = cell_of t field.column i ∷ row_cells fields types i
row_cells fields types i = []

sign_extend_word : (v : ℕ) → v < 2 ^ 64 → sign_extend 64 v ≡ v
unfolding sign_extend
sign_extend_word v h = ground arith

sign_extend-lt : (v : ℕ) → sign_extend 64 v < 2 ^ 64
unfolding sign_extend
sign_extend-lt v = ground arith

pub get_elem?-append {ℓ} :
    {A : Type ℓ} (front : List A) (x : A) (rest : List A) (p : ℕ)
    → p ≡ length front
    → get_elem? (front ++ x ∷ rest) p ≡ some x
get_elem?-append [] x rest zero e = refl
get_elem?-append [] x rest (suc p) e = absurd (omega arith)
get_elem?-append (y ∷ front) x rest zero e = absurd (omega arith)
get_elem?-append (y ∷ front) x rest (suc p) e = get_elem?-append front x rest p (omega arith)

get_or-append_back {ℓ} :
    {A : Type ℓ} (front back : List A) (i : ℕ) (d : A)
    → get_or (front ++ back) (length front + i) d ≡ get_or back i d
get_or-append_back [] back i d = ap (λ (j : ℕ). get_or back j d) {x = 0 + i} {y = i} (omega arith)
get_or-append_back (x ∷ front) back i d =
    ap (λ (j : ℕ). get_or (x ∷ (front ++ back)) j d) {x = suc (length front) + i}
      {y = suc (length front + i)} (omega arith)
    ∙ get_or-append_back front back i d

length-column_strings : (col : Column) (idx n : ℕ) → length (column_strings col idx n) ≡ n
unfolding column_strings
length-column_strings col idx zero = refl
length-column_strings col idx (suc n) = ap suc (length-column_strings col (idx + 1) n)

get_or-column_strings :
    (col : Column) (idx n r : ℕ)
    → r < n
    → get_or (column_strings col idx n) r []
      ≡ (if col.is_null (idx + r) then [] else col.view (idx + r))
unfolding column_strings
get_or-column_strings col idx zero r h = elim h [ ]
get_or-column_strings col idx (suc n) zero h =
    ap (λ (i : ℕ). if col.is_null i then [] else col.view i) {x = idx} {y = idx + 0} (omega arith)
get_or-column_strings col idx (suc n) (suc r) h =
    get_or-column_strings col (idx + 1) n r (omega arith)
    ∙ ap (λ (i : ℕ). if col.is_null i then [] else col.view i) {x = idx + 1 + r} {y = idx + suc r}
        (omega arith)

block_strings_string :
    (start count : ℕ) (field : Field) (fields : List Field)
    → field.type_of ≡ string
    → block_strings start count (field ∷ fields)
      ≡ column_strings field.column start count ++ block_strings start count fields
unfolding block_strings
block_strings_string start count field fields e = rw e refl

block_strings_integer :
    (start count : ℕ) (field : Field) (fields : List Field)
    → field.type_of ≡ int64
    → block_strings start count (field ∷ fields) ≡ block_strings start count fields
unfolding block_strings
block_strings_integer start count field fields e = rw e refl

read_cell_at :
    (mem : Memory) (block : BlockData) (rows r t p s : ℕ) (front rest : List CbstTile)
    (tile : CbstTile) (cell : Cell)
    → block.columns ≡ front ++ tile ∷ rest
    → p ≡ length front
    → tile_cell mem rows r t s tile ≡ cell
    → read_cell mem block rows r t p s ≡ some cell
unfolding read_cell
read_cell_at mem block rows r t p s front rest tile cell e e' e'' =
    ap (λ (o : Option CbstTile). o >>= λ x. some (tile_cell mem rows r t s x))
      (ap (λ (cs : List CbstTile). get_elem? cs p) e ∙ get_elem?-append front tile rest p e')
    ∙ ap some e''

-- Row `r` of a block of `count` rows from row `start` of the batch, whose strings are read from
-- memory as they are.
module _ (mem : Memory) (count start r : ℕ) (strings : List Bytes) (inside : r < count)
    (room : count ≤ 64)
    (strings_at : (k : ℕ) → k < length strings → string_at mem k ≡ get_or strings k []) where
  integer_tile-cell :
      (field : Field) (t s : ℕ)
      → (t == 13) ≡ false
      → ((i : ℕ) → field.column.value_at i < 2 ^ 64)
      → tile_cell mem count r t s (integer_tile field start count)
        ≡ cell_of t field.column (start + r)
  unfolding tile_cell cell_of integer_tile
  integer_tile-cell field t s not_string fits =
      let value = λ (idx : ℕ). sign_extend 64 (field.column.value_at idx) in
      let scalar =
        scalar-tile_of_rows value field.column start count r
          (λ i. sign_extend-lt (field.column.value_at i)) inside room in
      let valid = bit-tile_of_rows value field.column start count r inside room in
      elim (Bool-cases (field.column.is_null (start + r))) [
        | inl null ↦ rw (valid, null) refl
        | inr here ↦
            rw (valid, here, not_string)
              (ap integer (
                scalar
                ∙ rw here
                    (sign_extend_word (field.column.value_at (start + r)) (fits (start + r)))))
      ]

  -- `back` holds the strings from those of the column on.
  skeleton_tile-cell :
      (field : Field) (s : ℕ) (front back : List Bytes)
      → strings ≡ front ++ (column_strings field.column start count ++ back)
      → length front ≡ s * count
      → tile_cell mem count r 13 s (skeleton_tile field start count)
        ≡ cell_of 13 field.column (start + r)
  unfolding tile_cell cell_of skeleton_tile
  skeleton_tile-cell field s front back e size =
      let col = field.column in
      let own = column_strings col start count in
      let valid = bit-tile_of_rows (λ idx. skeleton (col.view idx)) col start count r inside room in
      let place : s * count + r < length strings = omega (
        arith,
        ap length e,
        length-append front (own ++ back),
        length-append own back,
        length-column_strings col start count,
      ) in
      let found : string_at mem (s * count + r)
          ≡ (if col.is_null (start + r) then [] else col.view (start + r)) =
        strings_at (s * count + r) place
        ∙ ap (λ (ss : List Bytes). get_or ss (s * count + r) []) e
        ∙ ap (λ (i : ℕ). get_or (front ++ (own ++ back)) i []) {x = s * count + r}
            {y = length front + r} (omega arith)
        ∙ get_or-append_back front (own ++ back) r []
        ∙ get_or-append_front own back r [] (omega (arith, length-column_strings col start count))
        ∙ get_or-column_strings col start count r inside in
      elim (Bool-cases (col.is_null (start + r))) [
        | inl null ↦ rw (valid, null) refl
        | inr here ↦ rw (valid, here) (ap text (found ∙ rw here refl))
      ]
