-- ===== src/Ingest/Ingester/Blocks.antt =====
-- The columns of an ingested block, for batches of strings and 64-bit integers: those that the
-- compaction makes, and that it reads.
use green_gate.Base.{
  ℕ, zero, suc, ◌+◌, ◌^◌, ◌<◌, ◌≡◌, refl, sym, ap, ◌∙◌, false, Option, some, List, [], ◌∷◌, ◌++◌,
  append_assoc, arith, ◌==◌, if◌then◌else◌, length, length-append, set, replicate,
}
use green_gate.Base.Options.{◌>>=◌}
use green_gate.Storage.{CbstTile}
use green_gate.Ingest.Kim.{generate_kim_signature}
use green_gate.Ingest.Ingester.{
  ArrowType, string, int64, Field, is_text, sign_extend, skeleton, tile_of_rows, empty_tile,
  transpose_column, width, transpose_columns, physical_columns,
}

-- A batch of strings and 64-bit integers, by the table's types: 13 for a string.
pub data Matches : List Field → List ℕ → Type 0 where
  no_fields : Matches [] []
  string_field :
      {field : Field} {fields : List Field} {types : List ℕ}
      → field.type_of ≡ string
      → Matches fields types
      → Matches (field ∷ fields) (13 ∷ types)
  integer_field :
      {field : Field} {fields : List Field} {t : ℕ} {types : List ℕ}
      → field.type_of ≡ int64
      → (t == 13) ≡ false
      → ((i : ℕ) → field.column.value_at i < 2 ^ 64)
      → Matches fields types
      → Matches (field ∷ fields) (t ∷ types)

-- The tiles of a field.
unfoldable pub skeleton_tile : Field → ℕ → ℕ → CbstTile
skeleton_tile field = tile_of_rows (λ idx. skeleton (field.column.view idx)) field.column

unfoldable pub kim_tile : Field → ℕ → ℕ → CbstTile
kim_tile field = tile_of_rows (λ idx. generate_kim_signature (field.column.view idx)) field.column

unfoldable pub integer_tile : Field → ℕ → ℕ → CbstTile
integer_tile field = tile_of_rows (λ idx. sign_extend 64 (field.column.value_at idx)) field.column

unfoldable pub tiles_of : ℕ → ℕ → List Field → List CbstTile
unfolding is_text
tiles_of start count [] = []
tiles_of start count (field ∷ fields) =
    (if is_text field.type_of
      then skeleton_tile field start count ∷ (kim_tile field start count ∷ [])
      else integer_tile field start count ∷ [])
    ++ tiles_of start count fields

module _ {ℓ} {A : Type ℓ} where
  set-append :
      (front : List A) (x v : A) (rest : List A) (p : ℕ)
      → p ≡ length front
      → set (front ++ x ∷ rest) p v ≡ (front ++ v ∷ []) ++ rest
  set-append [] x v rest zero e = refl
  set-append [] x v rest (suc p) e = absurd (omega arith)
  set-append (y ∷ front) x v rest zero e = absurd (omega arith)
  set-append (y ∷ front) x v rest (suc p) e =
      ap (λ (xs : List A). y ∷ xs) (set-append front x v rest p (omega arith))

transpose_column_string :
    (start count p : ℕ) (field : Field) (columns : List CbstTile)
    → field.type_of ≡ string
    → transpose_column start count p field columns
      ≡ some (
          set
            (set columns p (skeleton_tile field start count))
            (p + 1)
            (kim_tile field start count))
unfolding transpose_column skeleton_tile kim_tile
transpose_column_string start count p field columns e = rw e refl

transpose_column_integer :
    (start count p : ℕ) (field : Field) (columns : List CbstTile)
    → field.type_of ≡ int64
    → transpose_column start count p field columns
      ≡ some (set columns p (integer_tile field start count))
unfolding transpose_column integer_tile
transpose_column_integer start count p field columns e = rw e refl

transpose_columns_cons :
    (start count p q : ℕ) (field : Field) (fields : List Field) (columns cs : List CbstTile)
    → transpose_column start count p field columns ≡ some cs
    → q ≡ p + width field.type_of
    → transpose_columns start count p (field ∷ fields) columns
      ≡ transpose_columns start count q fields cs
unfolding transpose_columns
transpose_columns_cons start count p q field fields columns cs e e' =
    ap
      (λ (o : Option (List CbstTile)).
        o >>= λ later. transpose_columns start count (p + width field.type_of) fields later)
      e
    ∙ ap (λ (x : ℕ). transpose_columns start count x fields cs) (sym e')

width_string : (t : ArrowType) → t ≡ string → width t ≡ 2
unfolding width
width_string t e = rw e refl

width_integer : (t : ArrowType) → t ≡ int64 → width t ≡ 1
unfolding width
width_integer t e = rw e refl

-- The empty tiles at the front of those that are not written.
empty_tiles-string :
    (field : Field) (fields : List Field)
    → field.type_of ≡ string
    → replicate (physical_columns (field ∷ fields)) empty_tile
      ≡ empty_tile ∷ (empty_tile ∷ replicate (physical_columns fields) empty_tile)
unfolding physical_columns
empty_tiles-string field fields e =
    ap (λ (m : ℕ). replicate m empty_tile) {x = width field.type_of + physical_columns fields}
      {y = suc (suc (physical_columns fields))} (omega (arith, width_string field.type_of e))

empty_tiles-integer :
    (field : Field) (fields : List Field)
    → field.type_of ≡ int64
    → replicate (physical_columns (field ∷ fields)) empty_tile
      ≡ empty_tile ∷ replicate (physical_columns fields) empty_tile
unfolding physical_columns
empty_tiles-integer field fields e =
    ap (λ (m : ℕ). replicate m empty_tile) {x = width field.type_of + physical_columns fields}
      {y = suc (physical_columns fields)} (omega (arith, width_integer field.type_of e))

pub tiles_of_string :
    (start count : ℕ) (field : Field) (fields : List Field)
    → field.type_of ≡ string
    → tiles_of start count (field ∷ fields)
      ≡ skeleton_tile field start count ∷ (kim_tile field start count ∷ tiles_of start count fields)
unfolding tiles_of
tiles_of_string start count field fields e = rw e refl

pub tiles_of_integer :
    (start count : ℕ) (field : Field) (fields : List Field)
    → field.type_of ≡ int64
    → tiles_of start count (field ∷ fields)
      ≡ integer_tile field start count ∷ tiles_of start count fields
unfolding tiles_of
tiles_of_integer start count field fields e = rw e refl

-- The loop over the columns writes the tiles one after the other.
pub transpose_columns-tiles_of :
    {fields : List Field} {types : List ℕ} (start count p : ℕ) (front : List CbstTile)
    → Matches fields types
    → p ≡ length front
    → transpose_columns start count p fields
        (front ++ replicate (physical_columns fields) empty_tile)
      ≡ some (front ++ tiles_of start count fields)
unfolding transpose_columns physical_columns tiles_of
transpose_columns-tiles_of start count p front no_fields e = refl
transpose_columns-tiles_of start count p front
      (string_field {field = field} {fields = fields} is_str later) e =
    let a = skeleton_tile field start count in
    let b = kim_tile field start count in
    let rest = replicate (physical_columns fields) empty_tile in
    let written = (front ++ a ∷ []) ++ b ∷ [] in
    let first = set-append front empty_tile a (empty_tile ∷ rest) p e in
    let second =
      set-append (front ++ a ∷ []) empty_tile b rest (p + 1)
        (omega (arith, length-append front (a ∷ []))) in
    ap (λ (cs : List CbstTile). transpose_columns start count p (field ∷ fields) (front ++ cs))
      (empty_tiles-string field fields is_str)
    ∙ transpose_columns_cons start count p (p + 2) field fields _ (written ++ rest)
        (transpose_column_string start count p field _ is_str
          ∙ ap some (ap (λ (cs : List CbstTile). set cs (p + 1) b) first ∙ second))
        (omega (arith, width_string field.type_of is_str))
    ∙ transpose_columns-tiles_of start count (p + 2) written later
        (omega (arith, length-append front (a ∷ []), length-append (front ++ a ∷ []) (b ∷ [])))
    ∙ ap some (
        append_assoc (front ++ a ∷ []) (b ∷ []) (tiles_of start count fields)
        ∙ append_assoc front (a ∷ []) (b ∷ tiles_of start count fields)
        ∙ ap (λ (cs : List CbstTile). front ++ cs)
            (sym (tiles_of_string start count field fields is_str)))
transpose_columns-tiles_of start count p front
      (integer_field {field = field} {fields = fields} is_int other fits later) e =
    let a = integer_tile field start count in
    let rest = replicate (physical_columns fields) empty_tile in
    ap (λ (cs : List CbstTile). transpose_columns start count p (field ∷ fields) (front ++ cs))
      (empty_tiles-integer field fields is_int)
    ∙ transpose_columns_cons start count p (p + 1) field fields _ ((front ++ a ∷ []) ++ rest)
        (transpose_column_integer start count p field _ is_int
          ∙ ap some (set-append front empty_tile a rest p e))
        (omega (arith, width_integer field.type_of is_int))
    ∙ transpose_columns-tiles_of start count (p + 1) (front ++ a ∷ []) later
        (omega (arith, length-append front (a ∷ [])))
    ∙ ap some (
        append_assoc front (a ∷ []) (tiles_of start count fields)
        ∙ ap (λ (cs : List CbstTile). front ++ cs)
            (sym (tiles_of_integer start count field fields is_int)))
