-- ===== src/Ingest/Ingester.antt =====
-- `AdaptiveIngester::Ingest` of src/lex/ingest/adaptive_ingester.cpp: a record batch as blocks of 64
-- rows, a column of numbers as a tile of bit planes, a column of strings as two tiles, of the first
-- bytes and of the signatures, with the strings in the tail. The numbers that Arrow gives its types
-- are a parameter.
pub mod Tiles
pub mod Blocks
mod Tests
use green_gate.Base.{
  ℕ, zero, suc, ◌+◌, ◌-◌, ◌*◌, ◌/◌, ◌%◌, ◌^◌, min, Bool, true, false, not, Option, none, some, List,
  [], ◌∷◌, ◌++◌, ltb, ◌==◌, if◌then◌else◌, map, take, set, replicate,
}
use green_gate.Base.Bytes.{Bytes, codes}
use green_gate.Base.Options.{◌>>=◌}
use green_gate.Query.{Column}
use green_gate.Storage.{CbstTile, BlockData, RowGroup}
use green_gate.Storage.Codec.{from_le}
use green_gate.Ingest.Transposer.{transpose64}
use green_gate.Ingest.Kim.{generate_kim_signature}
use green_gate.Ingest.Tail.{tail_payload_of}

-- The types that `Ingest` tells apart; `other` stands for all that it refuses.
pub data ArrowType : Type 0 where
  string binary int8 int16 int32 int64 uint8 uint16 uint32 uint64 bool other : ArrowType

-- A column of a batch. `value_at` gives the bit pattern of a number, at the width of its type.
pub record Field : Type 0 where
  pub name : Bytes
  pub type_of : ArrowType
  pub column : Column

-- What `Ingest` reads of an `arrow::RecordBatch`.
pub record ArrowBatch : Type 0 where
  pub num_rows : ℕ
  pub fields : List Field

unfoldable pub is_text : ArrowType → Bool
is_text string = true
is_text binary = true
is_text _ = false

-- `static_cast<uint64_t>` of a signed number of `w` bits.
unfoldable pub sign_extend : ℕ → ℕ → ℕ
sign_extend w v = if ltb (v % 2 ^ w) (2 ^ (w - 1)) then v % 2 ^ w else v % 2 ^ w + (2 ^ 64 - 2 ^ w)

-- What a row's value becomes in `dest`, by the switch over the types; `none` is the exception.
unfoldable pub cast_value : ArrowType → Option (ℕ → ℕ)
unfolding sign_extend
cast_value int8 = some (sign_extend 8)
cast_value int16 = some (sign_extend 16)
cast_value int32 = some (sign_extend 32)
cast_value int64 = some (sign_extend 64)
cast_value uint8 = some λ v. v % 2 ^ 8
cast_value uint16 = some λ v. v % 2 ^ 16
cast_value uint32 = some λ v. v % 2 ^ 32
cast_value uint64 = some λ v. v % 2 ^ 64
cast_value bool = some λ v. if v == 0 then 0 else 1
cast_value _ = none

-- `dest[i]` of `n` rows from row `idx` on, for what `value` makes of a row.
unfoldable pub column_values : (ℕ → ℕ) → Column → ℕ → ℕ → List ℕ
column_values value col idx zero = []
column_values value col idx (suc n) =
    (if col.is_null idx then 0 else value idx) ∷ column_values value col (idx + 1) n

-- `valid_mask[i]`.
unfoldable pub column_validity : Column → ℕ → ℕ → List Bool
column_validity col idx zero = []
column_validity col idx (suc n) = not (col.is_null idx) ∷ column_validity col (idx + 1) n

-- The strings of `n` rows, the empty one for a null.
unfoldable pub column_strings : Column → ℕ → ℕ → List Bytes
column_strings col idx zero = []
column_strings col idx (suc n) =
    (if col.is_null idx then [] else col.view idx) ∷ column_strings col (idx + 1) n

-- `memcpy` of the first 4 bytes into a zero.
unfoldable pub skeleton : Bytes → ℕ
unfolding from_le
skeleton val = from_le (take 4 val)

-- The tile of a value for each of `count` rows from `start_row`, and of nothing for the others.
unfoldable pub tile_of_rows : (ℕ → ℕ) → Column → ℕ → ℕ → CbstTile
unfolding column_values column_validity
tile_of_rows value col start_row count =
    let (planes, validity) =
      transpose64 (column_values value col start_row count ++ replicate (64 - count) 0)
        (some (column_validity col start_row count ++ replicate (64 - count) false)) in
    record { planes = planes; validity = validity; padding = replicate 7 0 }

abbrev pub empty_tile : CbstTile
empty_tile = record { planes = replicate 64 0; validity = 0; padding = replicate 7 0 }

-- The tiles of one column, written at `columns[p]`, and at `columns[p + 1]` for strings.
unfoldable pub transpose_column : ℕ → ℕ → ℕ → Field → List CbstTile → Option (List CbstTile)
unfolding is_text cast_value skeleton tile_of_rows
transpose_column start_row count p field columns =
    let col = field.column in
    if is_text field.type_of
    then some (
        set (set columns p (tile_of_rows (λ idx. skeleton (col.view idx)) col start_row count))
          (p + 1) (tile_of_rows (λ idx. generate_kim_signature (col.view idx)) col start_row count))
    else do
      cast ← cast_value field.type_of
      some (set columns p (tile_of_rows (λ idx. cast (col.value_at idx)) col start_row count))

-- The physical columns of a field.
unfoldable pub width : ArrowType → ℕ
unfolding is_text
width t = if is_text t then 2 else 1

-- The loop over the columns, `p` being `logical_to_physical[f]`.
unfoldable pub transpose_columns : ℕ → ℕ → ℕ → List Field → List CbstTile → Option (List CbstTile)
unfolding transpose_column width
transpose_columns start_row count p [] columns = some columns
transpose_columns start_row count p (field ∷ fields) columns = do
  written ← transpose_column start_row count p field columns
  transpose_columns start_row count (p + width field.type_of) fields written

-- `block_strings`, column by column.
unfoldable pub block_strings : ℕ → ℕ → List Field → List Bytes
unfolding is_text column_strings
block_strings start_row count [] = []
block_strings start_row count (field ∷ fields) =
    (if is_text field.type_of then column_strings field.column start_row count else [])
    ++ block_strings start_row count fields

-- The loop over the schema: names and types of the physical columns, and their number.
unfoldable pub column_names_of : List Field → List Bytes
unfolding is_text
column_names_of [] = []
column_names_of (field ∷ fields) =
    (if is_text field.type_of
      then field.name ∷ ((field.name ++ codes "_kim") ∷ [])
      else field.name ∷ [])
    ++ column_names_of fields

unfoldable pub column_types_of : (ArrowType → ℕ) → List Field → List ℕ
unfolding is_text
column_types_of type_id [] = []
column_types_of type_id (field ∷ fields) =
    (if is_text field.type_of
      then type_id field.type_of ∷ (type_id uint64 ∷ [])
      else type_id field.type_of ∷ [])
    ++ column_types_of type_id fields

unfoldable pub physical_columns : List Field → ℕ
unfolding width
physical_columns [] = 0
physical_columns (field ∷ fields) = width field.type_of + physical_columns fields

-- The block of `count` rows from `start_row`, all of them active.
unfoldable pub ingest_block : List Field → ℕ → ℕ → Option BlockData
unfolding transpose_columns block_strings physical_columns tail_payload_of
ingest_block fields start_row count = do
  columns ←
      transpose_columns start_row count 0 fields (replicate (physical_columns fields) empty_tile)
  some (record {
    columns = columns;
    tail_payload = tail_payload_of (block_strings start_row count fields);
    delete_mask = 2 ^ 64 - 1;
  })

-- The loop over the blocks: `n` of them, from block `b` on.
unfoldable pub ingest_blocks : List Field → ℕ → ℕ → ℕ → Option (List BlockData)
unfolding ingest_block
ingest_blocks fields num_rows b zero = some []
ingest_blocks fields num_rows b (suc n) = do
  block ← ingest_block fields (b * 64) (min 64 (num_rows - b * 64))
  blocks ← ingest_blocks fields num_rows (b + 1) n
  some (block ∷ blocks)

-- `Ingest`; `none` is the exception for a type that is not supported.
unfoldable pub ingest : (ArrowType → ℕ) → ArrowBatch → Option RowGroup
unfolding column_names_of column_types_of physical_columns ingest_blocks
ingest type_id batch = do
  blocks ← ingest_blocks batch.fields batch.num_rows 0 ((batch.num_rows + 63) / 64)
  some (record {
    num_rows = batch.num_rows;
    num_columns = physical_columns batch.fields;
    column_names = column_names_of batch.fields;
    column_types = column_types_of type_id batch.fields;
    blocks = blocks;
  })
