-- ===== src/Storage/Exporter/Write.antt =====
-- `Exporter::Serialize`. `none` is an index out of range of a vector, which C++ leaves undefined.

use green_gate.Base.{
  ℕ, zero, suc, ◌+◌, ◌/◌, ◌%◌, ◌^◌, Option, none, some, List, [], ◌++◌, length, take, get_elem?,
  replicate,
}
use green_gate.Base.Bytes.{Bytes}
use green_gate.Storage.{CbstTile, BlockData, RowGroup}
use green_gate.Storage.Codec.{le_bytes, tile_bytes}
use green_gate.Storage.Exporter.{cbst_magic, padding}

infixl 5 ◌>>=◌
abbrev ◌>>=◌ {ℓ κ} : {A : Type ℓ} {B : Type κ} → Option A → (A → Option B) → Option B
none >>= f = none
some a >>= f = f a

-- One entry of the column metadata: type, length of the name, name.
unfoldable pub column_bytes : Bytes → ℕ → Bytes
column_bytes name type =
    let name_len = length name % 2 ^ 32 in
    le_bytes 4 type ++ (le_bytes 4 name_len ++ take name_len name)

-- The loop over the columns, from index `i` with `n` rounds left.
unfoldable pub write_columns : ℕ → ℕ → List Bytes → List ℕ → Option Bytes
write_columns zero i names types = some []
write_columns (suc n) i names types = do
  type ← get_elem? types i
  name ← get_elem? names i
  rest ← write_columns n (suc i) names types
  some (column_bytes name type ++ rest)

-- The loop over the tiles of a block.
unfoldable pub write_tiles : ℕ → ℕ → List CbstTile → Option Bytes
write_tiles zero c columns = some []
write_tiles (suc n) c columns = do
  tile ← get_elem? columns c
  rest ← write_tiles n (suc c) columns
  some (tile_bytes tile ++ rest)

-- The delete mask, the size of the tail, the tail, and padding to 64 bytes.
unfoldable pub tail_bytes : BlockData → Bytes
tail_bytes block =
    let tail_size = length block.tail_payload in
    le_bytes 8 block.delete_mask
    ++ (le_bytes 8 tail_size
        ++ (block.tail_payload ++ replicate (padding ((8 + 8 + tail_size) % 2 ^ 64)) 0))

-- The loop over the blocks, from index `b` with `n` rounds left.
unfoldable pub write_blocks : ℕ → ℕ → ℕ → List BlockData → Option Bytes
write_blocks zero b num_columns blocks = some []
write_blocks (suc n) b num_columns blocks = do
  block ← get_elem? blocks b
  tiles ← write_tiles num_columns 0 block.columns
  rest ← write_blocks n (suc b) num_columns blocks
  some (tiles ++ (tail_bytes block ++ rest))

-- The 64 bytes of the file header.
unfoldable pub header_bytes : ℕ → ℕ → ℕ → Bytes
header_bytes num_rows num_columns num_blocks =
    cbst_magic
    ++ (le_bytes 8 num_rows
        ++ (le_bytes 8 num_columns ++ (le_bytes 8 num_blocks ++ replicate 36 0)))

unfoldable pub serialize : RowGroup → Option Bytes
serialize rg = do
  let num_blocks = (rg.num_rows + 63) % 2 ^ 64 / 64
  columns ← write_columns rg.num_columns 0 rg.column_names rg.column_types
  let buffer = header_bytes rg.num_rows rg.num_columns num_blocks ++ columns
  blocks ← write_blocks num_blocks 0 rg.num_columns rg.blocks
  some (buffer ++ (replicate (padding (length buffer)) 0 ++ blocks))
