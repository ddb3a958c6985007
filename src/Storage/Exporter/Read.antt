-- ===== src/Storage/Exporter/Read.antt =====
-- `Exporter::Deserialize`. `fault` is a read outside the data, which C++ leaves undefined; the
-- theorem of `Safety` excludes it. Sums of offsets wrap as `size_t` does.
use green_gate.Base.{
  ℕ, zero, suc, ◌+◌, ◌%◌, ◌^◌, Bool, List, [], ◌∷◌, map, ltb, leb, ◌==◌, if◌then◌else◌, length,
  take, drop,
}
use green_gate.Base.Bytes.{Bytes, bytes_eq}
use green_gate.Storage.{CbstTile, BlockData, RowGroup}
use green_gate.Storage.Codec.{from_le, tile_of, tile_size}
use green_gate.Storage.Exporter.{cbst_magic, padding}

-- The messages of the exceptions; `length_error` is thrown by `resize`.
pub data Error : Type 0 where
  too_small magic_mismatch column_metadata column_name block_tile block_delete_mask : Error
  block_tail_size block_tail_payload length_error : Error

pub data Result {ℓ} (A : Type ℓ) : Type ℓ where
  ok : A → Result A
  err : Error → Result A
  fault : Result A

-- `if (!passed) throw …`.
abbrev pub guard : Bool → Error → Result (Unit {0})
guard passed e = if passed then ok tt else err e

infixl 5 ◌>>=◌ ◌>>◌
abbrev pub ◌>>=◌ {ℓ κ} : {A : Type ℓ} {B : Type κ} → Result A → (A → Result B) → Result B
fault >>= next = fault
err e >>= next = err e
ok a >>= next = next a

abbrev pub ◌>>◌ {ℓ} : {B : Type ℓ} → Result (Unit {0}) → Result B → Result B
checked >> next = checked >>= λ _. next

-- `size_t` addition.
abbrev pub add64 : ℕ → ℕ → ℕ
add64 a b = (a + b) % 2 ^ 64

-- The negation of `offset + n > data.size()`.
abbrev pub fits : Bytes → ℕ → ℕ → Bool
fits bs offset n = leb (add64 offset n) (length bs)

-- `memcpy` of `n` bytes at an offset.
unfoldable pub read : Bytes → ℕ → ℕ → Result Bytes
read bs offset n = if leb (offset + n) (length bs) then ok (take n (drop offset bs)) else fault

-- The body of the loop over the columns: the name, the type, and the new offset.
unfoldable pub read_column : Bytes → ℕ → Result ((Bytes × ℕ) × ℕ)
read_column bs offset = do
  guard (fits bs offset 8) column_metadata
  type ← read bs offset 4
  name_len ← read bs (add64 offset 4) 4
  let offset' = add64 offset 8
  guard (fits bs offset' (from_le name_len)) column_name
  name ← read bs offset' (from_le name_len)
  ok ((name, from_le type), add64 offset' (from_le name_len))

unfoldable pub read_columns : ℕ → Bytes → ℕ → Result (List (Bytes × ℕ) × ℕ)
read_columns zero bs offset = ok ([], offset)
read_columns (suc n) bs offset = do
  (column, offset₁) ← read_column bs offset
  (columns, offset₂) ← read_columns n bs offset₁
  ok (column ∷ columns, offset₂)

unfoldable pub read_tiles : ℕ → Bytes → ℕ → Result (List CbstTile × ℕ)
read_tiles zero bs offset = ok ([], offset)
read_tiles (suc n) bs offset = do
  guard (fits bs offset tile_size) block_tile
  tile ← read bs offset tile_size
  (tiles, offset') ← read_tiles n bs (add64 offset tile_size)
  ok (tile_of tile ∷ tiles, offset')

-- The tail payload, if it is not empty.
unfoldable pub read_payload : Bytes → ℕ → ℕ → Result (Bytes × ℕ)
read_payload bs offset tail_size =
    let some_payload = do
      guard (fits bs offset tail_size) block_tail_payload
      guard (ltb tail_size (2 ^ 63)) length_error
      payload ← read bs offset tail_size
      ok (payload, add64 offset tail_size)
    in if tail_size == 0 then ok ([], offset) else some_payload

unfoldable pub read_tail : Bytes → ℕ → Result ((ℕ × Bytes) × ℕ)
read_tail bs offset = do
  guard (fits bs offset 8) block_delete_mask
  delete_mask ← read bs offset 8
  let offset₁ = add64 offset 8
  guard (fits bs offset₁ 8) block_tail_size
  tail_size ← read bs offset₁ 8
  (payload, offset₂) ← read_payload bs (add64 offset₁ 8) (from_le tail_size)
  ok ((from_le delete_mask, payload), add64 offset₂ (padding (add64 16 (from_le tail_size))))

-- The body of the loop over the blocks.
unfoldable pub read_block : ℕ → Bytes → ℕ → Result (BlockData × ℕ)
read_block num_columns bs offset = do
  (tiles, offset₁) ← read_tiles num_columns bs offset
  ((mask, payload), offset₂) ← read_tail bs offset₁
  ok (record { columns = tiles; tail_payload = payload; delete_mask = mask }, offset₂)

unfoldable pub read_blocks : ℕ → ℕ → Bytes → ℕ → Result (List BlockData × ℕ)
read_blocks zero num_columns bs offset = ok ([], offset)
read_blocks (suc n) num_columns bs offset = do
  (block, offset₁) ← read_block num_columns bs offset
  (blocks, offset₂) ← read_blocks n num_columns bs offset₁
  ok (block ∷ blocks, offset₂)

-- The numbers of rows, columns and blocks.
unfoldable pub read_header : Bytes → Result (ℕ × ℕ × ℕ)
read_header bs = do
  guard (leb 64 (length bs)) too_small
  magic ← read bs 0 4
  guard (bytes_eq magic cbst_magic) magic_mismatch
  num_rows ← read bs 4 8
  num_columns ← read bs 12 8
  num_blocks ← read bs 20 8
  ok (from_le num_rows, from_le num_columns, from_le num_blocks)

unfoldable pub deserialize : Bytes → Result RowGroup
deserialize bs = do
  (num_rows, num_columns, num_blocks) ← read_header bs
  (columns, offset) ← read_columns num_columns bs 64
  (blocks, _) ← read_blocks num_blocks num_columns bs (add64 offset (padding offset))
  ok (record {
    num_rows = num_rows;
    num_columns = num_columns;
    column_names = map (λ c. c.0) columns;
    column_types = map (λ c. c.1) columns;
    blocks = blocks;
  })
