-- ===== src/Storage/Exporter/RoundTrip.antt =====
-- `Deserialize` gives back what `Serialize` wrote.
use green_gate.Base.{
  ℕ, suc, ◌+◌, ◌/◌, ◌%◌, ◌^◌, ◌<◌, ◌≡◌, refl, sym, subst, ap, ◌∙◌, some, List, [], ◌∷◌, ◌++◌, map,
  append_assoc, arith, le→leb, length, length-append, length-replicate, replicate, All,
}
use Prim.Native.Nat.add
use green_gate.Base.Bytes.{Bytes, bytes_eq_self}
use green_gate.Storage.{BlockData, RowGroup}
use green_gate.Storage.Codec.{le_bytes, length-le_bytes, from_le-le_bytes, IsTile}
use green_gate.Storage.Exporter.{cbst_magic, padding}
use green_gate.Storage.Exporter.Read.{
  ok, read_columns, read_block, read_blocks, read_header, deserialize,
}
use green_gate.Storage.Exporter.Write.{tail_bytes, header_bytes, serialize}
use green_gate.Storage.Exporter.Chunks.{
  At, read-chunk, At-chunk, Reads, columns_bytes, tiles_bytes, blocks_bytes, pairs,
  write_columns_lem, write_blocks_lem,
}
use green_gate.Storage.Exporter.Reading.{read_columns-Reads, read_tiles-Reads, read_tail-Reads}

-- The sizes and ranges of a block's fields, for a number of columns.
pub record IsBlock (num_columns : ℕ) (block : BlockData) : Type 0 where
  pub tile_count : length block.columns ≡ num_columns
  pub tiles : All IsTile block.columns
  pub mask_word : block.delete_mask < 2 ^ 64

-- The sizes and ranges of a row group's fields.
pub record IsRowGroup (rg : RowGroup) : Type 0 where
  pub rows_word : rg.num_rows + 63 < 2 ^ 64
  pub columns_word : rg.num_columns < 2 ^ 64
  pub name_count : length rg.column_names ≡ rg.num_columns
  pub type_count : length rg.column_types ≡ rg.num_columns
  pub names_short : All (λ name. length name < 2 ^ 32) rg.column_names
  pub types_word : All (λ type. type < 2 ^ 32) rg.column_types
  pub block_count : length rg.blocks ≡ (rg.num_rows + 63) / 64
  pub blocks_ok : All (IsBlock rg.num_columns) rg.blocks

tile_counts :
    (k : ℕ) (blocks : List BlockData)
    → All (IsBlock k) blocks
    → All (λ b. length b.columns ≡ k) blocks
tile_counts k [] h = tt
tile_counts k (b ∷ blocks) h = (h.0.tile_count, tile_counts k blocks h.1)

pairs-names :
    (names : List Bytes) (types : List ℕ)
    → length names ≡ length types
    → map (λ c. c.0) (pairs names types) ≡ names
unfolding pairs
pairs-names [] types e = refl
pairs-names (x ∷ names) [] e = absurd (omega arith)
pairs-names (x ∷ names) (t ∷ types) e = ap (λ xs. x ∷ xs) (pairs-names names types (omega arith))

pairs-types :
    (names : List Bytes) (types : List ℕ)
    → length names ≡ length types
    → map (λ c. c.1) (pairs names types) ≡ types
unfolding pairs
pairs-types [] [] e = refl
pairs-types [] (t ∷ types) e = absurd (omega arith)
pairs-types (x ∷ names) [] e = absurd (omega arith)
pairs-types (x ∷ names) (t ∷ types) e = ap (λ xs. t ∷ xs) (pairs-types names types (omega arith))

length-pairs :
    (names : List Bytes) (types : List ℕ)
    → length names ≡ length types
    → length (pairs names types) ≡ length names
unfolding pairs
length-pairs [] types e = refl
length-pairs (x ∷ names) [] e = absurd (omega arith)
length-pairs (x ∷ names) (t ∷ types) e = ap suc (length-pairs names types (omega arith))

All-pairs :
    (names : List Bytes) (types : List ℕ)
    → All (λ name. length name < 2 ^ 32) names
    → All (λ type. type < 2 ^ 32) types
    → All (λ c. (length c.0 < 2 ^ 32) × (c.1 < 2 ^ 32)) (pairs names types)
unfolding pairs
All-pairs [] types h k = tt
All-pairs (x ∷ names) [] h k = tt
All-pairs (x ∷ names) (t ∷ types) h k = ((h.0, k.0), All-pairs names types h.1 k.1)

module _ (bs : Bytes) (small : length bs < 2 ^ 62) where
  read_block-Reads :
      (num_columns : ℕ) (block : BlockData) (offset : ℕ) (rest : Bytes)
      → IsBlock num_columns block
      → At bs offset (tiles_bytes block.columns ++ (tail_bytes block ++ rest))
      → Reads bs (read_block num_columns bs offset) block rest
  unfolding read_block
  read_block-Reads k block offset rest h at =
      let tiles = read_tiles-Reads bs small block.columns offset _ h.tiles at in
      let tail = read_tail-Reads bs small block tiles.0 rest h.mask_word tiles.2 in
      (tail.0, rw (← h.tile_count, tiles.1, tail.1), tail.2)

  read_blocks-Reads :
      (num_columns : ℕ) (blocks : List BlockData) (offset : ℕ)
      → All (IsBlock num_columns) blocks
      → At bs offset (blocks_bytes blocks)
      → Reads bs (read_blocks (length blocks) num_columns bs offset) blocks []
  unfolding read_blocks blocks_bytes
  read_blocks-Reads k [] offset h at = (offset, refl, at)
  read_blocks-Reads k (block ∷ blocks) offset h at =
      let first = read_block-Reads k block offset (blocks_bytes blocks) h.0 at in
      let others = read_blocks-Reads k blocks first.0 h.1 first.2 in
      (others.0, rw (first.1, others.1), others.2)

  read_header_lem :
      (rows columns blocks : ℕ) (rest : Bytes)
      → rows < 2 ^ 64
      → columns < 2 ^ 64
      → blocks < 2 ^ 64
      → bs ≡ header_bytes rows columns blocks ++ rest
      → (read_header bs ≡ ok (rows, columns, blocks)) × At bs 64 rest
  unfolding read_header header_bytes
  read_header_lem rows columns blocks rest hr hc hb e =
      let r = le_bytes 8 rows in
      let c = le_bytes 8 columns in
      let b = le_bytes 8 blocks in
      let z : Bytes = replicate 36 0 in
      let regroup : bs ≡ cbst_magic ++ (r ++ (c ++ (b ++ (z ++ rest)))) = e ∙ simp append_assoc in
      let at₀ : At bs 0 (cbst_magic ++ (r ++ (c ++ (b ++ (z ++ rest))))) =
        (regroup, add.zero _ ∙ ap length (sym regroup)) in
      let lr = length-le_bytes 8 rows in
      let lc = length-le_bytes 8 columns in
      let lb = length-le_bytes 8 blocks in
      let at₁ : At bs 4 (r ++ (c ++ (b ++ (z ++ rest)))) =
        At-chunk bs small 0 4 cbst_magic _ refl at₀ in
      let at₂ : At bs 12 (c ++ (b ++ (z ++ rest))) = At-chunk bs small 4 8 r _ lr at₁ in
      let at₃ : At bs 20 (b ++ (z ++ rest)) = At-chunk bs small 12 8 c _ lc at₂ in
      let at₄ : At bs 28 (z ++ rest) = At-chunk bs small 20 8 b _ lb at₃ in
      let at₅ : At bs 64 rest =
        At-chunk bs small 28 36 z rest (length-replicate {A = ℕ} 36 0) at₄ in
      (
        rw (
          le→leb 64 (length bs) (omega (arith, at₅.1)),
          read-chunk bs small 0 4 cbst_magic _ refl at₀,
          bytes_eq_self cbst_magic,
          read-chunk bs small 4 8 r _ lr at₁,
          read-chunk bs small 12 8 c _ lc at₂,
          read-chunk bs small 20 8 b _ lb at₃,
          from_le-le_bytes 8 rows hr,
          from_le-le_bytes 8 columns hc,
          from_le-le_bytes 8 blocks hb,
        ),
        at₅,
      )

some_inj : {a b : Bytes} → some a ≡ some b → a ≡ b
some_inj e = cc

module _ (rg : RowGroup) (h : IsRowGroup rg) where
  abbrev columns : List (Bytes × ℕ)
  columns = pairs rg.column_names rg.column_types

  -- The header and the column metadata.
  abbrev front : Bytes
  front = header_bytes rg.num_rows rg.num_columns (length rg.blocks) ++ columns_bytes columns

  -- The layout of the file.
  abbrev pub image : Bytes
  image = front ++ (replicate (padding (length front)) 0 ++ blocks_bytes rg.blocks)

  serialize-image : serialize rg ≡ some image
  unfolding serialize
  serialize-image =
      let count : (rg.num_rows + 63) % 2 ^ 64 / 64 ≡ length rg.blocks =
        omega (arith, h.rows_word, h.block_count) in
      rw (
        count,
        write_columns_lem rg.num_columns rg.column_names rg.column_types h.name_count h.type_count,
        write_blocks_lem (length rg.blocks) rg.num_columns rg.blocks refl
            (tile_counts rg.num_columns rg.blocks h.blocks_ok),
      )

  same_counts : length rg.column_names ≡ length rg.column_types
  same_counts = h.name_count ∙ sym h.type_count

  column_count : length columns ≡ rg.num_columns
  column_count = length-pairs rg.column_names rg.column_types same_counts ∙ h.name_count

  read-image : (bs : Bytes) → length bs < 2 ^ 62 → bs ≡ image → deserialize bs ≡ ok rg
  unfolding deserialize
  read-image bs small e =
      let z : Bytes = replicate (padding (length front)) 0 in
      let body = z ++ blocks_bytes rg.blocks in
      let head = header_bytes rg.num_rows rg.num_columns (length rg.blocks) in
      let split : bs ≡ head ++ (columns_bytes columns ++ body) =
        e ∙ append_assoc head (columns_bytes columns) body in
      let start =
        read_header_lem bs small rg.num_rows rg.num_columns (length rg.blocks) _
          (omega (arith, h.rows_word)) h.columns_word (omega (arith, h.rows_word, h.block_count))
          split in
      let cols =
        read_columns-Reads bs small columns 64 body
          (All-pairs rg.column_names rg.column_types h.names_short h.types_word) start.1 in
      let here : cols.0 ≡ length front =
        omega (arith, cols.2.1, ap length e, length-append front body) in
      let lz : length z ≡ padding cols.0 =
        length-replicate (padding (length front)) 0 ∙ ap padding (sym here) in
      let after = At-chunk bs small cols.0 (padding cols.0) z (blocks_bytes rg.blocks) lz cols.2 in
      let rest = read_blocks-Reads bs small rg.num_columns rg.blocks _ h.blocks_ok after in
      let reading : read_columns rg.num_columns bs 64 ≡ ok (columns, cols.0) =
        subst (λ k. read_columns k bs 64 ≡ ok (columns, cols.0)) column_count cols.1 in
      rw (
        start.0,
        reading,
        rest.1,
        pairs-names rg.column_names rg.column_types same_counts,
        pairs-types rg.column_names rg.column_types same_counts,
      )

  -- A row group whose fields have the sizes and ranges of their types, and whose file is shorter
  -- than 2 ^ 62 bytes, is written without an index out of range, and reading the file gives the
  -- row group back.
  pub deserialize-serialize :
      length image < 2 ^ 62 → (bs : Bytes) × (serialize rg ≡ some bs) × (deserialize bs ≡ ok rg)
  deserialize-serialize small = (image, serialize-image, read-image image small refl)
