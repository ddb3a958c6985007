-- ===== src/Lsm/Promotion/Reading/Groups.antt =====
-- The rows of an ingested row group.
use green_gate.Base.{
  ℕ, zero, suc, ◌+◌, ◌-◌, ◌*◌, ◌/◌, ◌^◌, ◌≤◌, ◌<◌, min, ◌≡◌, refl, ap, ◌∙◌, Option, some, ◌⊎◌, inl,
  inr, List, [], ◌∷◌, arith, length,
}
use green_gate.Base.Options.{◌>>=◌}
use green_gate.Query.Tail.{Memory, memory_of}
use green_gate.Query.Runner.{rows_of_block}
use green_gate.Storage.{CbstTile, BlockData, RowGroup}
use green_gate.Ingest.Tail.{string_data, tail_payload_of}
use green_gate.Ingest.Tail.Laws.{string_at-tail_payload_of}
use green_gate.Ingest.Ingester.{
  ArrowType, Field, block_strings, physical_columns, column_names_of, column_types_of, ingest_block,
  ingest_blocks, ingest,
}
use green_gate.Ingest.Ingester.Blocks.{Matches, tiles_of, transpose_columns-tiles_of}
use green_gate.Lsm.Promotion.{Cell, append_row, read_rows, read_blocks, read_groups}
use green_gate.Lsm.Promotion.Reading.{row_cells}
use green_gate.Lsm.Promotion.Reading.Rows.{add_rows, read_rows-add_rows}

-- What `Ingest` makes of rows `start` to `start + count`.
unfoldable pub ingested_block : List Field → ℕ → ℕ → BlockData
ingested_block fields start count = record {
  columns = tiles_of start count fields;
  tail_payload = tail_payload_of (block_strings start count fields);
  delete_mask = 2 ^ 64 - 1;
}

-- The rows of block `b`.
abbrev pub rows_in : ℕ → ℕ → ℕ
rows_in num_rows b = min 64 (num_rows - b * 64)

unfoldable pub ingested_blocks : List Field → ℕ → ℕ → ℕ → List BlockData
ingested_blocks fields num_rows b zero = []
ingested_blocks fields num_rows b (suc n) =
    ingested_block fields (b * 64) (rows_in num_rows b) ∷ ingested_blocks fields num_rows (b + 1) n

-- The strings of each block fit a tail: with their offsets they take less than 2 ^ 62 bytes.
abbrev pub TailsFit : List Field → ℕ → Type 0
TailsFit fields num_rows =
    (b : ℕ)
    → length (block_strings (b * 64) (rows_in num_rows b) fields) * 8
        + length (string_data (block_strings (b * 64) (rows_in num_rows b) fields))
      < 2 ^ 62

module _ {fields : List Field} {types : List ℕ} (matching : Matches fields types) where
  ingest_block_lem :
      (start count : ℕ) → ingest_block fields start count ≡ some (ingested_block fields start count)
  unfolding ingest_block ingested_block
  ingest_block_lem start count =
      let block_of : List CbstTile → Option BlockData = λ columns. some (record {
        columns = columns;
        tail_payload = tail_payload_of (block_strings start count fields);
        delete_mask = 2 ^ 64 - 1;
      }) in
      ap (λ (o : Option (List CbstTile)). o >>= block_of)
        (transpose_columns-tiles_of start count 0 [] matching refl)

  ingest_blocks_lem :
      (num_rows b n : ℕ)
      → ingest_blocks fields num_rows b n ≡ some (ingested_blocks fields num_rows b n)
  unfolding ingest_blocks ingested_blocks
  ingest_blocks_lem num_rows b zero = refl
  ingest_blocks_lem num_rows b (suc n) =
      let block = ingested_block fields (b * 64) (rows_in num_rows b) in
      ap
        (λ (o : Option BlockData). o >>= λ first.
          ingest_blocks fields num_rows (b + 1) n >>= λ blocks. some (first ∷ blocks))
        (ingest_block_lem (b * 64) (rows_in num_rows b))
      ∙ ap (λ (o : Option (List BlockData)). o >>= λ blocks. some (block ∷ blocks))
          (ingest_blocks_lem num_rows (b + 1) n)

  -- The row group of a batch.
  pub ingest_lem :
      (type_id : ArrowType → ℕ) (num_rows : ℕ)
      → ingest type_id (record { num_rows = num_rows; fields = fields })
        ≡ some (record {
          num_rows = num_rows;
          num_columns = physical_columns fields;
          column_names = column_names_of fields;
          column_types = column_types_of type_id fields;
          blocks = ingested_blocks fields num_rows 0 ((num_rows + 63) / 64);
        })
  unfolding ingest
  ingest_lem type_id num_rows =
      let group_of : List BlockData → Option RowGroup = λ blocks. some (record {
        num_rows = num_rows;
        num_columns = physical_columns fields;
        column_names = column_names_of fields;
        column_types = column_types_of type_id fields;
        blocks = blocks;
      }) in
      ap (λ (o : Option (List BlockData)). o >>= group_of)
        (ingest_blocks_lem num_rows 0 ((num_rows + 63) / 64))

  add_rows_join :
      (i n m : ℕ) (builders : List (List Cell))
      → add_rows fields types (i + n) m (add_rows fields types i n builders)
        ≡ add_rows fields types i (n + m) builders
  unfolding add_rows
  add_rows_join i zero m builders =
      ap (λ (j : ℕ). add_rows fields types j m builders) {x = i + 0} {y = i} (omega arith)
      ∙ ap (λ (k : ℕ). add_rows fields types i k builders) {x = m} {y = 0 + m} (omega arith)
  add_rows_join i (suc n) m builders =
      let later = append_row builders (row_cells fields types i) in
      ap (λ (j : ℕ). add_rows fields types j m (add_rows fields types (i + 1) n later))
        {x = i + suc n} {y = i + 1 + n} (omega arith)
      ∙ add_rows_join (i + 1) n m later
      ∙ ap (λ (k : ℕ). add_rows fields types i k builders) {x = suc (n + m)} {y = suc n + m}
          (omega arith)

  add_rows_after :
      (i j m : ℕ) (builders : List (List Cell))
      → (m ≡ 0) ⊎ (i ≡ j)
      → add_rows fields types i m builders ≡ add_rows fields types j m builders
  unfolding add_rows
  add_rows_after i j zero builders h = refl
  add_rows_after i j (suc m) builders (inl none_left) = absurd (omega arith)
  add_rows_after i j (suc m) builders (inr same) =
      ap (λ (k : ℕ). add_rows fields types k (suc m) builders) same

  rows_of_block-rows_in :
      (rg : RowGroup) (b : ℕ)
      → rg.num_rows < 2 ^ 64
      → b * 64 ≤ rg.num_rows
      → rows_of_block rg b ≡ rows_in rg.num_rows b
  unfolding rows_of_block
  rows_of_block-rows_in rg b h h' = omega arith

  read_rows-ingested :
      (outside : Memory) (start count : ℕ) (builders : List (List Cell))
      → count ≤ 64
      → length (block_strings start count fields) * 8
          + length (string_data (block_strings start count fields))
        < 2 ^ 62
      → read_rows types
          (memory_of outside (ingested_block fields start count).tail_payload)
          (ingested_block fields start count)
          count
          count
          0
          builders
        ≡ some (add_rows fields types start count builders)
  unfolding ingested_block
  read_rows-ingested outside start count builders room small =
      let strings = block_strings start count fields in
      read_rows-add_rows (memory_of outside (tail_payload_of strings))
        (ingested_block fields start count) count start strings room
        (λ k h. string_at-tail_payload_of outside strings k h small) count 0 builders matching refl
        refl refl (omega arith)
      ∙ ap (λ (i : ℕ). some (add_rows fields types i count builders)) {x = start + 0} {y = start}
          (omega arith)

  read_blocks-ingested :
      (outside : Memory) (rg : RowGroup) (n b : ℕ) (builders : List (List Cell))
      → rg.num_rows < 2 ^ 64
      → TailsFit fields rg.num_rows
      → b + n ≡ (rg.num_rows + 63) / 64
      → read_blocks types outside rg b (ingested_blocks fields rg.num_rows b n) builders
        ≡ some (add_rows fields types (b * 64) (rg.num_rows - b * 64) builders)
  unfolding read_blocks ingested_blocks add_rows
  read_blocks-ingested outside rg zero b builders small fit e =
      ap (λ (k : ℕ). some (add_rows fields types (b * 64) k builders)) {x = 0}
        {y = rg.num_rows - b * 64} (omega arith)
  read_blocks-ingested outside rg (suc n) b builders small fit e =
      let block = ingested_block fields (b * 64) count in
      let later =
        read_blocks types outside rg (b + 1) (ingested_blocks fields rg.num_rows (b + 1) n) in
      let first = add_rows fields types (b * 64) count builders in
      ap
        (λ (k : ℕ).
          read_rows types (memory_of outside block.tail_payload) block k k 0 builders >>= later)
        (rows_of_block-rows_in rg b small (omega arith))
      ∙ ap (λ (o : Option (List (List Cell))). o >>= later)
          (read_rows-ingested outside (b * 64) count builders (omega arith) (fit b))
      ∙ read_blocks-ingested outside rg n (b + 1) first small fit (omega arith)
      ∙ ap some (
          add_rows_after ((b + 1) * 64) (b * 64 + count) (rg.num_rows - (b + 1) * 64) first
            (ground arith)
          ∙ add_rows_join (b * 64) count (rg.num_rows - (b + 1) * 64) builders
          ∙ ap (λ (k : ℕ). add_rows fields types (b * 64) k builders)
              {x = count + (rg.num_rows - (b + 1) * 64)} {y = rg.num_rows - b * 64} (omega arith))
    where
      count : ℕ
      count = rows_in rg.num_rows b

  -- Reading a row group that `Ingest` made of a batch of strings and 64-bit integers appends the
  -- batch's rows to the builders, each once and in order, nulls included: for fewer than 2 ^ 64 rows,
  -- whatever stands behind the tails, if the strings of each block fit a tail.
  pub read_groups-ingest :
      (type_id : ArrowType → ℕ) (num_rows : ℕ) (outside : Memory) (builders : List (List Cell))
      → num_rows < 2 ^ 64
      → TailsFit fields num_rows
      → (ingest type_id (record { num_rows = num_rows; fields = fields }) >>= λ rg.
          read_groups types outside (rg ∷ []) builders)
        ≡ some (add_rows fields types 0 num_rows builders)
  unfolding read_groups
  read_groups-ingest type_id num_rows outside builders small fit =
      let rg : RowGroup = record {
        num_rows = num_rows;
        num_columns = physical_columns fields;
        column_names = column_names_of fields;
        column_types = column_types_of type_id fields;
        blocks = ingested_blocks fields num_rows 0 ((num_rows + 63) / 64);
      } in
      let read : RowGroup → Option (List (List Cell)) =
        λ g. read_groups types outside (g ∷ []) builders in
      ap (λ (o : Option RowGroup). o >>= read) (ingest_lem type_id num_rows)
      ∙ ap (λ (o : Option (List (List Cell))). o >>= some)
          (read_blocks-ingested outside rg ((num_rows + 63) / 64) 0 builders small fit
            (omega arith))
      ∙ ap (λ (n : ℕ). some (add_rows fields types 0 n builders)) {x = num_rows - 0} {y = num_rows}
          (omega arith)
