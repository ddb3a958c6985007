-- ===== src/Lsm/Promotion/Compaction/Alive.antt =====
-- The rows of row groups that are not deleted, as a list of their places by the delete masks, and the
-- cells that stand there: what the scan of a compaction reads, and how many rows it counts.
use green_gate.Base.{
  ℕ, zero, suc, ◌+◌, ◌≡◌, refl, sym, ap, ◌∙◌, true, false, Option, some, List, [], ◌∷◌, ◌++◌, arith,
  ◌==◌, if◌then◌else◌, Bool-cases, inl, inr,
}
use green_gate.Base.Bits.{bit, bit-le}
use green_gate.Base.Options.{◌>>=◌, bind_ext, bind_assoc}
use green_gate.Query.Tail.{Memory, memory_of}
use green_gate.Query.Runner.{rows_of_block}
use green_gate.Storage.{BlockData, RowGroup}
use green_gate.Lsm.Promotion.{
  Cell, logical_to_physical, logical_to_str_col_idx, read_row, append_row, read_rows, read_blocks,
  read_groups,
}

-- Row `row` of a block that has `rows` of them.
pub record Place : Type 0 where
  pub block : BlockData
  pub rows : ℕ
  pub row : ℕ

-- The rows among `n` from row `r` on whose bit in the delete mask is set, of the blocks of a row
-- group from block `b` on, and of row groups.
unfoldable pub live_rows : BlockData → ℕ → ℕ → ℕ → List Place
live_rows block rows r zero = []
live_rows block rows r (suc n) =
    let later = live_rows block rows (r + 1) n in
    if bit block.delete_mask r == 1
    then record { block = block; rows = rows; row = r } ∷ later
    else later

unfoldable pub live_blocks : RowGroup → ℕ → List BlockData → List Place
unfolding live_rows
live_blocks rg b [] = []
live_blocks rg b (block ∷ blocks) =
    live_rows block (rows_of_block rg b) 0 (rows_of_block rg b) ++ live_blocks rg (b + 1) blocks

unfoldable pub live_groups : List RowGroup → List Place
unfolding live_blocks
live_groups [] = []
live_groups (rg ∷ groups) = live_blocks rg 0 rg.blocks ++ live_groups groups

-- The cells at a place, and those of all places appended to builders.
unfoldable pub cells_at : List ℕ → Memory → Place → Option (List Cell)
cells_at types outside p =
    read_row (memory_of outside p.block.tail_payload) p.block p.rows p.row types
      (logical_to_physical 0 types) (logical_to_str_col_idx 0 types)

unfoldable pub gather : List ℕ → Memory → List Place → List (List Cell) → Option (List (List Cell))
unfolding cells_at
gather types outside [] builders = some builders
gather types outside (p ∷ places) builders = do
  cells ← cells_at types outside p
  gather types outside places (append_row builders cells)

module _ (types : List ℕ) (outside : Memory) where
  gather-append :
      (places others : List Place) (builders : List (List Cell))
      → gather types outside (places ++ others) builders
        ≡ (gather types outside places builders >>= gather types outside others)
  unfolding gather
  gather-append [] others builders = refl
  gather-append (p ∷ places) others builders =
      let rest = λ (cells : List Cell). gather types outside places (append_row builders cells) in
      bind_ext (cells_at types outside p) _ _
        (λ cells. gather-append places others (append_row builders cells))
      ∙ sym (bind_assoc (cells_at types outside p) rest (gather types outside others))

  read_rows-gather :
      (block : BlockData) (rows n r : ℕ) (builders : List (List Cell))
      → read_rows types (memory_of outside block.tail_payload) block rows n r builders
        ≡ gather types outside (live_rows block rows r n) builders
  unfolding read_rows gather live_rows cells_at
  read_rows-gather block rows zero r builders = refl
  read_rows-gather block rows (suc n) r builders =
      elim (Bool-cases (bit block.delete_mask r == 0)) [
        | inl deleted ↦
            let unset : (bit block.delete_mask r == 1) ≡ false = ground arith in
            rw (deleted, unset) (read_rows-gather block rows n (r + 1) builders)
        | inr alive ↦
            let is_set : (bit block.delete_mask r == 1) ≡ true =
              ground (arith, bit-le block.delete_mask r) in
            rw (alive, is_set)
              (bind_ext
                (read_row (memory_of outside block.tail_payload) block rows r types
                  (logical_to_physical 0 types) (logical_to_str_col_idx 0 types))
                _ _ (λ cells. read_rows-gather block rows n (r + 1) (append_row builders cells)))
      ]

  read_blocks-gather :
      (rg : RowGroup) (b : ℕ) (blocks : List BlockData) (builders : List (List Cell))
      → read_blocks types outside rg b blocks builders
        ≡ gather types outside (live_blocks rg b blocks) builders
  unfolding read_blocks gather live_blocks
  read_blocks-gather rg b [] builders = refl
  read_blocks-gather rg b (block ∷ blocks) builders =
      let rows = rows_of_block rg b in
      ap (λ (o : Option (List (List Cell))). o >>= read_blocks types outside rg (b + 1) blocks)
        (read_rows-gather block rows rows 0 builders)
      ∙ bind_ext (gather types outside (live_rows block rows 0 rows) builders) _ _
          (read_blocks-gather rg (b + 1) blocks)
      ∙ sym (gather-append (live_rows block rows 0 rows) (live_blocks rg (b + 1) blocks) builders)

  -- The scan of the row groups reads the cells at the places of the rows that are not deleted.
  pub read_groups-gather :
      (groups : List RowGroup) (builders : List (List Cell))
      → read_groups types outside groups builders
        ≡ gather types outside (live_groups groups) builders
  unfolding read_groups gather live_groups
  read_groups-gather [] builders = refl
  read_groups-gather (rg ∷ groups) builders =
      ap (λ (o : Option (List (List Cell))). o >>= read_groups types outside groups)
        (read_blocks-gather rg 0 rg.blocks builders)
      ∙ bind_ext (gather types outside (live_blocks rg 0 rg.blocks) builders) _ _
          (read_groups-gather groups)
      ∙ sym (gather-append (live_blocks rg 0 rg.blocks) (live_groups groups) builders)
