-- ===== src/Lsm/Promotion/Compaction.antt =====
-- `PromotionDaemon::TriggerCompaction` of src/lex/lsm/promotion_daemon.cpp, in two halves: other
-- threads may change the store between them. What Arrow's builders make of their cells is a
-- parameter, like the numbers of its types.
pub mod Scan
pub mod Laws
pub mod Columns
pub mod Alive
pub mod Counts
pub mod Trigger
use green_gate.Base.{
  ℕ, ◌+◌, ◌%◌, ◌^◌, ◌<◌, ◌≡◌, Bool, true, false, not, ◌&&◌, Option, none, some, List, [], ◌∷◌, ◌++◌,
  ltb, leb, ◌==◌, if◌then◌else◌, length, map, get_elem?,
}
use green_gate.Base.Bits.{bit}
use green_gate.Base.Bytes.{Bytes}
use green_gate.Base.Options.{◌>>=◌}
use green_gate.Query.{Column, RecordBatch}
use green_gate.Query.Tail.{Memory}
use green_gate.Query.Runner.{rows_of_block}
use green_gate.Storage.{BlockData, RowGroup}
use green_gate.Ingest.Ingester.{ArrowType, string, int64, Field, ArrowBatch, ingest}
use green_gate.Lsm.MemTable.{MemTable, empty}
use green_gate.Lsm.Registry.{TableState, Store, update, get_table_state, update_table_state}
use green_gate.Lsm.Promotion.{Cell, is_string, read_groups, append_batches}

-- What the compaction uses of Arrow, and the memory behind the tails.
pub record Environment : Type 0 where
  pub finish : List Cell → Column
  pub type_id : ArrowType → ℕ
  pub outside : Memory

-- `freeze_state`, with a new table at address `m` for the writes.
unfoldable pub freeze_state : ℕ → TableState → TableState
freeze_state m state = record {
  table_name = state.table_name;
  column_names = state.column_names;
  column_types = state.column_types;
  persisted_groups = state.persisted_groups;
  active_memtable = m;
  frozen_memtable = some state.active_memtable;
  version = (state.version + 1) % 2 ^ 64;
}

-- The first half: the active table is frozen. Gives the address of the new state, too.
unfoldable pub freeze : Bytes → ℕ → Store → Store × ℕ
unfolding freeze_state update_table_state
freeze table_name p s = (
  update_table_state table_name s.fresh (record s {
    memtables = update s.fresh empty s.memtables;
    states = update s.fresh (freeze_state s.fresh (s.states p)) s.states;
    fresh = s.fresh + 1;
  }),
  s.fresh,
)

-- One builder for each column.
unfoldable pub new_builders : List ℕ → List (List Cell)
new_builders [] = []
new_builders (t ∷ types) = [] ∷ new_builders types

-- The batches of the frozen table, if there is one.
unfoldable pub frozen_batches : Store → TableState → List RecordBatch
frozen_batches s state = elim state.frozen_memtable [ none ↦ [] | some m ↦ (s.memtables m).batches ]

-- The cells of all alive rows of the row groups, and of the batches behind them.
unfoldable pub reconstruct :
    Memory → Store → TableState → List RecordBatch → Option (List (List Cell))
unfolding new_builders
reconstruct outside s state batches = do
  persisted ←
      read_groups state.column_types outside (map s.groups state.persisted_groups)
        (new_builders state.column_types)
  append_batches batches state.column_names state.column_types persisted

-- `total_reconstructed`: the alive rows among `n` from row `r` on, those of the blocks from block
-- `b` on, of the row groups, and of the batches.
unfoldable pub alive_rows : ℕ → ℕ → ℕ → ℕ
alive_rows mask r ℕ.zero = 0
alive_rows mask r (ℕ.suc n) = (if bit mask r == 0 then 0 else 1) + alive_rows mask (r + 1) n

unfoldable pub alive_in_blocks : RowGroup → ℕ → List BlockData → ℕ
unfolding alive_rows
alive_in_blocks rg b [] = 0
alive_in_blocks rg b (block ∷ blocks) =
    alive_rows block.delete_mask 0 (rows_of_block rg b) + alive_in_blocks rg (b + 1) blocks

unfoldable pub total_reconstructed : List RowGroup → List RecordBatch → ℕ
unfolding alive_in_blocks
total_reconstructed [] [] = 0
total_reconstructed [] (batch ∷ batches) = batch.num_rows + total_reconstructed [] batches
total_reconstructed (rg ∷ groups) batches =
    alive_in_blocks rg 0 rg.blocks + total_reconstructed groups batches

-- The columns of the new batch.
unfoldable pub new_fields :
    (List Cell → Column) → List Bytes → List ℕ → List (List Cell) → List Field
new_fields finish (name ∷ names) (t ∷ types) (cells ∷ builders) =
    record { name = name; type_of = if is_string t then string else int64; column = finish cells }
    ∷ new_fields finish names types builders
new_fields finish names types builders = []

-- The state after the compaction: its one row group stands at the next address.
unfoldable pub compact_state : ℕ → RowGroup → TableState → TableState
compact_state q rg state = record {
  table_name = state.table_name;
  column_names = state.column_names;
  column_types = state.column_types;
  persisted_groups = if ltb 0 rg.num_rows then q ∷ [] else [];
  active_memtable = state.active_memtable;
  frozen_memtable = none;
  version = (state.version + 1) % 2 ^ 64;
}

-- The second half, of the state at address `p`. Gives the address of the new state, too. `none` is
-- an exception, an index out of range or a null pointer that is read.
unfoldable pub compact : Environment → Bytes → ℕ → Store → Option (Store × ℕ)
unfolding reconstruct frozen_batches total_reconstructed new_fields compact_state
compact env table_name p s = do
  cells ← reconstruct env.outside s (s.states p) (frozen_batches s (s.states p))
  rg ← ingest env.type_id (record {
    num_rows =
        total_reconstructed (map s.groups (s.states p).persisted_groups)
          (frozen_batches s (s.states p));
    fields = new_fields env.finish (s.states p).column_names (s.states p).column_types cells;
  })
  some (
    update_table_state table_name s.fresh (record s {
      groups = update s.fresh rg s.groups;
      states = update s.fresh (compact_state s.fresh rg (s.states p)) s.states;
      fresh = s.fresh + 1;
    }),
    s.fresh,
  )

-- `!state->persisted_groups.empty()`
unfoldable pub has_groups : List ℕ → Bool
has_groups [] = false
has_groups (p ∷ ps) = true

-- Nothing in the active table and no row group: there is nothing to compact.
unfoldable pub is_idle : Store → TableState → Bool
unfolding has_groups
is_idle s state =
    (s.memtables state.active_memtable).row_count == 0 && not (has_groups state.persisted_groups)

-- `TriggerCompaction` behind the lookup of the state, with nothing between its halves.
unfoldable pub compact_table : Environment → Bytes → Store → ℕ → Option Store
unfolding freeze compact is_idle
compact_table env table_name s p = if is_idle s (s.states p) then some s else do
  compacted ← compact env table_name (freeze table_name p s).1 (freeze table_name p s).0
  some compacted.0

-- `TriggerCompaction`.
unfoldable pub trigger_compaction : Environment → Bytes → Store → Option Store
unfolding compact_table get_table_state
trigger_compaction env table_name s = elim (get_table_state table_name s) [
  | none ↦ some s
  | some p ↦ compact_table env table_name s p
]

-- A round of `DaemonLoop`, while it runs.
unfoldable pub daemon_round : Environment → ℕ → Bytes → Store → Option Store
unfolding trigger_compaction
daemon_round env memory_threshold table_name s = elim (get_table_state table_name s) [
  | none ↦ some s
  | some p ↦
      let size = (s.memtables (s.states p).active_memtable).memory_size in
      if leb memory_threshold size then trigger_compaction env table_name s else some s
]
