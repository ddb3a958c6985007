-- ===== src/Lsm/Promotion/Compaction/Laws.antt =====
-- The compaction keeps the rows of a table: those at the places of the rows that are not deleted, and
-- those of its in-memory tables.
use green_gate.Base.{ℕ, ◌<◌, ◌≡◌, sym, ap, ◌∙◌, Option, none, some, List, ◌++◌, map}
use green_gate.Base.Bytes.{Bytes}
use green_gate.Base.Options.{◌>>=◌}
use green_gate.Base.Assoc.{key_eq}
use green_gate.Query.{RecordBatch}
use green_gate.Query.Tail.{Memory}
use green_gate.Lsm.Registry.{TableState, Store, get_table_state}
use green_gate.Lsm.Promotion.{Cell, append_batches}
use green_gate.Lsm.Promotion.Compaction.{freeze, new_builders, frozen_batches, reconstruct}
use green_gate.Lsm.Promotion.Compaction.Alive.{live_groups, gather, read_groups-gather}
use green_gate.Lsm.Promotion.Compaction.Scan.{active_batches, read_table, freeze-read_table}

-- The cells of a table's rows: those at the places of the rows of its row groups that are not deleted,
-- and behind them those of batches.
unfoldable pub kept_cells :
    Memory → Store → TableState → List RecordBatch → Option (List (List Cell))
kept_cells outside s state batches =
    gather state.column_types outside (live_groups (map s.groups state.persisted_groups))
      (new_builders state.column_types)
    >>= append_batches batches state.column_names state.column_types

-- The cells of the rows of a table state, column by column: those of the row groups that are not
-- deleted, of the frozen table and of the active one.
unfoldable pub table_rows : Memory → Store → TableState → Option (List (List Cell))
unfolding active_batches kept_cells frozen_batches
table_rows outside s state =
    kept_cells outside s state (frozen_batches s state ++ active_batches s state)

reconstruct-kept_cells :
    (outside : Memory) (s : Store) (state : TableState) (batches : List RecordBatch)
    → reconstruct outside s state batches ≡ kept_cells outside s state batches
unfolding reconstruct kept_cells
reconstruct-kept_cells outside s state batches =
    ap
      (λ (o : Option (List (List Cell))).
        o >>= append_batches batches state.column_names state.column_types)
      (read_groups-gather state.column_types outside (map s.groups state.persisted_groups)
        (new_builders state.column_types))

read_table-table_rows :
    (outside : Memory) (s : Store) (state : TableState)
    → read_table outside s state ≡ table_rows outside s state
unfolding read_table table_rows
read_table-table_rows outside s state = reconstruct-kept_cells outside s state _

-- The first half of `TriggerCompaction` keeps the rows of a table of which no part is frozen yet,
-- and the table's name leads to the state in which the old active table is frozen: if the addresses
-- from `fresh` on are free.
pub freeze-table_rows :
    (outside : Memory) (table_name : Bytes) (p : ℕ) (s : Store)
    → (s.states p).frozen_memtable ≡ none
    → (s.states p).active_memtable < s.fresh
    → (table_rows outside
          (freeze table_name p s).0
          ((freeze table_name p s).0.states (freeze table_name p s).1)
        ≡ table_rows outside s (s.states p))
      × (get_table_state table_name (freeze table_name p s).0 ≡ some (freeze table_name p s).1)
freeze-table_rows outside table_name p s not_frozen old =
    let (kept, found) = freeze-read_table outside table_name p s not_frozen old in
    (
      sym (read_table-table_rows outside (freeze table_name p s).0 _)
          ∙ kept
          ∙ read_table-table_rows outside s (s.states p),
      found,
    )
