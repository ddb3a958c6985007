-- ===== src/Lsm/Promotion/Compaction/Scan.antt =====
-- The compaction keeps what it reads of a table: both halves of `TriggerCompaction`, with the rows as
-- the compaction itself reads them.
use green_gate.Base.{
  ℕ, ◌+◌, ◌^◌, ◌<◌, ◌≡◌, refl, sym, ap, ap₂, fun_ext, ◌∙◌, Bool, false, Option, none, some, List,
  [], ◌∷◌, ◌++◌, append-nil, arith, ltb, ◌==◌, ==_self, if◌then◌else◌, Bool-cases, inl, inr, map,
}
use green_gate.Base.Bytes.{Bytes}
use green_gate.Base.Options.{◌>>=◌, bind_ext, bind_assoc}
use green_gate.Base.Assoc.{key_eq, lookup-insert_self}
use green_gate.Query.{RecordBatch}
use green_gate.Query.Tail.{Memory}
use green_gate.Storage.{RowGroup}
use green_gate.Ingest.Ingester.{ingest}
use green_gate.Lsm.MemTable.{MemTable, empty}
use green_gate.Lsm.Registry.{TableState, Store, update, get_table_state, update_table_state}
use green_gate.Lsm.Promotion.{Cell, read_groups, append_batch, append_batches}
use green_gate.Lsm.Promotion.Reading.Groups.{TailsFit, ingest_lem, read_groups-ingest}
use green_gate.Lsm.Promotion.Compaction.{
  Environment, freeze_state, freeze, new_builders, frozen_batches, reconstruct, total_reconstructed,
  new_fields, compact_state, compact,
}
use green_gate.Lsm.Promotion.Compaction.Columns.{
  IsFinish, AreColumns, no_columns, a_column, append_columns, add_rows-append_columns,
  columns_of-new_fields, Matches-new_fields, append_columns-new_builders,
}

-- The batches of the active table.
unfoldable pub active_batches : Store → TableState → List RecordBatch
active_batches s state = (s.memtables state.active_memtable).batches

-- The same as the compaction reads it.
unfoldable pub read_table : Memory → Store → TableState → Option (List (List Cell))
unfolding active_batches reconstruct frozen_batches
read_table outside s state =
    reconstruct outside s state (frozen_batches s state ++ active_batches s state)

-- The rows that a compaction counts: those of the row groups and of the frozen table.
abbrev pub old_rows : Store → TableState → ℕ
old_rows s state =
    total_reconstructed (map s.groups state.persisted_groups) (frozen_batches s state)

append_batches-append :
    (front back : List RecordBatch) (names : List Bytes) (types : List ℕ)
    (builders : List (List Cell))
    → append_batches (front ++ back) names types builders
      ≡ (append_batches front names types builders >>= append_batches back names types)
unfolding append_batches
append_batches-append [] back names types builders = refl
append_batches-append (batch ∷ front) back names types builders =
    bind_ext (append_batch batch names types builders) _ _
      (λ later. append_batches-append front back names types later)
    ∙ sym (
        bind_assoc (append_batch batch names types builders) (append_batches front names types)
          (append_batches back names types))

module _ (outside : Memory) (s : Store) (state : TableState) where
  -- The rows of a state, from those of its row groups and its frozen table on.
  read_table-reconstruct :
      (cells : List (List Cell))
      → reconstruct outside s state (frozen_batches s state) ≡ some cells
      → read_table outside s state
        ≡ append_batches (active_batches s state) state.column_names state.column_types cells
  unfolding read_table reconstruct
  read_table-reconstruct cells e =
      let persisted =
        read_groups state.column_types outside (map s.groups state.persisted_groups)
          (new_builders state.column_types) in
      let later = append_batches (active_batches s state) state.column_names state.column_types in
      bind_ext persisted _ _ (
        append_batches-append (frozen_batches s state) (active_batches s state) state.column_names
          state.column_types)
      ∙ sym (
          bind_assoc persisted
            (append_batches (frozen_batches s state) state.column_names state.column_types) later)
      ∙ ap (λ (o : Option (List (List Cell))). o >>= later) e

new_builders-AreColumns :
    {total : ℕ} (names : List Bytes) (types : List ℕ) (cells : List (List Cell))
    → total ≡ 0
    → AreColumns total names types cells
    → new_builders types ≡ cells
unfolding new_builders
new_builders-AreColumns _ _ _ e no_columns = refl
new_builders-AreColumns (name ∷ names) (t ∷ types) ([] ∷ columns) e (a_column fit size later) =
    ap (λ (cs : List (List Cell)). [] ∷ cs) (new_builders-AreColumns names types columns e later)
new_builders-AreColumns (name ∷ names) (t ∷ types) ((c ∷ cells) ∷ columns) e
      (a_column fit size later) =
    absurd (omega arith)

pub freeze-read_table :
    (outside : Memory) (table_name : Bytes) (p : ℕ) (s : Store)
    → (s.states p).frozen_memtable ≡ none
    → (s.states p).active_memtable < s.fresh
    → (read_table outside
          (freeze table_name p s).0
          ((freeze table_name p s).0.states (freeze table_name p s).1)
        ≡ read_table outside s (s.states p))
      × (get_table_state table_name (freeze table_name p s).0 ≡ some (freeze table_name p s).1)
unfolding freeze get_table_state read_table
freeze-read_table outside table_name p s not_frozen old =
    let state = s.states p in
    let a = state.active_memtable in
    let rows = λ (batches : List RecordBatch). reconstruct outside s state batches in
    (
      ap
            (λ (x : Bool).
              read_table outside (freeze table_name p s).0
                (if x then freeze_state s.fresh state else s.states s.fresh))
            (==_self s.fresh)
          ∙ ap₂
              (λ (x y : Bool). rows (
                (if x then empty else s.memtables a).batches
                ++ (if y then empty else s.memtables s.fresh).batches))
              {x = a == s.fresh} {y = false} (ground arith) (==_self s.fresh)
          ∙ ap rows (append-nil (s.memtables a).batches)
          ∙ ap
              (λ (frozen : Option ℕ). rows (
                frozen_batches s (record state { frozen_memtable = frozen })
                ++ (s.memtables a).batches))
              (sym not_frozen),
      lookup-insert_self table_name s.fresh s.tables,
    )

module _ (env : Environment) (arrow : IsFinish env.finish) where
  -- The row group of a compaction, and what is read from it.
  compacted_group :
      (total : ℕ) (names : List Bytes) (types : List ℕ) (cells : List (List Cell))
      → AreColumns total names types cells
      → total < 2 ^ 64
      → TailsFit (new_fields env.finish names types cells) total
      → (rg : RowGroup) × (ingest env.type_id
            (record { num_rows = total; fields = new_fields env.finish names types cells })
          ≡ some rg)
        × (rg.num_rows ≡ total)
        × (read_groups types env.outside (rg ∷ []) (new_builders types) ≡ some cells)
  compacted_group total names types cells columns small fit =
      let fields = new_fields env.finish names types cells in
      let matching = Matches-new_fields env.finish arrow total names types cells columns in
      let ingested = ingest_lem matching env.type_id total in
      let read : RowGroup → Option (List (List Cell)) =
        λ rg. read_groups types env.outside (rg ∷ []) (new_builders types) in
      (
        _,
        ingested,
        refl,
        sym (ap (λ (o : Option RowGroup). o >>= read) ingested)
            ∙ read_groups-ingest matching env.type_id total env.outside (new_builders types) small
                fit
            ∙ ap some (
                add_rows-append_columns fields types 0 total (new_builders types)
                ∙ ap (append_columns (new_builders types))
                    (columns_of-new_fields env.finish arrow total names types cells columns)
                ∙ append_columns-new_builders total names types cells columns),
      )

  -- The state that a compaction makes, of a row group with the rows in it.
  module _ (s : Store) (state : TableState) (rg : RowGroup) (cells : List (List Cell)) (total : ℕ)
      (columns : AreColumns total state.column_names state.column_types cells)
      (size : rg.num_rows ≡ total)
      (found : read_groups state.column_types env.outside
          (rg ∷ [])
          (new_builders state.column_types)
        ≡ some cells) where
    -- No row, no row group.
    read_groups_if :
        read_groups state.column_types env.outside
          (map (update s.fresh rg s.groups) (if ltb 0 rg.num_rows then s.fresh ∷ [] else []))
          (new_builders state.column_types)
        ≡ some cells
    unfolding read_groups
    read_groups_if = elim (Bool-cases (ltb 0 rg.num_rows)) [
      | inl some_rows ↦ rw some_rows (
          ap
            (λ (x : Bool).
              read_groups state.column_types env.outside ((if x then rg else s.groups s.fresh) ∷ [])
                (new_builders state.column_types))
            (==_self s.fresh)
          ∙ found)
      | inr no_rows ↦ rw no_rows (
          ap some (
            new_builders-AreColumns state.column_names state.column_types cells (ground arith)
              columns))
    ]

    -- The rows of the new state: no table is frozen, and the active one is as before.
    compacted_rows :
        (t : Store)
        → ((q : ℕ) → t.groups q ≡ update s.fresh rg s.groups q)
        → ((m : ℕ) → t.memtables m ≡ s.memtables m)
        → read_table env.outside t (compact_state s.fresh rg state)
          ≡ append_batches (active_batches s state) state.column_names state.column_types cells
    unfolding read_table reconstruct frozen_batches active_batches compact_state
    compacted_rows t groups_are tables_are =
        let later = λ (batches : List RecordBatch).
          append_batches batches state.column_names state.column_types in
        ap
          (λ (g : ℕ → RowGroup).
            read_groups state.column_types env.outside
              (map g (if ltb 0 rg.num_rows then s.fresh ∷ [] else []))
              (new_builders state.column_types)
            >>= later (t.memtables state.active_memtable).batches)
          (fun_ext groups_are)
        ∙ ap
            (λ (o : Option (List (List Cell))).
              o >>= later (t.memtables state.active_memtable).batches)
            read_groups_if
        ∙ ap (λ (m : MemTable). later m.batches cells) (tables_are state.active_memtable)

  pub compact-read_table :
      (table_name : Bytes) (p : ℕ) (s : Store) (cells : List (List Cell))
      → reconstruct env.outside s (s.states p) (frozen_batches s (s.states p)) ≡ some cells
      → AreColumns
          (old_rows s (s.states p))
          (s.states p).column_names
          (s.states p).column_types
          cells
      → old_rows s (s.states p) < 2 ^ 64
      → TailsFit
          (new_fields env.finish (s.states p).column_names (s.states p).column_types cells)
          (old_rows s (s.states p))
      → (t : Store) × (q : ℕ) × (compact env table_name p s ≡ some (t, q))
        × (get_table_state table_name t ≡ some q)
        × (read_table env.outside t (t.states q) ≡ read_table env.outside s (s.states p))
  unfolding compact get_table_state update_table_state
  compact-read_table table_name p s cells read columns small fit =
      let state = s.states p in
      let total = old_rows s state in
      let (rg, ingested, size, found) =
        compacted_group total state.column_names state.column_types cells columns small fit in
      let store_of : RowGroup → Store = λ rg. update_table_state table_name s.fresh (record s {
        groups = update s.fresh rg s.groups;
        states = update s.fresh (compact_state s.fresh rg state) s.states;
        fresh = s.fresh + 1;
      }) in
      let finish_with : RowGroup → Option (Store × ℕ) = λ rg. some (store_of rg, s.fresh) in
      let build : List (List Cell) → Option (Store × ℕ) = λ cells.
        ingest env.type_id (record {
          num_rows = total;
          fields = new_fields env.finish state.column_names state.column_types cells;
        })
        >>= finish_with in
      (
        store_of rg,
        s.fresh,
        ap (λ (o : Option (List (List Cell))). o >>= build) read
            ∙ ap (λ (o : Option RowGroup). o >>= finish_with) ingested,
        lookup-insert_self table_name s.fresh s.tables,
        ap
              (λ (x : Bool).
                read_table env.outside (store_of rg)
                  (if x then compact_state s.fresh rg state else s.states s.fresh))
              (==_self s.fresh)
            ∙ compacted_rows s state rg cells total columns size found (store_of rg) (λ q. refl)
                (λ m. refl)
            ∙ sym (read_table-reconstruct env.outside s state cells read),
      )
