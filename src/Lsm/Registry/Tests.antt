-- ===== src/Lsm/Registry/Tests.antt =====
-- A registry with one table of two row groups.
use green_gate.Base.{ℕ, ◌≡◌, refl, arith, ◌==◌, if◌then◌else◌, none, some, [], ◌∷◌}
use green_gate.Base.Bytes.{bytes_eq, codes}
use green_gate.Base.Assoc.{lookup, key_eq}
use green_gate.Storage.{RowGroup}
use green_gate.Query.{RecordBatch}
use green_gate.Lsm.MemTable.{empty, append}
use green_gate.Lsm.Registry.{
  Store, done, not_registered, get_table_state, delete_row, insert_batch, get_global_state,
  sync_local_node,
}
use green_gate.Lsm.Registry.Deletion.{row_bit, total_rows, delete_row_lem}
use green_gate.Lsm.Registry.Sharing.{insert_batch-sync_local_node}

abbrev group_of : ℕ → RowGroup
group_of rows = record {
  num_rows = rows;
  num_columns = 0;
  column_names = [];
  column_types = [];
  blocks = record { columns = []; tail_payload = []; delete_mask = 7 } ∷ [];
}

abbrev store : Store
store = record {
  groups = λ q. if q == 1 then group_of 2 else group_of 3;
  memtables = λ q. empty;
  states = λ q. record {
    table_name = codes "t";
    column_names = [];
    column_types = [];
    persisted_groups = 1 ∷ 2 ∷ [];
    active_memtable = 5;
    frozen_memtable = none;
    version = 1;
  };
  fresh = 9;
  tables = (codes "t", 4) ∷ [];
  global_tables = (codes "t", 4) ∷ [];
}

registered : get_table_state (codes "t") store ≡ some 4
unfolding get_table_state lookup bytes_eq
registered = refl

registered_globally : get_global_state (codes "t") store ≡ some 4
unfolding get_global_state lookup bytes_eq
registered_globally = refl

three_rows : total_rows store.groups (1 ∷ 2 ∷ []) ≡ 5
unfolding total_rows
three_rows = refl

delete_row_lem_example :
    (s' : Store) × (delete_row (codes "t") 3 store ≡ done s')
    × ((j : ℕ)
        → row_bit s'.groups (1 ∷ 2 ∷ []) j
          ≡ (if j == 3 then 0 else row_bit store.groups (1 ∷ 2 ∷ []) j))
delete_row_lem_example =
    delete_row_lem (codes "t") 3 4 store registered ((λ e. omega (arith, e), tt), (tt, tt))
      (
        record { enough = omega arith; masks = (omega arith, tt) },
        (record { enough = omega arith; masks = (omega arith, tt) }, tt),
      )
      (omega (arith, three_rows))

abbrev two_rows : RecordBatch
two_rows = record { num_rows = 2; column_by_name = λ name. none; buffer_sizes = [] }

insert_batch-sync_local_node_example :
    (s' : Store) × (insert_batch (codes "t") (some two_rows) (sync_local_node (codes "t") store)
      ≡ done s')
    × (get_global_state (codes "t") s' ≡ some 4)
    × (s'.memtables (s'.states 4).active_memtable ≡ append (some two_rows) (store.memtables 5))
insert_batch-sync_local_node_example =
    insert_batch-sync_local_node (codes "t") (some two_rows) 4 store registered_globally

delete_row_unknown : delete_row (codes "u") 0 store ≡ not_registered
unfolding delete_row get_table_state lookup bytes_eq
delete_row_unknown = refl
