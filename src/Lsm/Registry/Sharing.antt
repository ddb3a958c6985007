-- ===== src/Lsm/Registry/Sharing.antt =====
-- What a name leads to after registration, synchronization and insertion.
use green_gate.Base.{ℕ, ◌≡◌, ap, ◌∙◌, Option, some, ==_self}
use green_gate.Base.Bytes.{Bytes}
use green_gate.Base.Assoc.{insert, lookup-insert_self, key_eq}
use green_gate.Query.{RecordBatch}
use green_gate.Lsm.MemTable.{append}
use green_gate.Lsm.Registry.{
  Store, done, update, get_table_state, insert_batch, get_global_state, sync_local_node,
  update_table_state,
}

-- The store after a batch was appended to the table of the state at `p`.
abbrev appended_to : ℕ → Option RecordBatch → Store → Store
appended_to p batch s =
    let m = (s.states p).active_memtable in
    record s { memtables = update m (append batch (s.memtables m)) s.memtables }

insert_batch-registered :
    (table_name : Bytes) (batch : Option RecordBatch) (p : ℕ) (s : Store)
    → get_table_state table_name s ≡ some p
    → insert_batch table_name batch s ≡ done (appended_to p batch s)
unfolding insert_batch
insert_batch-registered table_name batch p s found = rw (found, insert_batch)

sync_local_node-registered :
    (table_name : Bytes) (p : ℕ) (s : Store)
    → get_global_state table_name s ≡ some p
    → sync_local_node table_name s ≡ record s { tables = insert table_name p s.tables }
unfolding sync_local_node get_global_state update_table_state
sync_local_node-registered table_name p s found = rw (found, sync_local_node)

-- After `SyncLocalNode` of a table that the global registry has, the local name leads to the very
-- state of the global registry: a batch inserted locally is in the table that the global state
-- names, which is no snapshot.
pub insert_batch-sync_local_node :
    (table_name : Bytes) (batch : Option RecordBatch) (p : ℕ) (s : Store)
    → get_global_state table_name s ≡ some p
    → (s' : Store) × (insert_batch table_name batch (sync_local_node table_name s) ≡ done s')
      × (get_global_state table_name s' ≡ some p)
      × (s'.memtables (s'.states p).active_memtable
          ≡ append batch (s.memtables (s.states p).active_memtable))
unfolding get_table_state get_global_state
insert_batch-sync_local_node table_name batch p s found =
    let synced : Store = record s { tables = insert table_name p s.tables } in
    let m = (s.states p).active_memtable in
    (
      appended_to p batch synced,
      ap (insert_batch table_name batch) (sync_local_node-registered table_name p s found)
          ∙ insert_batch-registered table_name batch p synced
              (lookup-insert_self table_name p s.tables),
      found,
      rw (==_self m),
    )
