-- ===== src/Lsm/Registry.antt =====
-- src/lex/lsm/metadata_registry.cpp and src/lex/distributed/global_metadata.cpp: tables by name,
-- and the logical deletion of rows. Table states, row groups and in-memory tables are shared by
-- pointer, so they stand in a store by address, and a registry maps names to addresses.
pub mod Deletion
pub mod Sharing
mod Tests
use green_gate.Base.{
  ℕ, ◌+◌, ◌-◌, ◌/◌, ◌%◌, ◌^◌, bit_and, Bool, true, false, ◌&&◌, Option, none, some, List, [], ◌∷◌,
  ltb, leb, ◌==◌, if◌then◌else◌, length, get_or, set,
}
use green_gate.Base.Bytes.{Bytes}
use green_gate.Base.Assoc.{lookup, insert, key_eq}
use green_gate.Query.{RecordBatch}
use green_gate.Lsm.MemTable.{MemTable, empty, append}
use green_gate.Storage.{BlockData, RowGroup}

-- `persisted_groups` and the two tables are addresses.
pub record TableState : Type 0 where
  pub table_name : Bytes
  pub column_names : List Bytes
  pub column_types : List ℕ
  pub persisted_groups : List ℕ
  pub active_memtable : ℕ
  pub frozen_memtable : Option ℕ
  pub version : ℕ

-- The shared objects by address, and the two registries. `fresh` is above all addresses in use.
pub record Store : Type 0 where
  pub groups : ℕ → RowGroup
  pub memtables : ℕ → MemTable
  pub states : ℕ → TableState
  pub fresh : ℕ
  pub tables : List (Bytes × ℕ)
  pub global_tables : List (Bytes × ℕ)

-- The objects with one of them replaced.
abbrev pub update {ℓ} : {A : Type ℓ} → ℕ → A → (ℕ → A) → ℕ → A
update p v objects q = if q == p then v else objects q

pub data Outcome {ℓ} (A : Type ℓ) : Type ℓ where
  done : A → Outcome A
  not_registered : Outcome A
  -- A block index out of range.
  undefined : Outcome A

-- `make_shared<TableState>()` and its fields, with an empty in-memory table of its own.
unfoldable pub new_state : Bytes → List Bytes → List ℕ → Store → Store
new_state table_name column_names column_types s = record s {
  memtables = update s.fresh empty s.memtables;
  states =
      update s.fresh
        (record {
          table_name = table_name;
          column_names = column_names;
          column_types = column_types;
          persisted_groups = [];
          active_memtable = s.fresh;
          frozen_memtable = none;
          version = 1;
        })
        s.states;
  fresh = s.fresh + 1;
}

-- `MetadataRegistry::RegisterTable`.
unfoldable pub register_table : Bytes → List Bytes → List ℕ → Store → Store
unfolding new_state
register_table table_name column_names column_types s =
    let s' = new_state table_name column_names column_types s in
    record s' { tables = insert table_name s.fresh s.tables }

-- `MetadataRegistry::GetTableState`; `none` is a null pointer.
unfoldable pub get_table_state : Bytes → Store → Option ℕ
get_table_state table_name s = lookup table_name s.tables

-- `MetadataRegistry::UpdateTableState`.
unfoldable pub update_table_state : Bytes → ℕ → Store → Store
update_table_state table_name state s = record s { tables = insert table_name state s.tables }

-- `MetadataRegistry::InsertBatch`.
unfoldable pub insert_batch : Bytes → Option RecordBatch → Store → Outcome Store
unfolding get_table_state
insert_batch table_name batch s = elim (get_table_state table_name s) [
  | none ↦ not_registered
  | some p ↦
      let m = (s.states p).active_memtable in
      done (record s { memtables = update m (append batch (s.memtables m)) s.memtables })
]

-- `delete_mask &= ~(1ULL << bit_idx)` in the block of a local row number.
unfoldable pub clear_row : ℕ → RowGroup → Outcome RowGroup
clear_row local_idx rg =
    let block_idx = local_idx / 64 in
    let block : BlockData =
      get_or rg.blocks block_idx (record { columns = []; tail_payload = []; delete_mask = 0 }) in
    let mask = bit_and block.delete_mask (2 ^ 64 - 1 - 2 ^ (local_idx % 64)) in
    if ltb block_idx (length rg.blocks)
    then done (record rg { blocks = set rg.blocks block_idx (record block { delete_mask = mask }) })
    else undefined

abbrev pub map_outcome {ℓ κ} : {A : Type ℓ} {B : Type κ} → (A → B) → Outcome A → Outcome B
map_outcome f (done a) = done (f a)
map_outcome f not_registered = not_registered
map_outcome f undefined = undefined

-- The loop over the persisted row groups.
unfoldable pub delete_in_groups : List ℕ → ℕ → ℕ → (ℕ → RowGroup) → Outcome (ℕ → RowGroup)
unfolding clear_row
delete_in_groups [] current_base global_row_idx groups = done groups
delete_in_groups (p ∷ ps) current_base global_row_idx groups =
    let next_base = (current_base + (groups p).num_rows) % 2 ^ 64 in
    let later = delete_in_groups ps next_base global_row_idx groups in
    if leb current_base global_row_idx && ltb global_row_idx next_base
    then map_outcome (λ rg. update p rg groups)
        (clear_row (global_row_idx - current_base) (groups p))
    else later

-- `MetadataRegistry::DeleteRow`.
unfoldable pub delete_row : Bytes → ℕ → Store → Outcome Store
unfolding get_table_state delete_in_groups
delete_row table_name global_row_idx s = elim (get_table_state table_name s) [
  | none ↦ not_registered
  | some p ↦
      map_outcome (λ g. record s { groups = g })
        (delete_in_groups (s.states p).persisted_groups 0 global_row_idx s.groups)
]

-- `GlobalMetadata::RegisterTable`: a state of its own, and another in the local registry.
unfoldable pub register_global : Bytes → List Bytes → List ℕ → Store → Store
unfolding new_state register_table
register_global table_name column_names column_types s =
    let s' = new_state table_name column_names column_types s in
    register_table table_name column_names column_types
      (record s' { global_tables = insert table_name s.fresh s.global_tables })

-- `GlobalMetadata::GetGlobalState`.
unfoldable pub get_global_state : Bytes → Store → Option ℕ
get_global_state table_name s = lookup table_name s.global_tables

-- `GlobalMetadata::UpdateGlobalState`.
unfoldable pub update_global_state : Bytes → ℕ → Store → Store
update_global_state table_name state s = record s {
  global_tables = insert table_name state s.global_tables;
}

-- `GlobalMetadata::SyncLocalNode`.
unfoldable pub sync_local_node : Bytes → Store → Store
unfolding update_table_state
sync_local_node table_name s = elim (lookup table_name s.global_tables) [
  | none ↦ s
  | some p ↦ update_table_state table_name p s
]

-- `GlobalMetadata::Clear`.
unfoldable pub clear_global : Store → Store
clear_global s = record s { global_tables = [] }
