-- ===== src/Lsm/Promotion/Tests.antt =====
-- A table of a string column and an integer column: two rows in a row group, the first deleted, and
-- a row in memory.
use green_gate.Base.{
  ℕ, zero, suc, ◌+◌, ◌*◌, ◌%◌, ◌^◌, ◌<◌, ◌≡◌, refl, subst, Bool, true, false, Option, none, some,
  List, [], ◌∷◌, arith, leb, if◌then◌else◌, length, get_elem?, replicate,
}
use green_gate.Base.Bytes.{Bytes, codes, bytes_eq}
use green_gate.Base.Options.{◌>>=◌}
use green_gate.Query.{Column}
use green_gate.Query.Tail.{Memory}
use green_gate.Storage.{RowGroup}
use green_gate.Ingest.Tail.{string_data}
use green_gate.Ingest.Ingester.{ArrowType, string, int64, Field, block_strings, ingest}
use green_gate.Ingest.Ingester.Blocks.{Matches, no_fields, string_field, integer_field}
use green_gate.Lsm.MemTable.{MemTable}
use green_gate.Lsm.Registry.{Store, TableState, get_table_state}
use green_gate.Lsm.Promotion.{Cell, null_cell, integer, text, read_groups, cell_of}
use green_gate.Lsm.Promotion.Access.{
  get_column_access_count, clear_column_access_counts, record_all, times, get_count-record_all,
  times-requests,
}
use green_gate.Lsm.Promotion.Reading.Groups.{TailsFit, rows_in, read_groups-ingest}
use green_gate.Lsm.Promotion.Reading.Rows.{add_rows}
use green_gate.Lsm.Promotion.Compaction.{Environment, freeze}
use green_gate.Lsm.Promotion.Compaction.Columns.{IsFinish}
use green_gate.Lsm.Promotion.Compaction.Laws.{table_rows, freeze-table_rows}

-- Builders that keep their cells.
abbrev null_of : Option Cell → Bool
null_of (some null_cell) = true
null_of _ = false

abbrev value_of : Option Cell → ℕ
value_of (some (integer v)) = v % 2 ^ 64
value_of _ = 0

abbrev text_of : Option Cell → Bytes
text_of (some (text s)) = s
text_of _ = []

abbrev keep : List Cell → Column
keep cells = record {
  is_null = λ i. null_of (get_elem? cells i);
  view = λ i. text_of (get_elem? cells i);
  value_at = λ i. value_of (get_elem? cells i);
}

keep-IsFinish : IsFinish keep
keep-IsFinish = record {
  at_null = λ cells i e. rw e refl;
  at_integer = λ cells i v e h. rw e (refl, omega arith);
  at_text = λ cells i s e. rw e (refl, refl);
  is_word = λ cells i. value_of-lt (get_elem? cells i);
}
  where
    value_of-lt : (o : Option Cell) → value_of o < 2 ^ 64
    value_of-lt none = omega arith
    value_of-lt (some null_cell) = omega arith
    value_of-lt (some (integer v)) = omega arith
    value_of-lt (some (text s)) = omega arith

abbrev names : List Cell
names = text (codes "ab") ∷ (null_cell ∷ [])

abbrev values : List Cell
values = integer 7 ∷ (integer 9 ∷ [])

abbrev two_fields : List Field
two_fields =
    record { name = codes "name"; type_of = string; column = keep names }
    ∷ (record { name = codes "value"; type_of = int64; column = keep values } ∷ [])

abbrev two_types : List ℕ
two_types = 13 ∷ (9 ∷ [])

two_fields-Matches : Matches two_fields two_types
two_fields-Matches =
    string_field refl (integer_field refl refl (keep-IsFinish.is_word values) no_fields)

two_fields-TailsFit : TailsFit two_fields 2
unfolding block_strings string_data
two_fields-TailsFit zero = omega arith
two_fields-TailsFit (suc b) =
    subst
      (λ (n : ℕ).
        length (block_strings (suc b * 64) n two_fields) * 8
          + length (string_data (block_strings (suc b * 64) n two_fields))
        < 2 ^ 62)
      {x = 0} {y = rows_in 2 (suc b)} (omega arith) (omega arith)

abbrev type_number : ArrowType → ℕ
type_number string = 13
type_number int64 = 9
type_number _ = 8

abbrev zeros : Memory
zeros p = 0

read_groups-ingest_example :
    (ingest type_number (record { num_rows = 2; fields = two_fields }) >>= λ rg.
    read_groups two_types zeros (rg ∷ []) ([] ∷ ([] ∷ [])))
    ≡ some (add_rows two_fields two_types 0 2 ([] ∷ ([] ∷ [])))
read_groups-ingest_example =
    read_groups-ingest two_fields-Matches type_number 2 zeros ([] ∷ ([] ∷ [])) (omega arith)
      two_fields-TailsFit

add_rows-two : add_rows two_fields two_types 0 2 ([] ∷ ([] ∷ [])) ≡ names ∷ (values ∷ [])
unfolding add_rows cell_of
add_rows-two = refl

get_count-record_all_example :
    get_column_access_count
      (codes "a")
      (record_all (codes "a" ∷ (codes "b" ∷ (codes "a" ∷ []))) (clear_column_access_counts [])).0
    ≡ times (codes "a") (codes "a" ∷ (codes "b" ∷ (codes "a" ∷ []))) % 2 ^ 64
get_count-record_all_example =
    get_count-record_all (codes "a") (codes "a" ∷ (codes "b" ∷ (codes "a" ∷ []))) []

abbrev seven : List Bytes
seven =
    codes "a"
    ∷ (codes "a" ∷ (codes "b" ∷ (codes "a" ∷ (codes "a" ∷ (codes "a" ∷ (codes "a" ∷ []))))))

times-requests_example :
    times (codes "a") (record_all seven (clear_column_access_counts [])).1
    ≡ (if leb 6 (times (codes "a") seven) then 1 else 0)
times-requests_example = times-requests (codes "a") seven [] (omega arith)

-- The values 5 and 7, the first of them deleted.
abbrev old_group : RowGroup
old_group = record {
  num_rows = 2;
  num_columns = 1;
  column_names = codes "v" ∷ [];
  column_types = 9 ∷ [];
  blocks =
      record {
        columns =
            record {
              planes = 3 ∷ (2 ∷ (3 ∷ replicate 61 0));
              validity = 3;
              padding = replicate 7 0;
            }
            ∷ [];
        tail_payload = [];
        delete_mask = 2;
      }
      ∷ [];
}

abbrev table_of : ℕ → MemTable
table_of v = record {
  batches =
      record {
        num_rows = 1;
        column_by_name =
            λ name. if bytes_eq name (codes "v") then some (keep (integer v ∷ [])) else none;
        buffer_sizes = [];
      }
      ∷ [];
  row_count = 1;
  memory_size = 8;
}

abbrev some_state : TableState
some_state = record {
  table_name = codes "t";
  column_names = codes "v" ∷ [];
  column_types = 9 ∷ [];
  persisted_groups = 0 ∷ [];
  active_memtable = 11;
  frozen_memtable = some 9;
  version = 2;
}

abbrev some_store : Store
some_store = record {
  groups = λ _. old_group;
  memtables = table_of;
  states = λ _. some_state;
  fresh = 20;
  tables = (codes "t", 3) ∷ [];
  global_tables = [];
}

abbrev old_cells : List (List Cell)
old_cells = (integer 7 ∷ (integer 9 ∷ [])) ∷ []

-- What the compaction uses of Arrow, with the builders above.
abbrev environment : Environment
environment = record { finish = keep; type_id = type_number; outside = zeros }

-- Before its compaction, the table has no frozen part.
abbrev new_store : Store
new_store = record some_store { states = λ _. record some_state { frozen_memtable = none } }

freeze-table_rows_example :
    (table_rows zeros
        (freeze (codes "t") 3 new_store).0
        ((freeze (codes "t") 3 new_store).0.states (freeze (codes "t") 3 new_store).1)
      ≡ table_rows zeros new_store (new_store.states 3))
    × (get_table_state (codes "t") (freeze (codes "t") 3 new_store).0
        ≡ some (freeze (codes "t") 3 new_store).1)
freeze-table_rows_example = freeze-table_rows zeros (codes "t") 3 new_store refl (omega arith)

abbrev frozen_store : Store
frozen_store = (freeze (codes "t") 3 new_store).0

abbrev frozen_cells : List (List Cell)
frozen_cells = (integer 7 ∷ (integer 11 ∷ [])) ∷ []
