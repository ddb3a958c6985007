-- ===== src/Lsm/MemTable/Counters.antt =====
-- The counters of the in-memory table follow its batches.
use green_gate.Base.{
  ℕ, ◌+◌, ◌%◌, ◌^◌, ◌<◌, ◌≡◌, refl, ◌∙◌, Option, none, some, List, [], ◌∷◌, ◌++◌, arith,
}
use green_gate.Query.{RecordBatch}
use green_gate.Lsm.MemTable.{MemTable, empty, buffers_size, batch_size, append, clear}

-- The rows of all batches.
abbrev pub rows_of : List RecordBatch → ℕ
rows_of [] = 0
rows_of (batch ∷ batches) = batch.num_rows + rows_of batches

-- The bytes of all buffers of a batch, and of all batches.
abbrev sum_of : List ℕ → ℕ
sum_of [] = 0
sum_of (n ∷ ns) = n + sum_of ns

abbrev column_sizes : List (List ℕ) → ℕ
column_sizes [] = 0
column_sizes (c ∷ columns) = sum_of c + column_sizes columns

abbrev pub sizes_of : List RecordBatch → ℕ
sizes_of [] = 0
sizes_of (batch ∷ batches) = column_sizes batch.buffer_sizes + sizes_of batches

-- `row_count_` and `memory_size_` are the rows and bytes of the batches, modulo 2 ^ 64.
pub record IsCounted (t : MemTable) : Type 0 where
  pub rows : t.row_count ≡ rows_of t.batches % 2 ^ 64
  pub bytes : t.memory_size ≡ sizes_of t.batches % 2 ^ 64

buffers_size_lem :
    (buffers : List ℕ) (size : ℕ)
    → size < 2 ^ 64
    → buffers_size buffers size ≡ (size + sum_of buffers) % 2 ^ 64
unfolding buffers_size
buffers_size_lem [] size h = omega arith
buffers_size_lem (b ∷ buffers) size h =
    buffers_size_lem buffers ((size + b) % 2 ^ 64) (omega arith) ∙ omega arith

batch_size_lem :
    (columns : List (List ℕ)) (size : ℕ)
    → size < 2 ^ 64
    → batch_size columns size ≡ (size + column_sizes columns) % 2 ^ 64
unfolding batch_size
batch_size_lem [] size h = omega arith
batch_size_lem (c ∷ columns) size h =
    let first = buffers_size_lem c size h in
    batch_size_lem columns (buffers_size c size) (omega (arith, first)) ∙ omega (arith, first)

rows_of-append :
    (xs : List RecordBatch) (b : RecordBatch) → rows_of (xs ++ b ∷ []) ≡ rows_of xs + b.num_rows
rows_of-append [] b = omega arith
rows_of-append (x ∷ xs) b = omega (arith, rows_of-append xs b)

sizes_of-append :
    (xs : List RecordBatch) (b : RecordBatch)
    → sizes_of (xs ++ b ∷ []) ≡ sizes_of xs + column_sizes b.buffer_sizes
sizes_of-append [] b = omega arith
sizes_of-append (x ∷ xs) b = omega (arith, sizes_of-append xs b)

-- The operations that change a table, in the order in which they take its mutex.
pub data Step : MemTable → MemTable → Type 0 where
  appended : (t : MemTable) (batch : Option RecordBatch) → Step t (append batch t)
  cleared : (t : MemTable) → Step t (clear t)

pub data Reachable : MemTable → Type 0 where
  started : Reachable empty
  stepped : {t u : MemTable} → Reachable t → Step t u → Reachable u

append-IsCounted : (b : Option RecordBatch) (t : MemTable) → IsCounted t → IsCounted (append b t)
unfolding append
append-IsCounted none t h = h
append-IsCounted (some b) t h = record {
  rows = omega (arith, h.rows, rows_of-append t.batches b);
  bytes =
      omega (
        arith,
        h.bytes,
        sizes_of-append t.batches b,
        batch_size_lem b.buffer_sizes 0 (omega arith),
      );
}

Step-IsCounted : {t u : MemTable} → Step t u → IsCounted t → IsCounted u
unfolding clear
Step-IsCounted (appended t batch) h = append-IsCounted batch t h
Step-IsCounted (cleared t) h = record { rows = refl; bytes = refl }

-- After any sequence of `Append` and `Clear` on a new table, `row_count_` is the number of rows in
-- the batches and `memory_size_` the sum of their buffer sizes, both modulo 2 ^ 64.
pub Reachable-IsCounted : (t : MemTable) → Reachable t → IsCounted t
Reachable-IsCounted t started = record { rows = refl; bytes = refl }
Reachable-IsCounted t (stepped h step) = Step-IsCounted step (Reachable-IsCounted _ h)
