-- ===== src/Lib.antt =====
-- GreenGate: a bit-sliced columnar store with an in-memory table and a distributed join.
--
-- The parts, the files that model them, and the code:
--
-- Ingest/Transposer: `Transpose64_Scalar`, `Transpose64` and `greengate_butterfly_transpose` of
-- src/lex/ingest/simd_transposer.cpp, which turn 64 words into 64 bit planes and back. An array is
-- a list of numbers below 2 ^ 64. The portable path is modelled; the NEON path is not.
-- Storage: `CbstTile`, `BlockData` and `RowGroup` of include/lex/storage, the units of the
-- columnar format. Storage/Exporter models `Serialize` (Write) and `Deserialize` (Read) of
-- src/lex/storage/exporter.cpp on lists of bytes, integers being little-endian as on the machines
-- the program runs on. `serialize` gives `none` for a vector index out of range; `deserialize`
-- gives the exception that the code throws, or `fault` for a read outside the data. Storage
-- allocation is assumed to succeed but for the `length_error` of a tail of 2 ^ 63 bytes or more.
-- Data is shorter than 2 ^ 62 bytes, which any memory is. File input and output are not modelled.
-- Query: predicates and the record batches they read. What the program reads of Arrow is a record
-- of functions (`Column`, `RecordBatch`); Query/Text has the string tests.
-- Lsm/MemTable: src/lex/lsm/mem_table.cpp, a table of batches in memory. Each method holds the
-- table's mutex, so it is one step; `Counters` has the steps as a relation.
-- Cluster: src/lex/distributed. RowId packs row numbers; Transport fragments messages (`Send`) and
-- puts them together (`ReceiverLoop`). Sockets and threads are not modelled: the datagrams that
-- arrive are a list, in the order of arrival, and the payload of a packet is the list of its
-- entries.
-- Lsm/Registry: src/lex/lsm/metadata_registry.cpp and src/lex/distributed/global_metadata.cpp. Table
-- states, row groups and in-memory tables are shared by pointer: they stand in a store by address.
-- `undefined` is a block index out of range.
-- Cluster/Shuffle: the exchange of join signatures between nodes and the join of each node in
-- src/lex/distributed/distributed_coordinator.cpp. The list of entries of a side is that of all
-- nodes, one after the other: where an entry goes does not depend on the node that sends it.
-- Cluster/Matching: `GetMatchingRows` of the same file, the predicates of a join on a batch.
-- Query/Runner: `QueryRunner` of src/lex/jit/query_planner.cpp. The tail of a block is read as memory
-- behind a pointer (Query/Tail); the loops over the set bits of a mask have fuel 64, one for each
-- bit, and Base/SetBits shows that this visits them all.
-- Query/Compiler: src/lex/jit/micro_op_compiler.cpp, from micro-operations to A64 instructions, over
-- the meaning of these instructions in Query/Machine. The loops that emit the code of a comparison
-- recurse on the number of planes left.
-- Ingest/Kim: `GenerateKimSignature` of src/lex/ingest/adaptive_ingester.cpp, the signatures that the
-- compiled code tests before the strings are looked at.
-- Lsm/Scan: a query on a table state, over its row groups and in-memory tables.
-- Cluster/Sides and Cluster/Join: `DistributeAndIngest`, `PrepareJoinSignatures` and
-- `ExecuteJoinQuery` of src/lex/distributed/distributed_coordinator.cpp. The nodes' entries are
-- taken to arrive whole, which Cluster/Transport shows of one message.
-- Cluster/Schedule: `GetS3ExpressBucketAZ` and `ScheduleTask` of the same file.
-- Sql/Tokenizer and Sql/Parser: `SqlParser` of src/sql_parser.cpp, from text to the nodes of the JIT
-- library, whose builder is a parameter. The recursive descent has fuel four times the number of
-- the tokens and three, the loop of `Tokenize` one for each character.
-- Ingest/Tail and Ingest/Ingester: `AdaptiveIngester::Ingest` of src/lex/ingest/adaptive_ingester.cpp.
-- The numbers that Arrow gives its types are a parameter.
-- Lsm/Promotion: src/lex/lsm/promotion_daemon.cpp. Reading shows what is read of ingested row groups;
-- Compaction has `TriggerCompaction` in two halves, between which other threads may insert; what
-- Arrow's builders make of the values appended to them is a parameter with its laws (`IsFinish`).
-- Compaction/Alive lists the rows that are not deleted by their places, and Counts shows that as many
-- are counted as read. Access has the counts of column accesses.
-- Lsm/MemTable/Statistics: `MemTable::ExecuteQueryResult`, with `QueryResult` of
-- include/lex/jit/query_planner.hpp. Whether an array has a string type is a parameter.
-- Lsm/Scan/Statistics: `QueryRunner::ExecuteQueryResult` on row groups and on table states, with the
-- merge of the parts' statistics.
-- Query/Planner: `QueryPlanner::Plan` of src/lex/jit/query_planner.cpp, from predicates to
-- micro-operations; the compiler is a parameter there.
-- Some things are left out of these models: a table state always has an active table; the counter
-- of a distributed query and memory are unbounded; and a block without alive rows is not read, where
-- the compaction also transposes its columns.
-- Base: numbers, lists, words of w bits (`% 2 ^ w`), bytes, counted loops and maps.
--
-- Loops are structural recursion on the number of rounds left or on the list that the loop walks,
-- so no fuel is chosen but for the loops over set bits (Query/Runner) and the SQL parser.
--
-- Not modelled: the servers, caches, shared memory and command line, which move bytes between the parts
-- above and the operating system, Arrow, or AWS. A join within 256 nodes and 4096 batches of 4096
-- rows keeps its row numbers apart.
pub mod Base
pub mod Ingest
pub mod Storage
pub mod Query
pub mod Lsm
pub mod Cluster
pub mod Sql
