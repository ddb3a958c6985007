-- ===== src/Lsm/Promotion/Compaction/Trigger.antt =====
-- The whole of `TriggerCompaction`: both halves, and the test whether there is anything to compact.
use green_gate.Base.Bytes.{Bytes}
use green_gate.Base.Assoc.{key_eq}
