-- ===== src/Lsm/Scan/Laws.antt =====
-- A query on a table counts and sums the rows of all its parts.
use green_gate.Base.{ℕ, ◌+◌, ◌%◌, ◌^◌, Option, none, some, List, [], ◌∷◌}
use green_gate.Query.Tail.{Memory}
use green_gate.Query.Runner.{QueryRunner}
use green_gate.Query.Runner.Spec.{sum_selected}
use green_gate.Lsm.MemTable.{MemTable}
use green_gate.Lsm.MemTable.Spec.{total_count, total_sum}
use green_gate.Lsm.Registry.{Store}
use green_gate.Storage.{BlockData, RowGroup}

-- The rows of the row groups: their number and the sum of their values.
unfoldable pub groups_total :
    QueryRunner → Memory → (ℕ → RowGroup) → List ℕ → (QueryRunner → BlockData → ℕ → ℕ) → ℕ
groups_total runner outside groups [] f = 0
groups_total runner outside groups (p ∷ ps) f =
    sum_selected runner outside (groups p) (f runner) 0 (groups p).blocks
    + groups_total runner outside groups ps f

abbrev pub one_each : QueryRunner → BlockData → ℕ → ℕ
one_each runner block i = 1

-- The rows of the frozen table, if there is one.
unfoldable pub frozen_count : QueryRunner → Store → Option ℕ → ℕ
frozen_count runner s none = 0
frozen_count runner s (some p) = total_count (s.memtables p).batches runner.all_predicates

unfoldable pub frozen_sum : QueryRunner → Store → Option ℕ → ℕ
frozen_sum runner s none = 0
frozen_sum runner s (some p) =
    total_sum (s.memtables p).batches runner.all_predicates runner.agg_col_name

abbrev words : ℕ → ℕ → ℕ × ℕ
words t u = (t % 2 ^ 64, u % 2 ^ 64)
