-- ===== src/Cluster/Sides/Tests.antt =====
-- Seven rows for three nodes.
use green_gate.Base.{◌≡◌, refl, [], ◌∷◌, arith}
use green_gate.Cluster.Sides.{distribute, distribute_from}
use green_gate.Cluster.Sides.Laws.{rows_between, rows_sent, distribute-rows_sent}

distribute-rows_sent_example : rows_sent (distribute 3 7) ≡ rows_between 0 7
distribute-rows_sent_example = distribute-rows_sent 3 7 (omega arith)

distribute-seven : distribute 3 7 ≡ (0, 0, 2) ∷ (1, 2, 2) ∷ (2, 4, 3) ∷ []
unfolding distribute distribute_from
distribute-seven = refl
