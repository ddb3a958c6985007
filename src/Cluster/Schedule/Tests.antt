-- ===== src/Cluster/Schedule/Tests.antt =====
-- A bucket in the zone of the second of two nodes.
use green_gate.Base.{◌<◌, ◌≡◌, refl, List, [], ◌∷◌, arith, length}
use green_gate.Base.Bytes.{Bytes, bytes_eq, codes}
use green_gate.Cluster.Schedule.{
  find_from, bucket_zone, after_last_dash, zone_matches, first_match, schedule_task,
  schedule_task-lt,
}
use green_gate.Query.Text.{starts_with, contains}

abbrev zones : List Bytes
zones = codes "us-east-1-az1" ∷ codes "us-east-1-az4" ∷ []

schedule_task-lt_example : schedule_task zones (codes "base--use1-az4--x-s3") < length zones
schedule_task-lt_example = schedule_task-lt zones (codes "base--use1-az4--x-s3") (omega arith)

schedule_task-az4 : schedule_task zones (codes "base--use1-az4--x-s3") ≡ 1
unfolding schedule_task bucket_zone find_from first_match zone_matches after_last_dash starts_with
    contains bytes_eq
schedule_task-az4 = refl
