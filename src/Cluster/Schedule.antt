-- ===== src/Cluster/Schedule.antt =====
-- `ScheduleTask` of src/lex/distributed/distributed_coordinator.cpp: the node in the availability
-- zone of a bucket.
mod Tests
use green_gate.Base.{
  ℕ, zero, suc, ◌+◌, ◌-◌, ◌<◌, ◌≡◌, refl, ◌∙◌, sym, Bool, true, false, ◌||◌, Option, none, some,
  List, [], ◌∷◌, arith, if◌then◌else◌, Bool-cases, inl, inr, length, drop, take,
}
use green_gate.Base.Bytes.{Bytes, bytes_eq, codes}
use green_gate.Query.Text.{starts_with, contains}

-- `str.find(pat, from)`, from position `i` with the rest of the string; `none` is `npos`.
unfoldable pub find_from : Bytes → ℕ → Bytes → Option ℕ
unfolding starts_with
find_from pat i [] = if starts_with pat [] then some i else none
find_from pat i (c ∷ str) =
    let rest = find_from pat (i + 1) str in if starts_with pat (c ∷ str) then some i else rest

-- `GetS3ExpressBucketAZ`.
unfoldable pub bucket_zone : Bytes → Bytes
unfolding find_from
bucket_zone name = elim (find_from (codes "--") 0 name) [
  | none ↦ []
  | some start ↦ elim (find_from (codes "--x-s3") (start + 2) (drop (start + 2) name)) [
    | none ↦ []
    | some end ↦ take (end - (start + 2)) (drop (start + 2) name)
  ]
]

-- `az.substr(az.find_last_of('-') + 1)`, or all of it when there is no `-`.
unfoldable pub after_last_dash : Bytes → Bytes
after_last_dash [] = []
after_last_dash (c ∷ str) =
    let rest = after_last_dash str in if contains (codes "-") (c ∷ str) then rest else c ∷ str

-- The test of a node's zone against the bucket's.
unfoldable pub zone_matches : Bytes → Bytes → Bool
unfolding after_last_dash
zone_matches node_az bucket_az =
    bytes_eq (after_last_dash node_az) (after_last_dash bucket_az)
    || contains bucket_az node_az
    || contains node_az bucket_az

-- The loop over the nodes' zones, from node `n`; node 0 is the fallback.
unfoldable pub first_match : Bytes → ℕ → List Bytes → ℕ
unfolding zone_matches
first_match bucket_az n [] = 0
first_match bucket_az n (node_az ∷ zones) =
    let rest = first_match bucket_az (n + 1) zones in
    if zone_matches node_az bucket_az then n else rest

unfoldable pub schedule_task : List Bytes → Bytes → ℕ
unfolding bucket_zone first_match
schedule_task zones name =
    let bucket_az = bucket_zone name in
    if bytes_eq bucket_az [] then 0 else first_match bucket_az 0 zones

first_match-lt :
    (bucket_az : Bytes) (n : ℕ) (zones : List Bytes)
    → 0 < n + length zones
    → first_match bucket_az n zones < n + length zones
unfolding first_match
first_match-lt bucket_az n [] h = h
first_match-lt bucket_az n (node_az ∷ zones) h =
    let later = first_match-lt bucket_az (n + 1) zones (omega arith) in
    elim (Bool-cases (zone_matches node_az bucket_az)) [
      | inl here ↦ rw (here) (omega arith)
      | inr other ↦ rw (other) (omega (arith, later))
    ]

-- A task is given to one of the nodes, whatever the bucket's name, when there is at least one node.
pub schedule_task-lt :
    (zones : List Bytes) (name : Bytes) → 0 < length zones → schedule_task zones name < length zones
unfolding schedule_task
schedule_task-lt zones name h =
    let found = first_match-lt (bucket_zone name) 0 zones (omega arith) in
    elim (Bool-cases (bytes_eq (bucket_zone name) [])) [
      | inl nameless ↦ rw (nameless) h
      | inr named ↦ rw (named) (omega (arith, found))
    ]
