-- ===== src/Lsm/Promotion/Access.antt =====
-- The counts of column accesses of src/lex/lsm/promotion_daemon.cpp. Each function holds the mutex
-- throughout, so it is one step.
use green_gate.Base.{
  ℕ, ◌+◌, ◌%◌, ◌^◌, ◌<◌, ◌≡◌, refl, ap, ◌∙◌, Bool, true, false, ◌&&◌, Option, none, some, List, [],
  ◌∷◌, arith, ltb, leb, ◌==◌, if◌then◌else◌, Bool-cases, inl, inr, length,
}
use green_gate.Base.Assoc.{key_eq, lookup, insert, lookup-insert}
use green_gate.Base.Bytes.{Bytes, bytes_eq, bytes_eq→eq}

-- `g_column_access_counts`.
abbrev pub Counts : Type 0
Counts = List (Bytes × ℕ)

-- `GetColumnAccessCount`.
unfoldable pub get_column_access_count : Bytes → Counts → ℕ
get_column_access_count col_name counts = elim (lookup col_name counts) [
  | none ↦ 0
  | some count ↦ count
]

-- `RecordColumnAccess`: the counts, and whether the message is logged that the promotion of the
-- column is requested, which is all that happens then.
unfoldable pub record_column_access : Bytes → Counts → Counts × Bool
unfolding get_column_access_count
record_column_access col_name counts =
    let count = (get_column_access_count col_name counts + 1) % 2 ^ 64 in
    (insert col_name count counts, count == 6)

-- `ClearColumnAccessCounts`.
unfoldable pub clear_column_access_counts : Counts → Counts
clear_column_access_counts counts = []

-- Accesses one after the other: the counts, and the columns whose promotion is requested.
unfoldable pub record_all : List Bytes → Counts → Counts × List Bytes
unfolding record_column_access
record_all [] counts = (counts, [])
record_all (col_name ∷ names) counts =
    let (counts', crossed) = record_column_access col_name counts in
    let (final, requested) = record_all names counts' in
    (final, (if crossed then col_name ∷ requested else requested))

-- How often a name occurs.
unfoldable pub times : Bytes → List Bytes → ℕ
times col_name [] = 0
times col_name (name ∷ names) = (if bytes_eq name col_name then 1 else 0) + times col_name names

get_count-record :
    (col_name other : Bytes) (counts : Counts)
    → get_column_access_count other (record_column_access col_name counts).0 ≡ (
        if bytes_eq col_name other
        then (get_column_access_count other counts + 1) % 2 ^ 64
        else get_column_access_count other counts)
unfolding record_column_access
get_count-record col_name other counts =
    let count = (get_column_access_count col_name counts + 1) % 2 ^ 64 in
    ap (λ (o : Option ℕ). elim o [ none ↦ 0 | some n ↦ n ])
      (lookup-insert col_name other count counts)
    ∙ elim (Bool-cases (bytes_eq col_name other)) [
      | inl same ↦ rw same (
          ap (λ (c : Bytes). (get_column_access_count c counts + 1) % 2 ^ 64)
            (bytes_eq→eq col_name other same))
      | inr differ ↦ rw differ refl
    ]

module _ (col_name : Bytes) where
  get_count-from :
      (names : List Bytes) (counts : Counts) (k : ℕ)
      → get_column_access_count col_name counts ≡ k % 2 ^ 64
      → get_column_access_count col_name (record_all names counts).0
        ≡ (k + times col_name names) % 2 ^ 64
  unfolding record_all times
  get_count-from [] counts k e = omega (arith, e)
  get_count-from (name ∷ names) counts k e =
      let counts' = (record_column_access name counts).0 in
      let step = get_count-record name col_name counts in
      elim (Bool-cases (bytes_eq name col_name)) [
        | inl same ↦ rw same (
            get_count-from names counts' (k + 1) (ground (arith, step))
            ∙ ap (λ (n : ℕ). n % 2 ^ 64) {x = k + 1 + times col_name names}
                {y = k + (1 + times col_name names)} (omega arith))
        | inr differ ↦ rw differ (
            get_count-from names counts' k (ground (arith, step))
            ∙ ap (λ (n : ℕ). n % 2 ^ 64) {x = k + times col_name names}
                {y = k + (0 + times col_name names)} (omega arith))
      ]

  -- `GetColumnAccessCount` gives the number of accesses of a column that were recorded since the
  -- counts were cleared, modulo 2 ^ 64.
  pub get_count-record_all :
      (names : List Bytes) (counts : Counts)
      → get_column_access_count col_name (record_all names (clear_column_access_counts counts)).0
        ≡ times col_name names % 2 ^ 64
  unfolding clear_column_access_counts get_column_access_count lookup
  get_count-record_all names counts =
      get_count-from names [] 0 refl
      ∙ ap (λ (n : ℕ). n % 2 ^ 64) {x = 0 + times col_name names} {y = times col_name names}
          (omega arith)

  times-if :
      (crossed : Bool) (name : Bytes) (rest : List Bytes)
      → times col_name (if crossed then name ∷ rest else rest)
        ≡ (if crossed && bytes_eq name col_name then 1 else 0) + times col_name rest
  unfolding times
  times-if true name rest = refl
  times-if false name rest = omega arith

  crossed_same :
      (name : Bytes) (counts : Counts) (k : ℕ)
      → bytes_eq name col_name ≡ true
      → get_column_access_count col_name counts ≡ k
      → (record_column_access name counts).1 ≡ ((k + 1) % 2 ^ 64 == 6)
  unfolding record_column_access
  crossed_same name counts k same e =
      ap (λ (c : Bytes). (get_column_access_count c counts + 1) % 2 ^ 64 == 6)
        (bytes_eq→eq name col_name same)
      ∙ ap (λ (n : ℕ). (n + 1) % 2 ^ 64 == 6) e

  requests-from :
      (names : List Bytes) (counts : Counts) (k : ℕ)
      → get_column_access_count col_name counts ≡ k
      → k + length names < 2 ^ 64
      → times col_name (record_all names counts).1
        ≡ (if ltb k 6 && leb 6 (k + times col_name names) then 1 else 0)
  unfolding record_all times
  requests-from [] counts k e h = ground arith
  requests-from (name ∷ names) counts k e h =
      let counts' = (record_column_access name counts).0 in
      let crossed = (record_column_access name counts).1 in
      let step = get_count-record name col_name counts in
      times-if crossed name (record_all names counts').1
      ∙ elim (Bool-cases (bytes_eq name col_name)) [
        | inl same ↦
            let now = crossed_same name counts k same e in
            let later = requests-from names counts' (k + 1) (ground (arith, step)) (omega arith) in
            rw (same, now, later) (ground arith)
        | inr differ ↦
            let later = requests-from names counts' k (ground (arith, step)) (omega arith) in
            rw (differ, later) (ground arith)
      ]

  -- The message that a column's promotion is requested is logged exactly once, at its sixth access since the counts were
  -- cleared, and never if it is not accessed six times: for fewer than 2 ^ 64 accesses.
  pub times-requests :
      (names : List Bytes) (counts : Counts)
      → length names < 2 ^ 64
      → times col_name (record_all names (clear_column_access_counts counts)).1
        ≡ (if leb 6 (times col_name names) then 1 else 0)
  unfolding clear_column_access_counts get_column_access_count lookup
  times-requests names counts h = requests-from names [] 0 refl (omega arith) ∙ ground arith
