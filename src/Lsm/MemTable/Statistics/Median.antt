-- ===== src/Lsm/MemTable/Statistics/Median.antt =====
-- The median of a query, by the number of values below and above it.
use green_gate.Base.{
  ℕ, zero, suc, ◌+◌, ◌-◌, ◌*◌, ◌/◌, ◌%◌, ◌^◌, ◌≤◌, ◌<◌, ◌≡◌, ◌⊎◌, refl, ap, ◌∙◌, List, [], ◌∷◌,
  arith, ltb, leb, ◌==◌, if◌then◌else◌, Bool-cases, inl, inr, length, get_or, All,
}
use green_gate.Base.Int.{biased, ltb_signed}
use green_gate.Lsm.MemTable.Statistics.{
  QueryResult, insert_sorted, sort, half, median, numeric_statistics,
}

-- In the order of `int64_t`.
abbrev pub IsSorted : List ℕ → Type 0
IsSorted [] = Unit
IsSorted (v ∷ values) = All (λ w. biased v ≤ biased w) values × IsSorted values

insert_sorted-All :
    (b v : ℕ) (values : List ℕ)
    → b ≤ biased v
    → All (λ w. b ≤ biased w) values
    → All (λ w. b ≤ biased w) (insert_sorted v values)
unfolding insert_sorted
insert_sorted-All b v [] h all = (h, tt)
insert_sorted-All b v (w ∷ values) h (here, later) = elim (Bool-cases (ltb_signed w v)) [
  | inl before ↦ rw before (here, insert_sorted-All b v values h later)
  | inr behind ↦ rw behind (h, (here, later))
]

All-below :
    (b c : ℕ) (values : List ℕ)
    → b ≤ c
    → All (λ w. c ≤ biased w) values
    → All (λ w. b ≤ biased w) values
All-below b c [] h all = tt
All-below b c (w ∷ values) h (here, later) = (omega arith, All-below b c values h later)

insert_sorted-IsSorted :
    (v : ℕ) (values : List ℕ) → IsSorted values → IsSorted (insert_sorted v values)
unfolding insert_sorted
insert_sorted-IsSorted v [] h = (tt, tt)
insert_sorted-IsSorted v (w ∷ values) (least, later) = elim (Bool-cases (ltb_signed w v)) [
  | inl before ↦ rw before (
    insert_sorted-All (biased w) v values (ground (arith, before)) least,
    insert_sorted-IsSorted v values later,
  )
  | inr behind ↦
      let below : biased v ≤ biased w = ground (arith, behind) in
      rw behind ((below, All-below (biased v) (biased w) values below least), (least, later))
]

sort-IsSorted : (values : List ℕ) → IsSorted (sort values)
unfolding sort
sort-IsSorted [] = tt
sort-IsSorted (v ∷ values) = insert_sorted-IsSorted v (sort values) (sort-IsSorted values)

-- The values below `x`, and those up to it, in the order of `int64_t`.
unfoldable pub below : ℕ → List ℕ → ℕ
below x [] = 0
below x (w ∷ values) = (if ltb (biased w) (biased x) then 1 else 0) + below x values

unfoldable pub up_to : ℕ → List ℕ → ℕ
up_to x [] = 0
up_to x (w ∷ values) = (if leb (biased w) (biased x) then 1 else 0) + up_to x values

-- `x` is at place `k`, from 0 on, when the values are put in order.
abbrev pub HasRank : List ℕ → ℕ → ℕ → Type 0
HasRank values k x = (below x values ≤ k) × (k < up_to x values)

-- `m` is the half of the `int64_t` `w`, rounded to zero: what is left over is less than 2, and away
-- from zero.
abbrev pub IsHalf : ℕ → ℕ → Type 0
IsHalf w m =
    (rest : ℕ) × (rest < 2)
    × (((w < 2 ^ 63) × (w ≡ 2 * m + rest))
        ⊎ ((2 ^ 63 ≤ w) × ((w + rest) % 2 ^ 64 ≡ 2 * m % 2 ^ 64) × ((m ≡ 0) ⊎ (2 ^ 63 < m))))

-- The value in the middle, or half the sum of the two in the middle.
abbrev pub IsMedian : List ℕ → ℕ → Type 0
IsMedian values m =
    ((length values % 2 ≡ 1) × HasRank values (length values / 2) m)
    ⊎ ((length values % 2 ≡ 0)
        × ((low : ℕ) × (high : ℕ) × HasRank values (length values / 2 - 1) low
            × HasRank values (length values / 2) high
            × IsHalf ((low + high) % 2 ^ 64) m))

below-insert_sorted :
    (x v : ℕ) (values : List ℕ) → below x (insert_sorted v values) ≡ below x (v ∷ values)
unfolding below insert_sorted
below-insert_sorted x v [] = refl
below-insert_sorted x v (w ∷ values) = ground (arith, below-insert_sorted x v values)

up_to-insert_sorted :
    (x v : ℕ) (values : List ℕ) → up_to x (insert_sorted v values) ≡ up_to x (v ∷ values)
unfolding up_to insert_sorted
up_to-insert_sorted x v [] = refl
up_to-insert_sorted x v (w ∷ values) = ground (arith, up_to-insert_sorted x v values)

below-sort : (x : ℕ) (values : List ℕ) → below x (sort values) ≡ below x values
unfolding below sort
below-sort x [] = refl
below-sort x (v ∷ values) =
    below-insert_sorted x v (sort values) ∙ ground (arith, below-sort x values)

up_to-sort : (x : ℕ) (values : List ℕ) → up_to x (sort values) ≡ up_to x values
unfolding up_to sort
up_to-sort x [] = refl
up_to-sort x (v ∷ values) =
    up_to-insert_sorted x v (sort values) ∙ ground (arith, up_to-sort x values)

length-insert_sorted :
    (v : ℕ) (values : List ℕ) → length (insert_sorted v values) ≡ suc (length values)
unfolding insert_sorted
length-insert_sorted v [] = refl
length-insert_sorted v (w ∷ values) = ground (arith, length-insert_sorted v values)

length-sort : (values : List ℕ) → length (sort values) ≡ length values
unfolding sort
length-sort [] = refl
length-sort (v ∷ values) = length-insert_sorted v (sort values) ∙ ap suc (length-sort values)

below-none : (x : ℕ) (values : List ℕ) → All (λ w. biased x ≤ biased w) values → below x values ≡ 0
unfolding below
below-none x [] h = refl
below-none x (w ∷ values) (here, later) = ground (arith, below-none x values later)

All-get_or :
    (b : ℕ) (values : List ℕ) (k : ℕ)
    → k < length values
    → All (λ w. b ≤ biased w) values
    → b ≤ biased (get_or values k 0)
All-get_or b [] k inside h = absurd (omega arith)
All-get_or b (w ∷ values) zero inside h = h.0
All-get_or b (w ∷ values) (suc k) inside h = All-get_or b values k (omega arith) h.1

sorted-HasRank :
    (values : List ℕ) (k : ℕ)
    → k < length values
    → IsSorted values
    → HasRank values k (get_or values k 0)
unfolding below up_to
sorted-HasRank [] k inside h = absurd (omega arith)
sorted-HasRank (v ∷ values) zero inside (least, later) =
    (ground (arith, below-none v values least), ground arith)
sorted-HasRank (v ∷ values) (suc k) inside (least, later) =
    let rest : k < length values = omega arith in
    let (lower, upper) = sorted-HasRank values k rest later in
    (ground (arith, lower), ground (arith, upper, All-get_or (biased v) values k rest least))

sort-HasRank :
    (values : List ℕ) (k : ℕ) → k < length values → HasRank values k (get_or (sort values) k 0)
sort-HasRank values k inside =
    let x = get_or (sort values) k 0 in
    let (lower, upper) =
      sorted-HasRank (sort values) k (omega (arith, length-sort values)) (sort-IsSorted values) in
    (omega (arith, lower, below-sort x values), omega (arith, upper, up_to-sort x values))

half-IsHalf : (w : ℕ) → w < 2 ^ 64 → IsHalf w (half w)
unfolding half
half-IsHalf w h = elim (Bool-cases (ltb w (2 ^ 63))) [
  | inl positive ↦ rw positive (w % 2, omega arith, inl (ground arith, omega arith))
  | inr negative ↦
      let large : 2 ^ 63 ≤ w = ground arith in
      rw negative (w % 2, omega arith, inr (large, omega arith, sign large))
]
  where
    sign :
        2 ^ 63 ≤ w
        → ((2 ^ 64 - (2 ^ 64 - w) / 2) % 2 ^ 64 ≡ 0)
          ⊎ (2 ^ 63 < (2 ^ 64 - (2 ^ 64 - w) / 2) % 2 ^ 64)
    sign large = elim (Bool-cases (w == 2 ^ 64 - 1)) [
      | inl last ↦ inl (ground arith)
      | inr other ↦ inr (ground arith)
    ]

median-IsMedian : (values : List ℕ) → 0 < length values → IsMedian values (median (sort values))
unfolding median
median-IsMedian values some_values =
    let size = length values in
    let low = get_or (sort values) (size / 2 - 1) 0 in
    let high = get_or (sort values) (size / 2) 0 in
    elim (Bool-cases (size % 2 == 1)) [
      | inl odd ↦
          rw (length-sort values, odd)
            (inl (ground arith, sort-HasRank values (size / 2) (omega arith)))
      | inr even ↦
          rw (length-sort values, even)
            (inr (
              ground arith,
              (
                low,
                high,
                sort-HasRank values (size / 2 - 1) (omega arith),
                sort-HasRank values (size / 2) (omega arith),
                half-IsHalf ((low + high) % 2 ^ 64) (omega arith),
              ),
            ))
    ]

-- The median of a query is the value in the middle of its values in the order of `int64_t`, or for an
-- even number half the sum of the two in the middle, rounded to zero, the sum wrapping around: if
-- there is a value.
pub numeric_statistics-IsMedian :
    (v : ℕ) (values : List ℕ) (res : QueryResult)
    → IsMedian (v ∷ values) (numeric_statistics (v ∷ values) res).median_val
unfolding numeric_statistics
numeric_statistics-IsMedian v values res = median-IsMedian (v ∷ values) (omega arith)
