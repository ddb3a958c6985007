-- ===== src/Lsm/MemTable/Statistics/Numbers.antt =====
-- The least and the greatest value, the distinct values and the median of a query.
use green_gate.Base.{
  ℕ, ◌+◌, ◌≤◌, ◌≡◌, refl, sym, ap, ◌∙◌, Bool, true, false, ◌||◌, List, [], ◌∷◌, arith, ◌==◌, ==_iff,
  if◌then◌else◌, Bool-cases, inl, inr, length, All,
}
use green_gate.Base.Int.{biased, ltb_signed}
use green_gate.Lsm.MemTable.Statistics.{
  QueryResult, min_of, max_of, occurs, distinct, numeric_statistics,
}

-- `v` is one of the values.
abbrev pub is_in : ℕ → List ℕ → Bool
is_in v values = occurs (λ a b. a == b) v values

-- How often a value occurs.
unfoldable pub occurrences : ℕ → List ℕ → ℕ
occurrences v [] = 0
occurrences v (w ∷ values) = (if w == v then 1 else 0) + occurrences v values

min_of-All :
    (values : List ℕ) (m : ℕ)
    → (biased (min_of values m) ≤ biased m) × All (λ w. biased (min_of values m) ≤ biased w) values
unfolding min_of
min_of-All [] m = (omega arith, tt)
min_of-All (v ∷ values) m =
    let m' = if ltb_signed v m then v else m in
    let (least, later) = min_of-All values m' in
    (ground (arith, least), (ground (arith, least), later))

max_of-All :
    (values : List ℕ) (m : ℕ)
    → (biased m ≤ biased (max_of values m)) × All (λ w. biased w ≤ biased (max_of values m)) values
unfolding max_of
max_of-All [] m = (omega arith, tt)
max_of-All (v ∷ values) m =
    let m' = if ltb_signed m v then v else m in
    let (greatest, later) = max_of-All values m' in
    (ground (arith, greatest), (ground (arith, greatest), later))

min_of-is_in : (values : List ℕ) (m : ℕ) → is_in (min_of values m) (m ∷ values) ≡ true
unfolding min_of occurs
min_of-is_in [] m = ground arith
min_of-is_in (v ∷ values) m = ground (arith, min_of-is_in values m, min_of-is_in values v)

max_of-is_in : (values : List ℕ) (m : ℕ) → is_in (max_of values m) (m ∷ values) ≡ true
unfolding max_of occurs
max_of-is_in [] m = ground arith
max_of-is_in (v ∷ values) m = ground (arith, max_of-is_in values m, max_of-is_in values v)

All-both :
    (values : List ℕ) (low high : ℕ)
    → All (λ w. low ≤ biased w) values
    → All (λ w. biased w ≤ high) values
    → All (λ w. (low ≤ biased w) × (biased w ≤ high)) values
All-both [] low high l h = tt
All-both (v ∷ values) low high (l, ls) (h, hs) = ((l, h), All-both values low high ls hs)

-- The first value is looked at once more.
is_in-again :
    (v : ℕ) (values : List ℕ) (x : ℕ)
    → is_in x (v ∷ (v ∷ values)) ≡ true
    → is_in x (v ∷ values) ≡ true
unfolding occurs
is_in-again v values x h = ground arith

-- The smallest and the greatest value of a query are among its values, and no value is smaller or
-- greater, in the order of `int64_t`: if there is a value.
pub numeric_statistics-bounds :
    (v : ℕ) (values : List ℕ) (res : QueryResult)
    → All
        (λ w.
          (biased (numeric_statistics (v ∷ values) res).min_val ≤ biased w)
          × (biased w ≤ biased (numeric_statistics (v ∷ values) res).max_val))
        (v ∷ values)
      × (is_in (numeric_statistics (v ∷ values) res).min_val (v ∷ values) ≡ true)
      × (is_in (numeric_statistics (v ∷ values) res).max_val (v ∷ values) ≡ true)
unfolding numeric_statistics
numeric_statistics-bounds v values res = (
  All-both (v ∷ values) _ _ (min_of-All (v ∷ values) v).1 (max_of-All (v ∷ values) v).1,
  is_in-again v values _ (min_of-is_in (v ∷ values) v),
  is_in-again v values _ (max_of-is_in (v ∷ values) v),
)

occurrences-distinct :
    (x : ℕ) (seen values : List ℕ)
    → occurrences x (distinct (λ a b. a == b) seen values)
      ≡ (if is_in x seen then 0 else if is_in x values then 1 else 0)
unfolding occurrences distinct occurs
occurrences-distinct x seen [] = ground arith
occurrences-distinct x seen (v ∷ values) = elim (Bool-cases (is_in v seen)) [
  | inl old ↦ rw old (occurrences-distinct x seen values ∙ old_value old)
  | inr new ↦ rw new (
      ap (λ n. (if v == x then 1 else 0) + n) (occurrences-distinct x (v ∷ seen) values)
      ∙ new_value new)
]
  where
    old_value :
        is_in v seen ≡ true
        → ◌≡◌ {A = ℕ}
            (if is_in x seen then 0 else if is_in x values then 1 else 0)
            (if is_in x seen then 0 else if (v == x) || is_in x values then 1 else 0)
    old_value old = elim (Bool-cases (v == x)) [
      | inl same ↦
          let known : is_in x seen ≡ true =
            sym (ap (λ w. is_in w seen) ((==_iff v x).0 same)) ∙ old in
          rw (same, known) refl
      | inr other ↦ rw other refl
    ]

    new_value :
        is_in v seen ≡ false
        → ◌≡◌ {A = ℕ}
            ((if v == x then 1 else 0)
              + (if (v == x) || is_in x seen then 0 else if is_in x values then 1 else 0))
            (if is_in x seen then 0 else if (v == x) || is_in x values then 1 else 0)
    new_value new = elim (Bool-cases (v == x)) [
      | inl same ↦
          let unknown : is_in x seen ≡ false =
            sym (ap (λ w. is_in w seen) ((==_iff v x).0 same)) ∙ new in
          rw (same, unknown) refl
      | inr other ↦ rw other (omega arith)
    ]

-- The distinct values of a query are its values, each once, and their number is counted: if there is
-- a value.
pub numeric_statistics-distinct :
    (v : ℕ) (values : List ℕ) (res : QueryResult)
    → ((x : ℕ)
        → occurrences x (numeric_statistics (v ∷ values) res).distinct_numerics
          ≡ (if is_in x (v ∷ values) then 1 else 0))
      × ((numeric_statistics (v ∷ values) res).distinct_count
          ≡ length (numeric_statistics (v ∷ values) res).distinct_numerics)
unfolding numeric_statistics occurs
numeric_statistics-distinct v values res = ((λ x. occurrences-distinct x [] (v ∷ values)), refl)
