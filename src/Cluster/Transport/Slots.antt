-- ===== src/Cluster/Transport/Slots.antt =====
-- The slots of a message that is being put together: how many are filled, and what they hold when
-- all are.
use green_gate.Base.{
  ℕ, zero, suc, ◌+◌, ◌-◌, ◌*◌, ◌≤◌, ◌<◌, min, ◌≡◌, refl, sym, ap, ap₂, ◌∙◌, ◌≢◌, List, [], ◌∷◌,
  ◌++◌, arith, length, take, drop, set, get_or, replicate, concat, length-drop, length-take,
  take-append-drop,
}
use green_gate.Cluster.{ShuffleEntry}
use green_gate.Cluster.Transport.{fragment}

module _ {ℓ} {A : Type ℓ} where
  -- The number of slots that hold something.
  abbrev pub filled : List (List A) → ℕ
  filled [] = 0
  filled ([] ∷ slots) = filled slots
  filled ((x ∷ xs) ∷ slots) = suc (filled slots)

  pub filled-le : (slots : List (List A)) → filled slots ≤ length slots
  filled-le [] = omega arith
  filled-le ([] ∷ slots) = omega (arith, filled-le slots)
  filled-le ((x ∷ xs) ∷ slots) = omega (arith, filled-le slots)

  pub get_or-replicate : (n i : ℕ) → get_or (replicate {A = List A} n []) i [] ≡ []
  get_or-replicate zero i = refl
  get_or-replicate (suc n) zero = refl
  get_or-replicate (suc n) (suc i) = get_or-replicate n i

  -- Filling an empty slot counts one more.
  pub filled-set :
      (slots : List (List A)) (i : ℕ) (v : List A)
      → i < length slots
      → get_or slots i [] ≡ []
      → 0 < length v
      → filled (set slots i v) ≡ suc (filled slots)
  filled-set [] i v h e n = absurd (omega arith)
  filled-set (s ∷ slots) zero [] h e n = absurd (omega arith)
  filled-set ([] ∷ slots) zero (y ∷ v) h e n = refl
  filled-set ((x ∷ xs) ∷ slots) zero (y ∷ v) h e n = absurd (omega (arith, ap length e))
  filled-set ([] ∷ slots) (suc i) v h e n = filled-set slots i v (omega arith) e n
  filled-set ((x ∷ xs) ∷ slots) (suc i) v h e n = ap suc (filled-set slots i v (omega arith) e n)

  -- When all slots are counted, none is empty.
  pub filled-all :
      (slots : List (List A)) (i : ℕ)
      → filled slots ≡ length slots
      → i < length slots
      → get_or slots i [] ≢ []
  filled-all [] i h lt e = absurd (omega arith)
  filled-all ([] ∷ slots) i h lt e = absurd (omega (arith, filled-le slots))
  filled-all ((x ∷ xs) ∷ slots) zero h lt e = absurd (omega (arith, ap length e))
  filled-all ((x ∷ xs) ∷ slots) (suc i) h lt e = filled-all slots i (omega arith) (omega arith) e

  take-min : (n : ℕ) (xs : List A) → take (min n (length xs)) xs ≡ take n xs
  take-min zero xs = ap (λ k. take k xs) {y = 0} (omega arith)
  take-min (suc n) [] = ap (λ k. take k []) {x = min (suc n) 0} {y = 0} (omega arith)
  take-min (suc n) (x ∷ xs) =
      let e : min (suc n) (suc (length xs)) ≡ suc (min n (length xs)) = omega arith in
      ap (λ k. take k (x ∷ xs)) e ∙ ap (◌∷◌ x) (take-min n xs)

  drop-nil : (n : ℕ) → drop {A = A} n [] ≡ []
  drop-nil zero = refl
  drop-nil (suc n) = refl

  drop-drop : (m n : ℕ) (xs : List A) → drop n (drop m xs) ≡ drop (m + n) xs
  drop-drop zero n xs = ap (λ k. drop k xs) {x = n} {y = 0 + n} (omega arith)
  drop-drop (suc m) n [] = drop-nil n ∙ sym (drop-nil (suc m + n))
  drop-drop (suc m) n (x ∷ xs) =
      drop-drop m n xs ∙ ap (λ k. drop k (x ∷ xs)) {x = suc (m + n)} {y = suc m + n} (omega arith)

  drop-all : (n : ℕ) (xs : List A) → length xs ≤ n → drop n xs ≡ []
  drop-all zero [] h = refl
  drop-all zero (x ∷ xs) h = absurd (omega arith)
  drop-all (suc n) [] h = refl
  drop-all (suc n) (x ∷ xs) h = drop-all n xs (omega arith)

pub filled-replicate {ℓ} : (A : Type ℓ) (n : ℕ) → filled (replicate {A = List A} n []) ≡ 0
filled-replicate A zero = refl
filled-replicate A (suc n) = filled-replicate A n

fragment-take :
    (entries : List ShuffleEntry) (p : ℕ) → fragment entries p ≡ take 5 (drop (p * 5) entries)
unfolding fragment
fragment-take entries p =
    let e : min (p * 5 + 5) (length entries) - p * 5 ≡ min 5 (length (drop (p * 5) entries)) =
      omega (arith, length-drop (p * 5) entries) in
    ap (λ n. take n (drop (p * 5) entries)) e ∙ take-min 5 (drop (p * 5) entries)

pub length-fragment :
    (entries : List ShuffleEntry) (p : ℕ)
    → length (fragment entries p) ≡ min 5 (length entries - p * 5)
length-fragment entries p =
    ap length (fragment-take entries p)
    ∙ omega (arith, length-take 5 (drop (p * 5) entries), length-drop (p * 5) entries)

-- Slots that hold the fragments from number `k` on, put together.
pub concat-fragments :
    (entries : List ShuffleEntry) (slots : List (List ShuffleEntry)) (k : ℕ)
    → ((i : ℕ) → i < length slots → get_or slots i [] ≡ fragment entries (k + i))
    → length entries ≤ (k + length slots) * 5
    → concat slots ≡ drop (k * 5) entries
concat-fragments entries [] k h le = sym (drop-all (k * 5) entries (omega arith))
concat-fragments entries (s ∷ slots) k h le =
    let first : s ≡ take 5 (drop (k * 5) entries) =
      h 0 (omega arith) ∙ ap (fragment entries) (omega arith) ∙ fragment-take entries k in
    let shift : (i : ℕ) → suc k + i ≡ k + suc i = (λ i. omega arith) in
    let rest : concat slots ≡ drop 5 (drop (k * 5) entries) =
      concat-fragments entries slots (suc k)
        (λ i lt. h (suc i) (omega arith) ∙ ap (fragment entries) (sym (shift i))) (omega arith)
      ∙ ap (λ n. drop n entries) (omega arith)
      ∙ sym (drop-drop (k * 5) 5 entries) in
    ap₂ ◌++◌ first rest ∙ take-append-drop 5 (drop (k * 5) entries)
