-- ===== src/Base/Loops.antt =====
-- Counted loops, and checks of every number below a bound.
use Prim.Native.Nat.{ℕ, zero, suc, ◌+◌, ◌<◌}
use mathlib.Core.Path.{◌≡◌, refl, ap, ap₂}
use mathlib.Core.Logic.{inl, inr}
use mathlib.Core.Bool.{Bool, true, ◌&&◌, ◌||◌}
use mathlib.Core.List.{List, [], ◌∷◌}
use green_gate.Base.Tests.{◌==◌, ltb, ltb→lt, Bool-cases}
use green_gate.Base.Lists.{All}
use native.Mathlib.Omega.{arith}

-- `for (i = start; n rounds; i += step) s = body i s`.
unfoldable pub for_steps {ℓ} : {S : Type ℓ} → ℕ → ℕ → ℕ → (ℕ → S → S) → S → S
for_steps zero start step body s = s
for_steps (suc n) start step body s = for_steps n (start + step) step body (body start s)

-- The test `accepts` at every number below a bound.
unfoldable pub all_below : ℕ → (ℕ → Bool) → Bool
all_below zero accepts = true
all_below (suc bound) accepts = all_below bound accepts && accepts bound

pub all_below_sound :
    (bound : ℕ) (accepts : ℕ → Bool) (i : ℕ)
    → all_below bound accepts ≡ true
    → i < bound
    → accepts i ≡ true
unfolding all_below
all_below_sound zero accepts i all i_lt = elim i_lt [ ]
all_below_sound (suc bound) accepts i all i_lt = ground (arith, all_below_sound bound accepts i)

-- What every round keeps, the loop keeps.
pub for_steps_inv {ℓ κ} :
    {S : Type ℓ} (P : S → Type κ) (body : ℕ → S → S)
    → ((i : ℕ) (s : S) → P s → P (body i s))
    → (n start step : ℕ) (s : S) → P s
    → P (for_steps n start step body s)
unfolding for_steps
for_steps_inv P body keep zero start step s h = h
for_steps_inv P body keep (suc n) start step s h =
    for_steps_inv P body keep n (start + step) step (body start s) (keep start s h)

-- The test that every entry is below a bound.
abbrev pub all_lt : ℕ → List ℕ → Bool
all_lt n [] = true
all_lt n (x ∷ xs) = ltb x n && all_lt n xs

pub all_lt-All : (n : ℕ) (xs : List ℕ) → all_lt n xs ≡ true → All (λ x. x < n) xs
all_lt-All n [] h = tt
all_lt-All n (x ∷ xs) h = (ltb→lt x n (ground (arith, h)), all_lt-All n xs (ground (arith, h)))

pub all_below-true :
    (bound : ℕ) (accepts : ℕ → Bool)
    → ((i : ℕ) → i < bound → accepts i ≡ true)
    → all_below bound accepts ≡ true
unfolding all_below
all_below-true zero accepts h = refl
all_below-true (suc bound) accepts h =
    ground
      (arith, all_below-true bound accepts (λ i i_lt. h i (omega arith)), h bound (omega arith))

pub all_below_ext :
    (bound : ℕ) (accepts accepts' : ℕ → Bool)
    → ((i : ℕ) → i < bound → accepts i ≡ accepts' i)
    → all_below bound accepts ≡ all_below bound accepts'
unfolding all_below
all_below_ext zero accepts accepts' h = refl
all_below_ext (suc bound) accepts accepts' h =
    ap₂ ◌&&◌ (all_below_ext bound accepts accepts' (λ i i_lt. h i (omega arith)))
      (h bound (omega arith))

-- The test of the numbers from `k` on, one number at a time from above.
pub all_below-from :
    (bound k : ℕ) (accepts : ℕ → Bool)
    → k < bound
    → all_below bound (λ i. ltb i k || accepts i)
      ≡ (all_below bound (λ i. ltb i (suc k) || accepts i) && accepts k)
unfolding all_below
all_below-from zero k accepts h = elim h [ ]
all_below-from (suc bound) k accepts h = elim (Bool-cases (k == bound)) [
  | inl same ↦
      let e : k ≡ bound = ground arith in
      let lower = all_below-true bound (λ i. ltb i k || accepts i) (λ i i_lt. ground arith) in
      let lower' =
        all_below-true bound (λ i. ltb i (suc k) || accepts i) (λ i i_lt. ground arith) in
      ground (arith, lower, lower', ap accepts e)
  | inr other ↦ ground (arith, all_below-from bound k accepts)
]
