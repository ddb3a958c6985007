-- ===== src/Base/SetBits/Sums.antt =====
-- The set bits of a word counted and summed over.
use Prim.Native.Nat.{ℕ, zero, suc, ◌+◌, ◌*◌, ◌/◌, ◌%◌, ◌≤◌, ◌<◌, min, bit_and}
use native.Mathlib.Omega.{arith}
use mathlib.Core.Path.{◌≡◌, refl, ap, ap₂, ◌∙◌}
use mathlib.Core.Logic.{inl, inr}
use green_gate.Base.Tests.{◌==◌, if◌then◌else◌, Bool-cases}
use green_gate.Base.Bits.{bit, bit_and_step}

-- The sum of `f i` over the set ones of `n` bits, the lowest being number `i`.
unfoldable pub sum_set : ℕ → ℕ → ℕ → (ℕ → ℕ) → ℕ
sum_set zero i w f = 0
sum_set (suc n) i w f = (if w % 2 == 1 then f i else 0) + sum_set n (i + 1) (w / 2) f

-- `__builtin_popcountll` on a word of `n` bits.
unfoldable pub popcount : ℕ → ℕ → ℕ
popcount zero w = 0
popcount (suc n) w = w % 2 + popcount n (w / 2)

-- The set bits that two words share, counted in the one and found in the other.
pub popcount-bit_and :
    (n i m p : ℕ) (f : ℕ → ℕ)
    → ((k : ℕ) → f (i + k) ≡ bit p k)
    → popcount n (bit_and m p) ≡ sum_set n i m f
unfolding popcount sum_set
popcount-bit_and zero i m p f h = refl
popcount-bit_and (suc n) i m p f h =
    let half : bit_and m p / 2 ≡ bit_and (m / 2) (p / 2) = omega (arith, bit_and_step m p) in
    let low : bit_and m p % 2 ≡ min (m % 2) (p % 2) = omega (arith, bit_and_step m p) in
    let here : f i ≡ p % 2 = ap f (omega arith) ∙ h 0 in
    let rest : popcount n (bit_and (m / 2) (p / 2)) ≡ sum_set n (i + 1) (m / 2) f =
      popcount-bit_and n (i + 1) (m / 2) (p / 2) f
        (λ k. ap f {x = i + 1 + k} {y = i + suc k} (omega arith) ∙ h (suc k)) in
    rw (half, rest, low) (ground (arith, here))

pub popcount-sum_set : (n i w : ℕ) → popcount n w ≡ sum_set n i w (λ k. 1)
unfolding popcount sum_set
popcount-sum_set zero i w = refl
popcount-sum_set (suc n) i w = ground (arith, popcount-sum_set n (i + 1) (w / 2))

pub sum_set_add :
    (n i w : ℕ) (f g : ℕ → ℕ) → sum_set n i w (λ k. f k + g k) ≡ sum_set n i w f + sum_set n i w g
unfolding sum_set
sum_set_add zero i w f g = omega arith
sum_set_add (suc n) i w f g = ground (arith, sum_set_add n (i + 1) (w / 2) f g)

pub sum_set_scale : (n i w c : ℕ) (f : ℕ → ℕ) → sum_set n i w (λ k. f k * c) ≡ sum_set n i w f * c
unfolding sum_set
sum_set_scale zero i w c f = omega arith
sum_set_scale (suc n) i w c f = elim (Bool-cases (w % 2 == 1)) [
  | inl set_bit ↦ rw (set_bit) (grind (arith, sum_set_scale n (i + 1) (w / 2) c f))
  | inr clear ↦ rw (clear) (omega (arith, sum_set_scale n (i + 1) (w / 2) c f))
]

pub sum_set_ext :
    (n i w : ℕ) (f g : ℕ → ℕ)
    → ((k : ℕ) → i ≤ k → k < i + n → f k ≡ g k)
    → sum_set n i w f ≡ sum_set n i w g
unfolding sum_set
sum_set_ext zero i w f g h = refl
sum_set_ext (suc n) i w f g h =
    ap₂ ◌+◌ (ap (λ (v : ℕ). if w % 2 == 1 then v else 0) (h i (omega arith) (omega arith)))
      (sum_set_ext n (i + 1) (w / 2) f g (λ k a b. h k (omega arith) (omega arith)))
