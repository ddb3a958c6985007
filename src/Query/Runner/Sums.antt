-- ===== src/Query/Runner/Sums.antt =====
-- The sum of a block from its bit planes is the sum of the values that the planes spell.
use green_gate.Base.{
  ℕ, zero, suc, ◌+◌, ◌-◌, ◌*◌, ◌/◌, ◌%◌, ◌^◌, ◌≡◌, refl, sym, ap, ◌∙◌, inl, inr, bit_and, List,
  arith, ◌==◌, Bool-cases, get_or,
}
use green_gate.Base.Bits.{bit, bit-zero}
use green_gate.Base.Loops.{for_steps}
use green_gate.Base.SetBits.Sums.{
  popcount, sum_set, popcount-bit_and, sum_set_add, sum_set_scale, sum_set_ext,
}
use green_gate.Query.Runner.{highest_plane, add_plane, block_sum}

-- The number that row `i` has in the first `n` planes, the lowest bit first.
unfoldable pub plane_value : List ℕ → ℕ → ℕ → ℕ
plane_value planes zero i = 0
plane_value planes (suc n) i = plane_value planes n i + bit (get_or planes n 0) i * 2 ^ n

-- The planes above the highest one that is not empty add nothing.
plane_value-highest :
    (planes : List ℕ) (b i : ℕ)
    → plane_value planes (suc (highest_plane planes b)) i ≡ plane_value planes (suc b) i
unfolding highest_plane plane_value
plane_value-highest planes zero i = refl
plane_value-highest planes (suc b) i = elim (Bool-cases (get_or planes (suc b) 0 == 0)) [
  | inl empty ↦
      let e : get_or planes (suc b) 0 ≡ 0 = ground arith in
      let none_here : bit (get_or planes (suc b) 0) i ≡ 0 =
        ap (λ (w : ℕ). bit w i) e ∙ bit-zero i in
      let lower : plane_value planes (suc (highest_plane planes b)) i
          ≡ plane_value planes b i + bit (get_or planes b 0) i * 2 ^ b =
        plane_value-highest planes b i in
      rw (empty) (lower ∙ omega (arith, ap (λ (w : ℕ). w * 2 ^ suc b) none_here))
  | inr some_set ↦ rw (some_set) refl
]

module _ (mask : ℕ) (planes : List ℕ) where
  -- The sum of the first `n` planes over the rows of the mask.
  abbrev sum_to : ℕ → ℕ
  sum_to n = sum_set 64 0 mask (plane_value planes n)

  sum_to-zero : (n i w : ℕ) → sum_set n i w (plane_value planes 0) ≡ 0
  unfolding sum_set plane_value
  sum_to-zero zero i w = refl
  sum_to-zero (suc n) i w = ground (arith, sum_to-zero n (i + 1) (w / 2))

  sum_to-suc :
      (b : ℕ) → sum_to (suc b) ≡ sum_to b + popcount 64 (bit_and mask (get_or planes b 0)) * 2 ^ b
  unfolding plane_value
  sum_to-suc b =
      let p = get_or planes b 0 in
      sum_set_add 64 0 mask (plane_value planes b) (λ i. bit p i * 2 ^ b)
      ∙ ap (λ (x : ℕ). sum_to b + x)
          (sum_set_scale 64 0 mask (2 ^ b) (bit p)
            ∙ ap (λ (x : ℕ). x * 2 ^ b)
                (sym (
                  popcount-bit_and 64 0 mask p (bit p)
                    (λ k. ap (bit p) {x = 0 + k} {y = k} (omega arith)))))

  add_plane-sum_to : (b : ℕ) → add_plane mask planes b (sum_to b % 2 ^ 64) ≡ sum_to (b + 1) % 2 ^ 64
  unfolding add_plane
  add_plane-sum_to b = omega (arith, sum_to-suc b, ap sum_to {x = b + 1} {y = suc b} (omega arith))

  rest_of_planes :
      (n start : ℕ)
      → for_steps n start 1 (add_plane mask planes) (sum_to start % 2 ^ 64)
        ≡ sum_to (start + n) % 2 ^ 64
  unfolding for_steps
  rest_of_planes zero start = ap (λ (n : ℕ). sum_to n % 2 ^ 64) (omega arith)
  rest_of_planes (suc n) start =
      let next : add_plane mask planes start (sum_to start % 2 ^ 64) ≡ sum_to (start + 1) % 2 ^ 64 =
        add_plane-sum_to start in
      ap (for_steps n (start + 1) 1 (add_plane mask planes)) next
      ∙ rest_of_planes n (start + 1)
      ∙ ap (λ (n : ℕ). sum_to n % 2 ^ 64) (omega arith)

  -- Four planes in a round.
  abbrev four_planes : ℕ → ℕ → ℕ
  four_planes b s =
      add_plane mask planes (b + 3)
        (add_plane mask planes (b + 2) (add_plane mask planes (b + 1) (add_plane mask planes b s)))

  four_planes-sum_to : (b : ℕ) → four_planes b (sum_to b % 2 ^ 64) ≡ sum_to (b + 4) % 2 ^ 64
  four_planes-sum_to b =
      ap
        (λ (s : ℕ).
          add_plane mask planes (b + 3)
            (add_plane mask planes (b + 2) (add_plane mask planes (b + 1) s)))
        (add_plane-sum_to b)
      ∙ ap (λ (s : ℕ). add_plane mask planes (b + 3) (add_plane mask planes (b + 2) s))
          (add_plane-sum_to (b + 1) ∙ ap (λ (n : ℕ). sum_to n % 2 ^ 64) {y = b + 2} (omega arith))
      ∙ ap (add_plane mask planes (b + 3))
          (add_plane-sum_to (b + 2) ∙ ap (λ (n : ℕ). sum_to n % 2 ^ 64) {y = b + 3} (omega arith))
      ∙ add_plane-sum_to (b + 3)
      ∙ ap (λ (n : ℕ). sum_to n % 2 ^ 64) {y = b + 4} (omega arith)

  rounds_of_planes :
      (n start : ℕ)
      → for_steps n start 4 four_planes (sum_to start % 2 ^ 64) ≡ sum_to (start + 4 * n) % 2 ^ 64
  unfolding for_steps
  rounds_of_planes zero start = ap (λ (n : ℕ). sum_to n % 2 ^ 64) (omega arith)
  rounds_of_planes (suc n) start =
      ap (for_steps n (start + 4) 4 four_planes) (four_planes-sum_to start)
      ∙ rounds_of_planes n (start + 4)
      ∙ ap (λ (n : ℕ). sum_to n % 2 ^ 64) (omega arith)

-- The popcounts of the planes, weighted, add up to the sum of the values of the rows in the mask.
pub block_sum_lem :
    (mask : ℕ) (planes : List ℕ) (max_agg_bit : ℕ)
    → block_sum mask planes max_agg_bit
      ≡ sum_set 64 0 mask (plane_value planes (suc max_agg_bit)) % 2 ^ 64
unfolding block_sum
block_sum_lem mask planes max_agg_bit =
    let top = highest_plane planes max_agg_bit in
    let rounds = (top + 1) / 4 in
    let start : 0 ≡ sum_to mask planes 0 % 2 ^ 64 =
      omega (arith, sum_to-zero mask planes 64 0 mask) in
    ap
      (λ (s : ℕ).
        for_steps (top + 1 - 4 * rounds) (4 * rounds) 1 (add_plane mask planes)
          (for_steps rounds 0 4 (four_planes mask planes) s))
      start
    ∙ ap (for_steps (top + 1 - 4 * rounds) (4 * rounds) 1 (add_plane mask planes)) (
        rounds_of_planes mask planes rounds 0
        ∙ ap (λ (n : ℕ). sum_to mask planes n % 2 ^ 64) (omega arith))
    ∙ rest_of_planes mask planes (top + 1 - 4 * rounds) (4 * rounds)
    ∙ ap (λ (n : ℕ). sum_to mask planes n % 2 ^ 64) {y = suc top} (omega arith)
    ∙ ap (λ (x : ℕ). x % 2 ^ 64)
        (sum_set_ext 64 0 mask _ _ (λ i a b. plane_value-highest planes max_agg_bit i))
