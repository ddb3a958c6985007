-- ===== src/Base/SetBits.antt =====
-- The set bits of a word: the lowest, and the loop that visits them.
pub mod Sums
mod Tests
use Prim.Native.Nat.{
  ℕ, zero, suc, ◌+◌, ◌-◌, ◌*◌, ◌/◌, ◌%◌, ◌^◌, ◌≤◌, ◌<◌, min, bit_and, bit_or, bit_and-bitwise,
}
use native.Mathlib.Nat.{pow-suc}
use native.Mathlib.Omega.{arith}
use mathlib.Core.Path.{◌≡◌, refl, sym, ap, ap₂, subst, fun_ext, ◌∙◌}
use mathlib.Core.Logic.{inl, inr}
use mathlib.Core.Bool.{Bool, true, false, ◌&&◌}
use green_gate.Base.Tests.{◌==◌, leb, ltb, if◌then◌else◌, Bool-cases}
use green_gate.Base.Bits.{
  bit, bit-le, bit_and_step, bit-bit_or, bit-mod, bit-pow, bit_and-lt, bit_or-lt, bit-zero,
}

-- `__builtin_ctzll` on a word of `n` bits: the place of the lowest set bit.
unfoldable pub ctz : ℕ → ℕ → ℕ
ctz zero w = 0
ctz (suc n) w = let rest = ctz n (w / 2) in if w % 2 == 1 then 0 else suc rest

-- `while (w > 0) { int i = __builtin_ctzll(w); w &= w - 1; s = body i s; }`, with fuel.
unfoldable pub for_set_bits {ℓ} : {S : Type ℓ} → ℕ → (ℕ → S → S) → ℕ → S → S
for_set_bits zero body w s = s
for_set_bits (suc fuel) body w s = elim (w == 0) [
  | true ↦ s
  | false ↦ for_set_bits fuel body (bit_and w (w - 1)) (body (ctz 64 w) s)
]

-- `body` at the set ones of `n` bits, the lowest being number `i`.
unfoldable pub each_bit {ℓ} : {S : Type ℓ} → ℕ → ℕ → (ℕ → S → S) → ℕ → S → S
each_bit zero i body w s = s
each_bit (suc n) i body w s = each_bit n (i + 1) body (w / 2) (if w % 2 == 1 then body i s else s)

ctz-suc : (n w : ℕ) → 0 < w → w < 2 ^ n → ctz (suc n) w ≡ ctz n w
unfolding ctz
ctz-suc zero w pos h = absurd (omega arith)
ctz-suc (suc n) w pos h = ground (arith, ctz-suc n (w / 2), pow-suc 2 n)

ctz_even : (n v : ℕ) → ctz (suc n) (v * 2) ≡ suc (ctz n v)
unfolding ctz
ctz_even n v =
    let half : v * 2 / 2 ≡ v = omega arith in
    let even : (v * 2 % 2 == 1) ≡ false = ground arith in rw (even, half)

ctz_odd : (n v : ℕ) → ctz (suc n) (v * 2 + 1) ≡ 0
unfolding ctz
ctz_odd n v = let odd : ((v * 2 + 1) % 2 == 1) ≡ true = ground arith in rw (odd)

ctz-double : (v : ℕ) → 0 < v → v < 2 ^ 63 → ctz 64 (v * 2) ≡ suc (ctz 64 v)
ctz-double v pos h = ctz_even 63 v ∙ ap suc (sym (ctz-suc 63 v pos h))

drop_lowest_even : (v : ℕ) → 0 < v → bit_and (v * 2) (v * 2 - 1) ≡ bit_and v (v - 1) * 2
drop_lowest_even v pos =
    let half : v * 2 / 2 ≡ v = omega arith in
    let less : (v * 2 - 1) / 2 ≡ v - 1 = omega arith in
    omega (
      arith,
      bit_and_step (v * 2) (v * 2 - 1),
      ap (λ (x : ℕ). bit_and x ((v * 2 - 1) / 2)) half,
      ap (bit_and v) less,
    )

pow-le : (m n : ℕ) → m ≤ n → 2 ^ m ≤ 2 ^ n
pow-le zero zero h = omega arith
pow-le zero (suc n) h = omega (arith, pow-suc 2 n, pow-le zero n (omega arith))
pow-le (suc m) zero h = elim h [ ]
pow-le (suc m) (suc n) h = omega (arith, pow-suc 2 m, pow-suc 2 n, pow-le m n (omega arith))

bit_and_self : (n v : ℕ) → v < 2 ^ n → bit_and v v ≡ v
bit_and_self zero v h = let e : v ≡ 0 = omega arith in rw e (omega (arith, bit_and-bitwise 0 0))
bit_and_self (suc n) v h = omega (arith, pow-suc 2 n, bit_and_step v v, bit_and_self n (v / 2))

drop_lowest_odd : (n v : ℕ) → v < 2 ^ n → bit_and (v * 2 + 1) (v * 2) ≡ v * 2
drop_lowest_odd n v h =
    let half : (v * 2 + 1) / 2 ≡ v = omega arith in
    let half' : v * 2 / 2 ≡ v = omega arith in
    omega (
      arith,
      bit_and_step (v * 2 + 1) (v * 2),
      ap (λ (x : ℕ). bit_and x (v * 2 / 2)) half,
      ap (bit_and v) half',
      bit_and_self n v h,
    )

module _ {ℓ} {S : Type ℓ} (body : ℕ → S → S) where
  set_bits_none : (fuel : ℕ) (s : S) → for_set_bits fuel body 0 s ≡ s
  unfolding for_set_bits
  set_bits_none zero s = refl
  set_bits_none (suc fuel) s = refl

  no_fuel : (w : ℕ) (s : S) → for_set_bits 0 body w s ≡ s
  unfolding for_set_bits
  no_fuel w s = refl

  set_bits_step :
      (fuel w : ℕ) (s : S)
      → 0 < w
      → for_set_bits (suc fuel) body w s
        ≡ for_set_bits fuel body (bit_and w (w - 1)) (body (ctz 64 w) s)
  unfolding for_set_bits
  set_bits_step fuel w s pos =
      let some_set : (w == 0) ≡ false = ground arith in rw (some_set, for_set_bits)

module _ {ℓ} {S : Type ℓ} (body : ℕ → S → S) where
  abbrev from : ℕ → ℕ → S → S
  from i k = body (i + k)

  double_bits :
      (fuel i v : ℕ) (s : S)
      → v < 2 ^ 63
      → for_set_bits fuel (from i) (v * 2) s ≡ for_set_bits fuel (from (i + 1)) v s
  double_bits zero i v s h = no_fuel (from i) (v * 2) s ∙ sym (no_fuel (from (i + 1)) v s)
  double_bits (suc fuel) i v s h = elim (Bool-cases (v == 0)) [
    | inl none_set ↦
        let e : v ≡ 0 = ground arith in
        rw (e)
          (set_bits_none (from i) (suc fuel) s ∙ sym (set_bits_none (from (i + 1)) (suc fuel) s))
    | inr some_set ↦
        let pos : 0 < v = ground arith in
        let place : i + ctz 64 (v * 2) ≡ i + 1 + ctz 64 v = omega (arith, ctz-double v pos h) in
        set_bits_step (from i) fuel (v * 2) s (omega arith)
        ∙ ap (λ (x : ℕ). for_set_bits fuel (from i) x (body (i + ctz 64 (v * 2)) s))
            (drop_lowest_even v pos)
        ∙ ap (λ (x : ℕ). for_set_bits fuel (from i) (bit_and v (v - 1) * 2) (body x s)) place
        ∙ double_bits fuel i (bit_and v (v - 1)) (body (i + 1 + ctz 64 v) s)
            (bit_and-lt 63 v (v - 1) h)
        ∙ sym (set_bits_step (from (i + 1)) fuel v s pos)
  ]

  -- The loop visits the set bits from the lowest on, when it has fuel for all bits.
  for_set_bits_from :
      (n fuel i w : ℕ) (s : S)
      → w < 2 ^ n
      → n ≤ fuel
      → n ≤ 64
      → for_set_bits fuel (from i) w s ≡ each_bit n i body w s
  unfolding each_bit
  for_set_bits_from zero fuel i w s h enough fits =
      let e : w ≡ 0 = omega arith in rw (e) (set_bits_none (from i) fuel s)
  for_set_bits_from (suc n) zero i w s h enough fits = absurd (omega arith)
  for_set_bits_from (suc n) (suc fuel) i w s h enough fits =
      let v = w / 2 in
      let small : v < 2 ^ n = omega (arith, pow-suc 2 n) in
      let room : v < 2 ^ 63 = omega (arith, small, pow-le n 63 (omega arith)) in
      elim (Bool-cases (w % 2 == 1)) [
        | inl odd ↦
            let e : w ≡ v * 2 + 1 = ground arith in
            let lowest : ctz 64 w ≡ 0 = ap (ctz 64) e ∙ ctz_odd 63 v in
            let left : bit_and w (w - 1) ≡ v * 2 =
              ap (λ (x : ℕ). bit_and x (x - 1)) e
              ∙ ap (bit_and (v * 2 + 1)) (omega arith)
              ∙ drop_lowest_odd 63 v room in
            let here : i + ctz 64 w ≡ i = omega (arith, lowest) in
            rw (odd) (
              set_bits_step (from i) fuel w s (omega arith)
              ∙ ap (λ (x : ℕ). for_set_bits fuel (from i) x (body (i + ctz 64 w) s)) left
              ∙ ap (λ (x : ℕ). for_set_bits fuel (from i) (v * 2) (body x s)) here
              ∙ double_bits fuel i v (body i s) room
              ∙ for_set_bits_from n fuel (i + 1) v (body i s) small (omega arith) (omega arith))
        | inr even ↦
            let e : w ≡ v * 2 = ground arith in
            rw (even) (
              ap (λ (x : ℕ). for_set_bits (suc fuel) (from i) x s) e
              ∙ double_bits (suc fuel) i v s room
              ∙ for_set_bits_from n (suc fuel) (i + 1) v s small (omega arith) (omega arith))
      ]

-- The loop over the set bits of a 64-bit word ends after at most 64 rounds, having visited each set
-- bit once, the lowest first: with fuel for 64 rounds or more.
pub for_set_bits-each_bit {ℓ} :
    {S : Type ℓ} (body : ℕ → S → S) (fuel w : ℕ) (s : S)
    → 64 ≤ fuel
    → w < 2 ^ 64
    → for_set_bits fuel body w s ≡ each_bit 64 0 body w s
for_set_bits-each_bit body fuel w s enough h =
    let same : body ≡ (λ k. body (0 + k)) = fun_ext (λ k. ap body (omega arith)) in
    ap (λ b. for_set_bits fuel b w s) same
    ∙ for_set_bits_from body 64 fuel 0 w s h enough (omega arith)

-- `if (test) mask |= (1ULL << i);`
unfoldable pub mark : (ℕ → Bool) → ℕ → ℕ → ℕ
mark test i mask = if test i then bit_or mask (2 ^ i % 2 ^ 64) else mask

bit-later : (w i j : ℕ) → i < j → bit w (j - i) ≡ bit (w / 2) (j - (i + 1))
bit-later w i j h = let e : j - i ≡ suc (j - (i + 1)) = omega arith in ap (bit w) e

bit-mark :
    (test : ℕ → Bool) (i mask j : ℕ)
    → j < 64
    → bit (mark test i mask) j ≡ (if (i == j) && test j then 1 else bit mask j)
unfolding mark
bit-mark test i mask j h = elim (Bool-cases (i == j)) [
  | inl same ↦
      let e : i ≡ j = ground arith in
      ground (
        arith,
        ap test e,
        bit-bit_or mask (2 ^ i % 2 ^ 64) j,
        bit-mod 64 (2 ^ i) j h,
        bit-pow i j,
        bit-le mask j,
      )
  | inr other ↦ ground (
    arith,
    bit-bit_or mask (2 ^ i % 2 ^ 64) j,
    bit-mod 64 (2 ^ i) j h,
    bit-pow i j,
    bit-le mask j,
  )
]

bit-each_bit :
    (test : ℕ → Bool) (n i w mask j : ℕ)
    → j < 64
    → bit (each_bit n i (mark test) w mask) j
      ≡ (if leb i j && (ltb j (i + n) && (bit w (j - i) == 1 && test j)) then 1 else bit mask j)
unfolding each_bit
bit-each_bit test zero i w mask j h = ground arith
bit-each_bit test (suc n) i w mask j h =
    let mask' = if w % 2 == 1 then mark test i mask else mask in
    let rest = bit-each_bit test n (i + 1) (w / 2) mask' j h in
    let now : bit mask' j ≡ (if (w % 2 == 1) && ((i == j) && test j) then 1 else bit mask j) =
      ground (arith, bit-mark test i mask j h) in
    elim (Bool-cases (ltb i j)) [
      | inl later ↦ ground (arith, rest, now, bit-later w i j, later)
      | inr other ↦ elim (Bool-cases (i == j)) [
        | inl same ↦
            let first : bit w (j - i) ≡ w % 2 = ap (bit w) {x = j - i} {y = 0} (ground arith) in
            ground (arith, rest, now, first, same)
        | inr before ↦ ground (arith, rest, now, other, before)
      ]
    ]

-- The loop that marks the set bits that pass a test leaves exactly these.
pub bit-for_set_bits :
    (test : ℕ → Bool) (w j : ℕ)
    → w < 2 ^ 64
    → j < 64
    → bit (for_set_bits 64 (mark test) w 0) j ≡ (if bit w j == 1 && test j then 1 else 0)
bit-for_set_bits test w j hw h =
    ap (λ (m : ℕ). bit m j) (for_set_bits-each_bit (mark test) 64 w 0 (omega arith) hw)
    ∙ bit-each_bit test 64 0 w 0 j h
    ∙ ground (arith, bit-zero j)

mark-lt : (test : ℕ → Bool) (i mask : ℕ) → mask < 2 ^ 64 → mark test i mask < 2 ^ 64
unfolding mark
mark-lt test i mask h = ground (arith, bit_or-lt 64 mask (2 ^ i % 2 ^ 64))

each_bit-lt :
    (test : ℕ → Bool) (n i w mask : ℕ) → mask < 2 ^ 64 → each_bit n i (mark test) w mask < 2 ^ 64
unfolding each_bit
each_bit-lt test zero i w mask h = h
each_bit-lt test (suc n) i w mask h =
    each_bit-lt test n (i + 1) (w / 2) (if w % 2 == 1 then mark test i mask else mask)
      (ground (arith, mark-lt test i mask))

pub for_set_bits-lt :
    (test : ℕ → Bool) (w : ℕ) → w < 2 ^ 64 → for_set_bits 64 (mark test) w 0 < 2 ^ 64
for_set_bits-lt test w h =
    subst (λ (m : ℕ). m < 2 ^ 64) (sym (for_set_bits-each_bit (mark test) 64 w 0 (omega arith) h))
      (each_bit-lt test 64 0 w 0 (omega arith))
