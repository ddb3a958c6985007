-- ===== src/Ingest/Transposer/Stage.antt =====
-- A pass of disjoint exchanges moves bits by a permutation of the positions (row, column).
use green_gate.Base.{
  ℕ, ◌+◌, ◌-◌, ◌*◌, ◌/◌, ◌%◌, ◌^◌, ◌≤◌, ◌<◌, bit_xor, min, ◌≡◌, ◌≢◌, refl, sym, ap, ◌∙◌, Bool, true,
  false, not, ◌&&◌, ◌||◌, ltb, List, [], ◌∷◌, get_or, set, arith, ◌==◌, if◌then◌else◌, length,
  length-set, get_or-set_self, get_or-set_ne, add_comm, leb, leb→le, ==_iff, ==_self, Bool-cases,
  inl, inr,
}
use green_gate.Base.Bits.{
  bit, bit-le, bit-bit_and, bit-bit_xor, bit-shr, bit-shl, bit-shl_lt, bit-mod,
}
use green_gate.Ingest.Transposer.{butterfly, differing}

-- The bit at row `i` and column `j`.
abbrev pub entry : List ℕ → ℕ → ℕ → ℕ
entry a i j = bit (get_or a i 0) j

-- Whether bit `d` of an index is clear (`d` a power of two).
abbrev pub low : ℕ → ℕ → Bool
low d i = i / d % 2 == 0

-- What a pass at distance `d` with a mask relies on.
pub record IsPass (d mask : ℕ) : Type 0 where
  pub low_high : (i : ℕ) → low d i ≡ true → low d (i + d) ≡ false
  pub high_low : (i : ℕ) → low d i ≡ false → (d ≤ i) × (low d (i - d) ≡ true)
  pub mask_bit : (j : ℕ) → j < 64 → bit mask j ≡ (if low d j then 1 else 0)

-- The upper bits of the low row come from the high row, and the other way round.
bit-differing :
    (d mask x y k : ℕ)
    → bit (differing d mask x y) k ≡ min ((bit x (d + k) + bit y k) % 2) (bit mask k)
unfolding differing
bit-differing d mask x y k =
    rw (bit-bit_and (bit_xor (x / 2 ^ d) y) mask k, bit-bit_xor (x / 2 ^ d) y k, bit-shr d x k)

module _ (d mask i : ℕ) (a : List ℕ) (pos : 0 < d) (hi : i + d < length a) where
  abbrev t : ℕ
  t = differing d mask (get_or a i 0) (get_or a (i + d) 0)

  abbrev a' : List ℕ
  a' = set a (i + d) (bit_xor (get_or a (i + d) 0) t)

  length-a' : length a' ≡ length a
  length-a' = length-set a (i + d) _

  row-other : (r : ℕ) → r ≢ i → r ≢ i + d → get_or (butterfly d mask i a) r 0 ≡ get_or a r 0
  unfolding butterfly
  row-other r p q =
      get_or-set_ne a' i r _ 0 (λ e. p (sym e)) ∙ get_or-set_ne a (i + d) r _ 0 (λ e. q (sym e))

  row-high : get_or (butterfly d mask i a) (i + d) 0 ≡ bit_xor (get_or a (i + d) 0) t
  unfolding butterfly
  row-high = get_or-set_ne a' i (i + d) _ 0 (omega arith) ∙ get_or-set_self a (i + d) _ 0 hi

  row-low : get_or (butterfly d mask i a) i 0 ≡ bit_xor (get_or a i 0) (t * 2 ^ d % 2 ^ 64)
  unfolding butterfly
  row-low =
      get_or-set_self a' i _ 0 (omega (arith, length-a'))
      ∙ ap (λ (x : ℕ). bit_xor x (t * 2 ^ d % 2 ^ 64)) (get_or-set_ne a (i + d) i _ 0 (omega arith))

  length-butterfly : length (butterfly d mask i a) ≡ length a
  unfolding butterfly
  length-butterfly = length-set a' i _ ∙ length-a'

-- Where the bit at row `r` and column `j` stood before a pass at distance `d`.
unfoldable pub source_row : ℕ → ℕ → ℕ → ℕ
source_row d r j =
    if low d r then (if low d j then r else r + d) else (if low d j then r - d else r)

unfoldable pub source_column : ℕ → ℕ → ℕ → ℕ
source_column d r j =
    if low d r then (if low d j then j else j - d) else (if low d j then j + d else j)

-- A left shift in 64 bits.
bit-shifted_ge : (d t j : ℕ) → d ≤ j → j < 64 → bit (t * 2 ^ d % 2 ^ 64) j ≡ bit t (j - d)
bit-shifted_ge d t j h p =
    bit-mod 64 (t * 2 ^ d) j p
    ∙ ap (λ (k : ℕ). bit (t * 2 ^ d) k) (let e : j ≡ d + (j - d) = omega arith in e)
    ∙ bit-shl d t (j - d)

bit-shifted_lt : (d t j : ℕ) → j < d → j < 64 → bit (t * 2 ^ d % 2 ^ 64) j ≡ 0
bit-shifted_lt d t j h p = bit-mod 64 (t * 2 ^ d) j p ∙ bit-shl_lt d t j h

module _ (d mask : ℕ) (pass : IsPass d mask) (x y : ℕ) where
  abbrev u : ℕ
  u = differing d mask x y

  high_row : (j : ℕ) → j < 64 → bit (bit_xor y u) j ≡ (if low d j then bit x (j + d) else bit y j)
  high_row j p = elim (Bool-cases (low d j)) [
    | inl lj ↦ rw lj (
        omega (
          arith,
          bit-bit_xor y u j,
          bit-differing d mask x y j,
          bit-le y j,
          bit-le x (j + d),
          ap (λ (k : ℕ). bit x k) (add_comm d j),
          pass.mask_bit j p ∙ ap (λ (b : Bool). if b then 1 else 0) lj,
        ))
    | inr hj ↦ rw hj (
        omega (
          arith,
          bit-bit_xor y u j,
          bit-differing d mask x y j,
          bit-le y j,
          pass.mask_bit j p ∙ ap (λ (b : Bool). if b then 1 else 0) hj,
        ))
  ]

  mask-above : (j : ℕ) → d ≤ j → j < 64 → bit mask (j - d) ≡ (if low d j then 0 else 1)
  mask-above j h p =
      let back : j - d + d ≡ j = omega arith in
      let up = pass.low_high (j - d) in
      let at_j = ap (λ (k : ℕ). low d k) back in
      ground (arith, pass.mask_bit (j - d), pass.low_high (j - d), pass.high_low j, at_j)

  low_row :
      (j : ℕ)
      → j < 64
      → bit (bit_xor x (u * 2 ^ d % 2 ^ 64)) j ≡ (if low d j then bit x j else bit y (j - d))
  low_row j p = elim (Bool-cases (low d j)) [
    | inl lj ↦ rw lj (elim (Bool-cases (leb d j)) [
      | inl ge ↦
          let h : d ≤ j = leb→le d j ge in
          omega (
            arith,
            bit-bit_xor x (u * 2 ^ d % 2 ^ 64) j,
            bit-shifted_ge d u j h p,
            bit-differing d mask x y (j - d),
            bit-le x j,
            mask-above j h p ∙ ap (λ (b : Bool). if b then 0 else 1) lj,
          )
      | inr less ↦
          let h : j < d = ground arith in
          omega (arith, bit-bit_xor x (u * 2 ^ d % 2 ^ 64) j, bit-shifted_lt d u j h p, bit-le x j)
    ])
    | inr hj ↦
        let h : d ≤ j = (pass.high_low j hj).0 in
        rw hj (
          omega (
            arith,
            bit-bit_xor x (u * 2 ^ d % 2 ^ 64) j,
            bit-shifted_ge d u j h p,
            bit-differing d mask x y (j - d),
            bit-le x j,
            bit-le y (j - d),
            ap (λ (k : ℕ). bit x k) (let e : d + (j - d) ≡ j = omega arith in e),
            mask-above j h p ∙ ap (λ (b : Bool). if b then 0 else 1) hj,
          ))
  ]

module _ (d mask i : ℕ) (a : List ℕ) (pass : IsPass d mask) (pos : 0 < d) (hi : i + d < length a)
    (is_low : low d i ≡ true) where
  entry-high :
      (j : ℕ)
      → j < 64
      → entry (butterfly d mask i a) (i + d) j
        ≡ entry a (source_row d (i + d) j) (source_column d (i + d) j)
  unfolding source_row source_column
  entry-high j p =
      let back : i + d - d ≡ i = omega arith in
      let is_high : low d (i + d) ≡ false = pass.low_high i is_low in
      let row = row-high d mask i a pos hi in
      let moved = high_row d mask pass (get_or a i 0) (get_or a (i + d) 0) j p in
      elim (Bool-cases (low d j)) [
        | inl lj ↦ rw (is_high, lj, back, row) (moved ∙ (rw lj))
        | inr hj ↦ rw (is_high, hj, row) (moved ∙ (rw hj))
      ]

  entry-low :
      (j : ℕ)
      → j < 64
      → entry (butterfly d mask i a) i j ≡ entry a (source_row d i j) (source_column d i j)
  unfolding source_row source_column
  entry-low j p =
      let row = row-low d mask i a pos hi in
      let moved = low_row d mask pass (get_or a i 0) (get_or a (i + d) 0) j p in
      elim (Bool-cases (low d j)) [
        | inl lj ↦ rw (is_low, lj, row) (moved ∙ (rw lj))
        | inr hj ↦ rw (is_low, hj, row) (moved ∙ (rw hj))
      ]

-- A pass over a list of low rows.
abbrev pub run : ℕ → ℕ → List ℕ → List ℕ → List ℕ
run d mask [] a = a
run d mask (i ∷ is) a = run d mask is (butterfly d mask i a)

abbrev pub touched : ℕ → List ℕ → ℕ → Bool
touched d [] r = false
touched d (i ∷ is) r = r == i || (r == i + d || touched d is r)

-- The exchanges of a pass over `n` rows are in range, at low rows, and disjoint.
abbrev pub disjoint : ℕ → ℕ → List ℕ → Bool
disjoint d n [] = true
disjoint d n (i ∷ is) =
    (ltb (i + d) n && low d i)
    && (not (touched d is i) && (not (touched d is (i + d)) && disjoint d n is))

-- What the test `disjoint` says of the first exchange and of the rest.
disjoint-cons :
    (d n i : ℕ) (is : List ℕ)
    → disjoint d n (i ∷ is) ≡ true
    → (i + d < n)
      × (low d i ≡ true)
      × (touched d is i ≡ false)
      × (touched d is (i + d) ≡ false)
      × (disjoint d n is ≡ true)
disjoint-cons d n i is h = ground arith

module _ (d mask : ℕ) (pass : IsPass d mask) (pos : 0 < d) where
  source_row-ne :
      (i r j : ℕ)
      → low d i ≡ true
      → r ≢ i
      → r ≢ i + d
      → (source_row d r j ≢ i) × (source_row d r j ≢ i + d)
  unfolding source_row
  source_row-ne i r j li p q = (
    λ e. ground (arith, e, pass.low_high r, pass.high_low r),
    λ e. ground (arith, e, pass.low_high i, pass.high_low r),
  )

  pub length-run :
      (is : List ℕ) (a : List ℕ)
      → disjoint d (length a) is ≡ true
      → length (run d mask is a) ≡ length a
  length-run [] a h = refl
  length-run (i ∷ is) a h =
      let parts = disjoint-cons d (length a) i is h in
      let same = length-butterfly d mask i a pos parts.0 in
      length-run is (butterfly d mask i a) (rw same parts.4) ∙ same

  pub entry-run :
      (is : List ℕ) (a : List ℕ) (r j : ℕ)
      → disjoint d (length a) is ≡ true
      → j < 64
      → entry (run d mask is a) r j
        ≡ (if touched d is r then entry a (source_row d r j) (source_column d r j) else entry a r j)
  entry-run [] a r j h p = refl
  entry-run (i ∷ is) a r j h p =
      let parts = disjoint-cons d (length a) i is h in
      let b = butterfly d mask i a in
      let same = length-butterfly d mask i a pos parts.0 in
      let ih = entry-run is b r j (rw same parts.4) p in
      elim (Bool-cases (r == i)) [
        | inl at_low ↦
            let e = (==_iff r i).0 at_low in
            ih ∙ rw (e, ==_self i, parts.2) (entry-low d mask i a pass pos parts.0 parts.1 j p)
        | inr not_low ↦ elim (Bool-cases (r == i + d)) [
          | inl at_high ↦
              let e = (==_iff r (i + d)).0 at_high in
              ih
              ∙ rw (not_low, at_high)
                  (rw (e, parts.3) (entry-high d mask i a pass pos parts.0 parts.1 j p))
          | inr not_high ↦
              let p' : r ≢ i = ground arith in
              let q' : r ≢ i + d = ground arith in
              let away = source_row-ne i r j parts.1 p' q' in
              let row = row-other d mask i a pos parts.0 in
              ih
              ∙ rw (not_low, not_high)
                  (elim (Bool-cases (touched d is r)) [
                    | inl t ↦ rw (t, row (source_row d r j) away.0 away.1)
                    | inr t ↦ rw (t, row r p' q')
                  ])
        ]
      ]
