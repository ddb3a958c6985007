-- ===== src/Query/Compiler/Compare.antt =====
-- Comparisons by bit planes, from the highest down, on words: one step of each, row by row.
use native.Mathlib.Nat.{
  pow-suc, one-le-pow, div-div-eq-div-mul, add-mul-div_right, add-mul-mod_self_right, div-eq_of_lt,
  mod-eq_of_lt,
}
use green_gate.Base.{
  ℕ, zero, suc, ◌+◌, ◌-◌, ◌*◌, ◌/◌, ◌%◌, ◌^◌, ◌≤◌, ◌<◌, ◌≡◌, sym, ap, ◌∙◌, inl, inr, bit_and,
  bit_or, Bool, true, false, not, ◌&&◌, ◌||◌, arith, ltb, ◌==◌, if◌then◌else◌, Bool-cases,
}
use green_gate.Base.Bits.{
  bit, bit-zero, bit-le, bit-mod, bit-shr, bit-bit_and, bit-bit_or, bit-complement,
}
use green_gate.Base.Loops.{all_below}

-- The number that row `r` has in the lowest `n` planes.
unfoldable pub low_value : (ℕ → ℕ) → ℕ → ℕ → ℕ
low_value words zero r = 0
low_value words (suc n) r = low_value words n r + bit (words n) r * 2 ^ n

-- The planes at the set bits of the lowest `n` bits of a signature are all set at row `r`.
unfoldable pub covers : (ℕ → ℕ) → ℕ → ℕ → ℕ → Bool
unfolding all_below
covers words imm n r = all_below n (λ b. not (imm / 2 ^ b % 2 == 1) || (bit (words b) r == 1))

pub low_value-lt : (words : ℕ → ℕ) (n r : ℕ) → low_value words n r < 2 ^ n
unfolding low_value
low_value-lt words zero r = omega arith
low_value-lt words (suc n) r =
    let one : bit (words n) r * 2 ^ n ≤ 2 ^ n =
      le_once (bit (words n) r) (2 ^ n) (bit-le (words n) r) in
    omega (arith, low_value-lt words n r, pow-suc 2 n, one)
  where
    le_once : (a m : ℕ) → a ≤ 1 → a * m ≤ m
    le_once zero m h = omega arith
    le_once (suc zero) m h = omega arith
    le_once (suc (suc a)) m h = absurd (omega arith)

bit-digit : (x b : ℕ) → x / 2 ^ b % 2 ≡ bit x b
bit-digit x b = bit-shr b x 0 ∙ ap (bit x) {x = b + 0} {y = b} (omega arith)

pub half_pow : (x b : ℕ) → x / 2 ^ suc b ≡ x / 2 ^ b / 2
half_pow x b =
    ap (λ (m : ℕ). x / m) (omega (arith, pow-suc 2 b)) ∙ sym (div-div-eq-div-mul x (2 ^ b) 2)

-- A digit of the number of a row is the bit of a plane.
bit-low_value : (words : ℕ → ℕ) (n b r : ℕ) → b < n → bit (low_value words n r) b ≡ bit (words b) r
unfolding low_value
bit-low_value words zero b r h = elim h [ ]
bit-low_value words (suc n) b r h =
    let low = low_value words n r in
    let w = bit (words n) r in
    let small = low_value-lt words n r in
    elim (Bool-cases (b == n)) [
      | inl same ↦
          let e : b ≡ n = ground arith in
          let quotient : (low + w * 2 ^ n) / 2 ^ n ≡ w =
            omega
              (arith, add-mul-div_right low w (one-le-pow n 2 (omega arith)), div-eq_of_lt small) in
          ap (bit (low + w * 2 ^ n)) e
          ∙ sym (bit-digit (low + w * 2 ^ n) n)
          ∙ ap (λ (q : ℕ). q % 2) quotient
          ∙ omega (arith, bit-le (words n) r)
          ∙ ap (λ (p : ℕ). bit (words p) r) (sym e)
      | inr other ↦
          let remainder : (low + w * 2 ^ n) % 2 ^ n ≡ low =
            add-mul-mod_self_right low w (2 ^ n) ∙ mod-eq_of_lt small in
          sym (bit-mod n (low + w * 2 ^ n) b (ground arith))
          ∙ ap (λ (q : ℕ). bit q b) remainder
          ∙ bit-low_value words n b r (ground arith)
    ]

pub digit-low_value :
    (words : ℕ → ℕ) (n b r : ℕ) → b < n → low_value words n r / 2 ^ b % 2 ≡ bit (words b) r
digit-low_value words n b r h = bit-digit (low_value words n r) b ∙ bit-low_value words n b r h

pub digit-mod : (imm n b : ℕ) → b < n → imm % 2 ^ n / 2 ^ b % 2 ≡ imm / 2 ^ b % 2
digit-mod imm n b h = bit-digit (imm % 2 ^ n) b ∙ bit-mod n imm b h ∙ sym (bit-digit imm b)

-- One plane more of the comparison of a row's number `v` with a number `i`.
module _ (v i b w c : ℕ) (row : v / 2 ^ b % 2 ≡ w) (digit : i / 2 ^ b % 2 ≡ c) where
  pub same_above : (v / 2 ^ b == i / 2 ^ b) ≡ ((v / 2 ^ suc b == i / 2 ^ suc b) && (w == c))
  same_above = ground (arith, half_pow v b, half_pow i b, row, digit)

  pub less_above :
      ltb (i / 2 ^ b) (v / 2 ^ b)
      ≡ (ltb (i / 2 ^ suc b) (v / 2 ^ suc b) || ((v / 2 ^ suc b == i / 2 ^ suc b) && ltb c w))
  less_above = ground (arith, half_pow v b, half_pow i b, row, digit)

-- The word of a comparison: bit `r` says whether row `r` passes.
abbrev pub IsMask : ℕ → (ℕ → Bool) → Type 0
IsMask e test = (r : ℕ) → r < 64 → bit e r ≡ (if test r then 1 else 0)

pub IsMask-and :
    (e w : ℕ) (test test' : ℕ → Bool)
    → IsMask e test
    → ((r : ℕ) → r < 64 → test' r ≡ (test r && (bit w r == 1)))
    → IsMask (bit_and e w) test'
IsMask-and e w test test' h k r r_lt =
    ground (arith, bit-bit_and e w r, h r r_lt, k r r_lt, bit-le w r)

pub IsMask-bic :
    (e w : ℕ) (test test' : ℕ → Bool)
    → w < 2 ^ 64
    → IsMask e test
    → ((r : ℕ) → r < 64 → test' r ≡ (test r && (bit w r == 0)))
    → IsMask (bit_and e (2 ^ 64 - 1 - w)) test'
IsMask-bic e w test test' hw h k r r_lt = ground (
  arith,
  bit-bit_and e (2 ^ 64 - 1 - w) r,
  bit-complement 64 w r hw r_lt,
  h r r_lt,
  k r r_lt,
  bit-le w r,
)

pub IsMask-or :
    (e w : ℕ) (test test' test'' : ℕ → Bool)
    → IsMask e test
    → IsMask w test'
    → ((r : ℕ) → r < 64 → test'' r ≡ (test r || test' r))
    → IsMask (bit_or e w) test''
IsMask-or e w test test' test'' h h' k r r_lt =
    ground (arith, bit-bit_or e w r, h r r_lt, h' r r_lt, k r r_lt)

pub IsMask-ones : (test : ℕ → Bool) → ((r : ℕ) → r < 64 → test r ≡ true) → IsMask (2 ^ 64 - 1) test
IsMask-ones test h r r_lt =
    ground (arith, bit-complement 64 0 r (omega arith) r_lt, bit-zero r, h r r_lt)

pub IsMask-zero : (test : ℕ → Bool) → ((r : ℕ) → r < 64 → test r ≡ false) → IsMask 0 test
IsMask-zero test h r r_lt = ground (arith, bit-zero r, h r r_lt)
