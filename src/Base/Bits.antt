-- ===== src/Base/Bits.antt =====
-- Bits of a word, and the bit operations bit by bit.
use Prim.Native.Nat.{
  ℕ, zero, suc, ◌+◌, ◌-◌, ◌*◌, ◌/◌, ◌%◌, ◌^◌, ◌≤◌, ◌<◌, min, max, bit_and, bit_or, bit_xor, digits,
  differ, bitwise, bit_and-bitwise, bit_or-bitwise, bit_xor-bitwise,
}
use Prim.Native.Nat.add
use native.Mathlib.Nat.{pow-suc, one-le-pow, div-div-eq-div-mul, div-add-mod}
use mathlib.Core.Path.{◌≡◌, refl, ap, sym, ◌∙◌}
use native.Mathlib.Omega.{arith}
use green_gate.Base.Tests.{◌==◌, if◌then◌else◌}

-- The library's operations recurse on binary digits; one digit taken off gives an equation that
-- does not name the number of rounds.
module _ (last : ℕ → ℕ) (op : ℕ → ℕ → ℕ) where
  digits-nil : (rounds y : ℕ) → digits last op rounds 0 y ≡ last y
  digits-nil zero y = refl
  digits-nil (suc rounds) y = refl

  digits-same : (i j x y : ℕ) → x ≤ i → x ≤ j → digits last op i x y ≡ digits last op j x y
  digits-same i j zero y hi hj = digits-nil i y ∙ sym (digits-nil j y)
  digits-same zero j (suc x) y hi hj = elim hi [ ]
  digits-same (suc i) zero (suc x) y hi hj = elim hj [ ]
  digits-same (suc i) (suc j) (suc x) y hi hj =
      let higher = digits-same i j (suc x / 2) (y / 2) (omega arith) (omega arith) in
      ap (λ (t : ℕ). t * 2 + op (suc x % 2) (y % 2)) higher

  bitwise_halves :
      (x y : ℕ)
      → bitwise last op (suc x) y ≡ bitwise last op (suc x / 2) (y / 2) * 2 + op (suc x % 2) (y % 2)
  bitwise_halves x y =
      let half = suc x / 2 in
      let shorter = digits-same x half half (y / 2) (omega arith) (omega arith) in
      ap (λ (t : ℕ). t * 2 + op (suc x % 2) (y % 2)) shorter

pub bit_and_step : (x y : ℕ) → bit_and x y ≡ bit_and (x / 2) (y / 2) * 2 + min (x % 2) (y % 2)
bit_and_step zero y = simp bit_and-bitwise (omega arith)
bit_and_step (suc x) y = simp bit_and-bitwise (bitwise_halves (λ t. 0) min x y)

pub bit_or_step : (x y : ℕ) → bit_or x y ≡ bit_or (x / 2) (y / 2) * 2 + max (x % 2) (y % 2)
bit_or_step zero y = simp bit_or-bitwise (omega arith)
bit_or_step (suc x) y = simp bit_or-bitwise (bitwise_halves (λ t. t) max x y)

differ_lem : (a b : ℕ) → a < 2 → b < 2 → differ a b ≡ (a + b) % 2
differ_lem zero b ha hb = omega arith
differ_lem (suc zero) zero ha hb = refl
differ_lem (suc zero) (suc zero) ha hb = refl
differ_lem (suc zero) (suc (suc b)) ha hb = absurd (omega arith)
differ_lem (suc (suc a)) b ha hb = absurd (omega arith)

div_pow-suc : (n w : ℕ) → w / 2 ^ suc n ≡ w / 2 / 2 ^ n
div_pow-suc n w =
    let twice : 2 ^ suc n ≡ 2 * 2 ^ n = omega (arith, pow-suc 2 n) in
    ap (λ (t : ℕ). w / t) twice ∙ sym (div-div-eq-div-mul w 2 (2 ^ n))

pub bit_xor_step : (a b : ℕ) → bit_xor a b ≡ bit_xor (a / 2) (b / 2) * 2 + (a % 2 + b % 2) % 2
bit_xor_step zero b = simp bit_xor-bitwise (omega arith)
bit_xor_step (suc a) b = simp bit_xor-bitwise (
    omega (
      arith,
      bitwise_halves (λ t. t) differ a b,
      differ_lem (suc a % 2) (b % 2) (omega arith) (omega arith),
    ))

-- Bit `k` of a word, as 0 or 1.
abbrev pub bit : ℕ → ℕ → ℕ
bit w zero = w % 2
bit w (suc k) = bit (w / 2) k

pub bit-le : (w k : ℕ) → bit w k ≤ 1
bit-le w zero = omega arith
bit-le w (suc k) = bit-le (w / 2) k

pub bit-bit_and : (a b k : ℕ) → bit (bit_and a b) k ≡ min (bit a k) (bit b k)
bit-bit_and a b zero = omega (arith, bit_and_step a b)
bit-bit_and a b (suc k) =
    let half : bit_and a b / 2 ≡ bit_and (a / 2) (b / 2) = omega (arith, bit_and_step a b) in
    rw half (bit-bit_and (a / 2) (b / 2) k)

pub bit-bit_or : (a b k : ℕ) → bit (bit_or a b) k ≡ max (bit a k) (bit b k)
bit-bit_or a b zero = omega (arith, bit_or_step a b)
bit-bit_or a b (suc k) =
    let half : bit_or a b / 2 ≡ bit_or (a / 2) (b / 2) = omega (arith, bit_or_step a b) in
    rw half (bit-bit_or (a / 2) (b / 2) k)

pub bit-bit_xor : (a b k : ℕ) → bit (bit_xor a b) k ≡ (bit a k + bit b k) % 2
bit-bit_xor a b zero = omega (arith, bit_xor_step a b)
bit-bit_xor a b (suc k) =
    let half : bit_xor a b / 2 ≡ bit_xor (a / 2) (b / 2) = omega (arith, bit_xor_step a b) in
    rw half (bit-bit_xor (a / 2) (b / 2) k)

pub bit-zero : (k : ℕ) → bit 0 k ≡ 0
bit-zero zero = refl
bit-zero (suc k) = bit-zero k

-- A right shift.
pub bit-shr : (s w k : ℕ) → bit (w / 2 ^ s) k ≡ bit w (s + k)
bit-shr zero w k = let whole : w / 2 ^ 0 ≡ w = omega arith in rw (whole, add.zero k)
bit-shr (suc s) w k = rw (div_pow-suc s w, add.suc s k) (bit-shr s (w / 2) k)

-- A left shift.
pub bit-shl_lt : (s w k : ℕ) → k < s → bit (w * 2 ^ s) k ≡ 0
bit-shl_lt zero w k h = elim h [ ]
bit-shl_lt (suc s) w zero h = omega (arith, ap (λ (t : ℕ). w * t) (pow-suc 2 s))
bit-shl_lt (suc s) w (suc k) h =
    let half : w * 2 ^ suc s / 2 ≡ w * 2 ^ s = omega (arith, ap (λ (t : ℕ). w * t) (pow-suc 2 s)) in
    rw half (bit-shl_lt s w k (omega arith))

pub bit-shl : (s w k : ℕ) → bit (w * 2 ^ s) (s + k) ≡ bit w k
bit-shl zero w k = let whole : w * 2 ^ 0 ≡ w = omega arith in rw (whole, add.zero k)
bit-shl (suc s) w k =
    let half : w * 2 ^ suc s / 2 ≡ w * 2 ^ s = omega (arith, ap (λ (t : ℕ). w * t) (pow-suc 2 s)) in
    rw (add.suc s k) (ap (λ (v : ℕ). bit v (s + k)) half ∙ bit-shl s w k)

mod_pow-suc : (n w : ℕ) → w % 2 ^ suc n ≡ w / 2 % 2 ^ n * 2 + w % 2
mod_pow-suc n w = omega (
  arith,
  div-add-mod w (2 ^ suc n),
  div-add-mod (w / 2) (2 ^ n),
  div_pow-suc n w,
  ap (λ (t : ℕ). t * (w / 2 ^ suc n)) (pow-suc 2 n),
  ap (λ (t : ℕ). 2 ^ n * t) (div_pow-suc n w),
)

-- Cutting a word off at `n` bits keeps those below `n`.
pub bit-mod : (n w k : ℕ) → k < n → bit (w % 2 ^ n) k ≡ bit w k
bit-mod zero w k h = elim h [ ]
bit-mod (suc n) w zero h = omega (arith, mod_pow-suc n w)
bit-mod (suc n) w (suc k) h =
    let half : w % 2 ^ suc n / 2 ≡ w / 2 % 2 ^ n = omega (arith, mod_pow-suc n w) in
    rw half (bit-mod n (w / 2) k (omega arith))

pub bit-ge : (n w k : ℕ) → w < 2 ^ n → n ≤ k → bit w k ≡ 0
bit-ge zero w k h p = let none_set : w ≡ 0 = omega arith in rw none_set (bit-zero k)
bit-ge (suc n) w zero h p = absurd (omega arith)
bit-ge (suc n) w (suc k) h p = bit-ge n (w / 2) k (omega (arith, pow-suc 2 n)) (omega arith)

-- Complement in `n` bits.
pub bit-complement : (n w k : ℕ) → w < 2 ^ n → k < n → bit (2 ^ n - 1 - w) k ≡ 1 - bit w k
bit-complement zero w k h p = elim p [ ]
bit-complement (suc n) w zero h p = omega (arith, pow-suc 2 n)
bit-complement (suc n) w (suc k) h p =
    let half : (2 ^ suc n - 1 - w) / 2 ≡ 2 ^ n - 1 - w / 2 = omega (arith, pow-suc 2 n) in
    rw half (bit-complement n (w / 2) k (omega (arith, pow-suc 2 n)) (omega arith))

-- Words with the same bits are equal.
pub bit_ext : (n v w : ℕ) → v < 2 ^ n → w < 2 ^ n → ((k : ℕ) → k < n → bit v k ≡ bit w k) → v ≡ w
bit_ext zero v w hv hw h = omega arith
bit_ext (suc n) v w hv hw h = omega (
  arith,
  h 0 (omega arith),
  bit_ext n (v / 2) (w / 2) (omega (arith, pow-suc 2 n)) (omega (arith, pow-suc 2 n))
      (λ k p. h (suc k) (omega arith)),
)

-- The operations stay within `n` bits.
pub bit_and-lt : (n a b : ℕ) → a < 2 ^ n → bit_and a b < 2 ^ n
bit_and-lt zero a b h = let e : a ≡ 0 = omega arith in rw e (omega (arith, bit_and-bitwise 0 b))
bit_and-lt (suc n) a b h =
    omega (arith, pow-suc 2 n, bit_and_step a b, bit_and-lt n (a / 2) (b / 2))

pub bit_or-lt : (n a b : ℕ) → a < 2 ^ n → b < 2 ^ n → bit_or a b < 2 ^ n
bit_or-lt zero a b h k =
    let e : a ≡ 0 = omega arith in
    let e' : b ≡ 0 = omega arith in rw (e, e') (omega (arith, bit_or-bitwise 0 0))
bit_or-lt (suc n) a b h k = omega (arith, pow-suc 2 n, bit_or_step a b, bit_or-lt n (a / 2) (b / 2))

pub bit_xor-lt : (n a b : ℕ) → a < 2 ^ n → b < 2 ^ n → bit_xor a b < 2 ^ n
bit_xor-lt zero a b h k =
    let e : a ≡ 0 = omega arith in
    let e' : b ≡ 0 = omega arith in rw (e, e') (omega (arith, bit_xor-bitwise 0 0))
bit_xor-lt (suc n) a b h k =
    omega (arith, pow-suc 2 n, bit_xor_step a b, bit_xor-lt n (a / 2) (b / 2))

pub bit-pow : (k j : ℕ) → bit (2 ^ k) j ≡ (if k == j then 1 else 0)
bit-pow zero zero = refl
bit-pow zero (suc j) = ground (arith, bit-zero j)
bit-pow (suc k) zero = ground (arith, pow-suc 2 k)
bit-pow (suc k) (suc j) =
    let half : 2 ^ suc k / 2 ≡ 2 ^ k = omega (arith, pow-suc 2 k) in
    rw half (ground (arith, bit-pow k j))

bit_or-zero_fuel : (n a : ℕ) → a < 2 ^ n → bit_or a 0 ≡ a
bit_or-zero_fuel zero a h = let e : a ≡ 0 = omega arith in rw e (omega (arith, bit_or-bitwise 0 0))
bit_or-zero_fuel (suc n) a h =
    omega (arith, pow-suc 2 n, bit_or_step a 0, bit_or-zero_fuel n (a / 2))

-- `(q << k) | r` is a sum when `r` fits `k` bits and `q` fits `n`.
pub bit_or_fields : (n k q r : ℕ) → q < 2 ^ n → r < 2 ^ k → bit_or (q * 2 ^ k) r ≡ q * 2 ^ k + r
bit_or_fields n zero q r hq fits =
    let e : r ≡ 0 = omega arith in
    let e' : q * 2 ^ 0 ≡ q = omega arith in rw (e, e') (omega (arith, bit_or-zero_fuel n q hq))
bit_or_fields n (suc k) q r hq fits =
    let twice : q * 2 ^ suc k ≡ 2 * (q * 2 ^ k) =
      omega (arith, ap (λ (t : ℕ). q * t) (pow-suc 2 k)) in
    let half : q * 2 ^ suc k / 2 ≡ q * 2 ^ k = omega (arith, twice) in
    let halves : bit_or (q * 2 ^ suc k / 2) (r / 2) ≡ q * 2 ^ k + r / 2 =
      rw half (bit_or_fields n k q (r / 2) hq (omega (arith, pow-suc 2 k))) in
    omega (arith, twice, bit_or_step (q * 2 ^ suc k) r, halves)

bit_and-zero_fuel : (n a : ℕ) → a < 2 ^ n → bit_and a 0 ≡ 0
bit_and-zero_fuel zero a h =
    let e : a ≡ 0 = omega arith in rw e (omega (arith, bit_and-bitwise 0 0))
bit_and-zero_fuel (suc n) a h =
    omega (arith, pow-suc 2 n, bit_and_step a 0, bit_and-zero_fuel n (a / 2))

-- A mask of `k` low bits is the remainder by `2 ^ k`.
pub bit_and_mask : (n k a : ℕ) → a < 2 ^ n → bit_and a (2 ^ k - 1) ≡ a % 2 ^ k
bit_and_mask n zero a h = omega (arith, bit_and-zero_fuel n a h)
bit_and_mask n (suc k) a h =
    let half : (2 ^ suc k - 1) / 2 ≡ 2 ^ k - 1 = omega (arith, pow-suc 2 k) in
    let halves : bit_and (a / 2) ((2 ^ suc k - 1) / 2) ≡ a / 2 % 2 ^ k =
      rw half (bit_and_mask n k (a / 2) (omega arith)) in
    omega
      (arith, pow-suc 2 k, one-le-pow k 2, bit_and_step a (2 ^ suc k - 1), halves, mod_pow-suc k a)
