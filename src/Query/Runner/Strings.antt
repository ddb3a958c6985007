-- ===== src/Query/Runner/Strings.antt =====
-- The string tests of the scan on the tail are those of the in-memory table on the strings.
use green_gate.Base.{
  ℕ, zero, suc, ◌+◌, ◌-◌, ◌*◌, ◌%◌, ◌^◌, ◌≤◌, ◌<◌, ◌≡◌, refl, sym, ap, subst, ◌∙◌, ◌≢◌, inl, inr,
  bit_and, Bool, true, false, ◌&&◌, [], ◌∷◌, arith, ltb, leb, ◌==◌, Bool-cases, length, All,
}
use native.Mathlib.Nat.{pow-suc, add-mul-mod_self_left, mod-eq_of_lt}
use green_gate.Base.Bits.{bit_and_mask}
use green_gate.Base.Bytes.{Bytes, bytes_eq}
use green_gate.Storage.Codec.{from_le}
use green_gate.Query.{PredicateOp, eq, like_prefix, like_contains, gt, lt}
use green_gate.Query.Text.{starts_with, contains}
use green_gate.Query.Tail.{Memory, bytes_at, word_at, string_start, string_len, string_at}
use green_gate.Query.Runner.{head_matches, eq_test, prefix_test, contains_test, row_test}
use green_gate.Lsm.MemTable.{match_string}

from_le-lt : (bs : Bytes) → All (λ b. b < 256) bs → from_le bs < 256 ^ length bs
unfolding from_le
from_le-lt [] h = omega arith
from_le-lt (b ∷ bs) h = omega (arith, h.0, from_le-lt bs h.1, pow-suc 256 (length bs))

pow-bytes : (n : ℕ) → 2 ^ (n * 8) ≡ 256 ^ n
pow-bytes zero = refl
pow-bytes (suc n) =
    let e : suc n * 8 ≡ suc (suc (suc (suc (suc (suc (suc (suc (n * 8)))))))) = omega arith in
    rw (e) (
      omega (
        arith,
        pow-bytes n,
        pow-suc 256 n,
        pow-suc 2 (n * 8),
        pow-suc 2 (suc (n * 8)),
        pow-suc 2 (suc (suc (n * 8))),
        pow-suc 2 (suc (suc (suc (n * 8)))),
        pow-suc 2 (suc (suc (suc (suc (n * 8))))),
        pow-suc 2 (suc (suc (suc (suc (suc (n * 8)))))),
        pow-suc 2 (suc (suc (suc (suc (suc (suc (n * 8))))))),
        pow-suc 2 (suc (suc (suc (suc (suc (suc (suc (n * 8)))))))),
      ))

-- Byte strings of one length stand for the same number only if they are the same.
from_le-eq :
    (xs ys : Bytes)
    → length xs ≡ length ys
    → All (λ b. b < 256) xs
    → All (λ b. b < 256) ys
    → (from_le xs == from_le ys) ≡ bytes_eq xs ys
unfolding from_le bytes_eq
from_le-eq [] [] e hx hy = refl
from_le-eq [] (y ∷ ys) e hx hy = absurd (omega arith)
from_le-eq (x ∷ xs) [] e hx hy = absurd (omega arith)
from_le-eq (x ∷ xs) (y ∷ ys) e hx hy = ground (arith, from_le-eq xs ys (omega arith) hx.1 hy.1)

-- An operation on strings.
abbrev pub on_strings : PredicateOp → Bool
on_strings eq = true
on_strings like_prefix = true
on_strings like_contains = true
on_strings gt = false
on_strings lt = false

module _ (mem : Memory) (bytes : (p : ℕ) → mem p < 256) where
  length-bytes_at : (p n : ℕ) → length (bytes_at mem p n) ≡ n
  unfolding bytes_at
  length-bytes_at p zero = refl
  length-bytes_at p (suc n) = ap suc (length-bytes_at (p + 1) n)

  bytes_at-All : (p n : ℕ) → All (λ b. b < 256) (bytes_at mem p n)
  unfolding bytes_at
  bytes_at-All p zero = tt
  bytes_at-All p (suc n) = (bytes p, bytes_at-All (p + 1) n)

  -- The low bytes of a longer read.
  from_le-bytes_at_split :
      (p n m : ℕ)
      → from_le (bytes_at mem p (n + m))
        ≡ from_le (bytes_at mem p n) + 256 ^ n * from_le (bytes_at mem (p + n) m)
  unfolding bytes_at from_le
  from_le-bytes_at_split p zero m =
      let e : 0 + m ≡ m = omega arith in
      let e' : p + 0 ≡ p = omega arith in rw (e, e') (omega arith)
  from_le-bytes_at_split p (suc n) m =
      let rest = from_le (bytes_at mem (p + 1 + n) m) in
      let e : suc n + m ≡ suc (n + m) = omega arith in
      let e' : p + suc n ≡ p + 1 + n = omega arith in
      let times : 256 ^ suc n * rest ≡ 256 * (256 ^ n * rest) =
        omega (arith, ap (λ (t : ℕ). t * rest) (pow-suc 256 n)) in
      rw (e, e') (omega (arith, from_le-bytes_at_split (p + 1) n m, times))

  word_at-lt : (p : ℕ) → word_at mem p < 2 ^ 64
  unfolding word_at
  word_at-lt p =
      subst (λ (m : ℕ). from_le (bytes_at mem p 8) < 256 ^ m) (length-bytes_at p 8)
        (from_le-lt (bytes_at mem p 8) (bytes_at-All p 8))

  word_at-mod : (p n : ℕ) → n ≤ 8 → word_at mem p % 256 ^ n ≡ from_le (bytes_at mem p n)
  unfolding word_at
  word_at-mod p n h =
      let low = from_le (bytes_at mem p n) in
      let whole : 8 ≡ n + (8 - n) = omega arith in
      let small : low < 256 ^ n =
        subst (λ (m : ℕ). low < 256 ^ m) (length-bytes_at p n)
          (from_le-lt (bytes_at mem p n) (bytes_at-All p n)) in
      ap (λ (m : ℕ). from_le (bytes_at mem p m) % 256 ^ n) whole
      ∙ ap (λ (x : ℕ). x % 256 ^ n) (from_le-bytes_at_split p n (8 - n))
      ∙ add-mul-mod_self_left low (256 ^ n) _
      ∙ mod-eq_of_lt small

  head_matches_lem :
      (p : ℕ) (pat : Bytes)
      → All (λ b. b < 256) pat
      → head_matches mem p pat ≡ bytes_eq (bytes_at mem p (length pat)) pat
  unfolding head_matches
  head_matches_lem p pat h =
      let n = length pat in
      elim (Bool-cases (ltb n 8)) [
        | inl short ↦
            let low : bit_and (word_at mem p) (2 ^ (n * 8) - 1) ≡ from_le (bytes_at mem p n) =
              bit_and_mask 64 (n * 8) (word_at mem p) (word_at-lt p)
              ∙ ap (λ (m : ℕ). word_at mem p % m) (pow-bytes n)
              ∙ word_at-mod p n (ground arith) in
            rw (short, low)
              (from_le-eq (bytes_at mem p n) pat (length-bytes_at p n) (bytes_at-All p n) h)
        | inr long ↦ rw (long)
      ]

  starts_with-bytes_at :
      (pat : Bytes) (p m : ℕ)
      → starts_with pat (bytes_at mem p m)
        ≡ (leb (length pat) m && bytes_eq (bytes_at mem p (length pat)) pat)
  unfolding starts_with bytes_at bytes_eq
  starts_with-bytes_at [] p m = ground arith
  starts_with-bytes_at (c ∷ pat) p zero = ground arith
  starts_with-bytes_at (c ∷ pat) p (suc m) = ground (arith, starts_with-bytes_at pat (p + 1) m)

  contains-bytes_at_short :
      (pat : Bytes) (p m : ℕ) → m < length pat → contains pat (bytes_at mem p m) ≡ false
  unfolding contains bytes_at starts_with
  contains-bytes_at_short [] p m h = elim h [ ]
  contains-bytes_at_short (c ∷ pat) p zero h = refl
  contains-bytes_at_short (c ∷ pat) p (suc m) h =
      ground
        (arith, starts_with-bytes_at pat (p + 1) m, contains-bytes_at_short (c ∷ pat) (p + 1) m)

  bytes_eq-length : (xs ys : Bytes) → length xs ≢ length ys → bytes_eq xs ys ≡ false
  unfolding bytes_eq
  bytes_eq-length [] [] h = absurd (h refl)
  bytes_eq-length [] (y ∷ ys) h = refl
  bytes_eq-length (x ∷ xs) [] h = refl
  bytes_eq-length (x ∷ xs) (y ∷ ys) h = ground (arith, bytes_eq-length xs ys (λ e. h (ap suc e)))

  eq_test_lem :
      (pat : Bytes) (k : ℕ)
      → All (λ b. b < 256) pat
      → eq_test mem pat k ≡ bytes_eq (string_at mem k) pat
  unfolding eq_test string_at
  eq_test_lem pat k h = elim (Bool-cases (string_len mem k == length pat)) [
    | inl same ↦
        let e : string_len mem k ≡ length pat = ground arith in
        rw (same, e) (head_matches_lem (string_start mem k) pat h)
    | inr other ↦
        let apart : length (bytes_at mem (string_start mem k) (string_len mem k)) ≢ length pat =
          λ e. ground (arith, other, e, length-bytes_at (string_start mem k) (string_len mem k)) in
        rw (other) (sym (bytes_eq-length _ pat apart))
  ]

  prefix_test_lem :
      (pat : Bytes) (k : ℕ)
      → All (λ b. b < 256) pat
      → prefix_test mem pat k ≡ starts_with pat (string_at mem k)
  unfolding prefix_test string_at
  prefix_test_lem pat k h = ground (
    arith,
    starts_with-bytes_at pat (string_start mem k) (string_len mem k),
    head_matches_lem (string_start mem k) pat h,
  )

  contains_test_lem :
      (pat : Bytes) (k : ℕ) → contains_test mem pat k ≡ contains pat (string_at mem k)
  unfolding contains_test string_at
  contains_test_lem pat k =
      ground (arith, contains-bytes_at_short pat (string_start mem k) (string_len mem k))

  -- The test of a string in the tail is that of the in-memory table.
  pub row_test_lem :
      (op : PredicateOp) (pat : Bytes) (k : ℕ)
      → All (λ b. b < 256) pat
      → on_strings op ≡ true
      → row_test mem op pat k ≡ match_string (string_at mem k) op pat
  unfolding row_test match_string
  row_test_lem eq pat k h s = eq_test_lem pat k h
  row_test_lem like_prefix pat k h s = prefix_test_lem pat k h
  row_test_lem like_contains pat k h s = contains_test_lem pat k
  row_test_lem gt pat k h s = cc
  row_test_lem lt pat k h s = cc
