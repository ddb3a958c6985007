-- ===== src/Ingest/Kim/Filter.antt =====
-- The KIM test lets every row pass whose string contains the pattern, for patterns of two bytes or
-- more.
use green_gate.Base.{
  ℕ, ◌+◌, ◌*◌, ◌/◌, ◌%◌, ◌^◌, ◌≤◌, ◌<◌, ◌≡◌, refl, sym, ap, ◌∙◌, Bool, true, false, not, ◌||◌, [],
  ◌∷◌, ◌++◌, arith, ◌==◌, if◌then◌else◌, Bool-cases, inl, inr, length, length-append,
}
use green_gate.Base.Bits.{bit, bit-le, bit-zero, bit-bit_or, bit-pow, bit-shr}
use green_gate.Base.Bytes.{Bytes}
use green_gate.Base.Loops.{all_below-true}
use green_gate.Ingest.Kim.{add_hash, add_bigram, add_bigrams, generate_kim_signature}
use green_gate.Query.Text.{contains, contains→append}
use green_gate.Query.Compiler.Compare.{covers}

-- The bits that a pair of bytes sets, and those that the pairs of a string set.
unfoldable sets_bit : ℕ → ℕ → Bool
sets_bit bigram j =
    (bigram * 3266489917 + 67890) % 2 ^ 32 % 64 == j
    || (bigram * 2246822519 + 12345) % 2 ^ 32 % 64 == j
    || bigram * 2654435761 % 2 ^ 32 % 64 == j

unfoldable any_sets : Bytes → ℕ → Bool
any_sets [] j = false
any_sets (a ∷ []) j = false
any_sets (a ∷ b ∷ str) j = sets_bit (a * 256 + b) j || any_sets (b ∷ str) j

bit-add_hash :
    (h signature j : ℕ)
    → bit (add_hash h signature) j ≡ (if h % 64 == j || bit signature j == 1 then 1 else 0)
unfolding add_hash
bit-add_hash h signature j =
    ground (arith, bit-bit_or signature (2 ^ (h % 64)) j, bit-pow (h % 64) j, bit-le signature j)

bit-add_bigram :
    (bigram signature j : ℕ)
    → bit (add_bigram bigram signature) j
      ≡ (if sets_bit bigram j || bit signature j == 1 then 1 else 0)
unfolding add_bigram sets_bit
bit-add_bigram bigram signature j =
    let h1 = bigram * 2654435761 % 2 ^ 32 in
    let h2 = (bigram * 2246822519 + 12345) % 2 ^ 32 in
    let h3 = (bigram * 3266489917 + 67890) % 2 ^ 32 in
    three (h3 % 64 == j) (h2 % 64 == j) (h1 % 64 == j) (bit signature j)
      (bit (add_hash h1 signature) j) (bit (add_hash h2 (add_hash h1 signature)) j)
      (bit (add_hash h3 (add_hash h2 (add_hash h1 signature))) j) (bit-add_hash h1 signature j)
      (bit-add_hash h2 (add_hash h1 signature) j)
      (bit-add_hash h3 (add_hash h2 (add_hash h1 signature)) j)
  where
    three :
        (p q r : Bool) (w x y z : ℕ)
        → x ≡ (if r || w == 1 then 1 else 0)
        → y ≡ (if q || x == 1 then 1 else 0)
        → z ≡ (if p || y == 1 then 1 else 0)
        → z ≡ (if p || q || r || w == 1 then 1 else 0)
    three p q r w x y z ex ey ez = ground (arith, ex, ey, ez)

bit-add_bigrams :
    (str : Bytes) (signature j : ℕ)
    → bit (add_bigrams str signature) j ≡ (if any_sets str j || bit signature j == 1 then 1 else 0)
unfolding add_bigrams any_sets
bit-add_bigrams [] signature j = ground (arith, bit-le signature j)
bit-add_bigrams (a ∷ []) signature j = ground (arith, bit-le signature j)
bit-add_bigrams (a ∷ b ∷ str) signature j = ground (
  arith,
  bit-add_bigrams (b ∷ str) (add_bigram (a * 256 + b) signature) j,
  bit-add_bigram (a * 256 + b) signature j,
)

-- A longer string sets no fewer bits.
any_sets-append :
    (str back : Bytes) (j : ℕ) → any_sets str j ≡ true → any_sets (str ++ back) j ≡ true
unfolding any_sets
any_sets-append [] back j h = absurd (ground (arith, h))
any_sets-append (a ∷ []) back j h = absurd (ground (arith, h))
any_sets-append (a ∷ b ∷ str) back j h = ground (arith, h, any_sets-append (b ∷ str) back j)

any_sets-cons : (c : ℕ) (str : Bytes) (j : ℕ) → any_sets str j ≡ true → any_sets (c ∷ str) j ≡ true
unfolding any_sets
any_sets-cons c [] j h = absurd (ground (arith, h))
any_sets-cons c (a ∷ str) j h = ground (arith, h)

any_sets-behind :
    (front str : Bytes) (j : ℕ) → any_sets str j ≡ true → any_sets (front ++ str) j ≡ true
any_sets-behind [] str j h = h
any_sets-behind (c ∷ front) str j h =
    any_sets-cons c (front ++ str) j (any_sets-behind front str j h)

-- The bits of a signature of two bytes or more.
bit-generate_kim_signature :
    (str : Bytes) (j : ℕ)
    → 2 ≤ length str
    → bit (generate_kim_signature str) j ≡ (if any_sets str j then 1 else 0)
unfolding generate_kim_signature
bit-generate_kim_signature [] j h = absurd (omega arith)
bit-generate_kim_signature (a ∷ []) j h = absurd (omega arith)
bit-generate_kim_signature (a ∷ b ∷ str) j h =
    ground (arith, bit-add_bigrams (a ∷ b ∷ str) 0 j, bit-zero j)

-- A string that contains a pattern of two bytes or more has every bit of the pattern's signature.
contains-bit :
    (pat val : Bytes) (j : ℕ)
    → 2 ≤ length pat
    → contains pat val ≡ true
    → bit (generate_kim_signature pat) j ≡ 1
    → bit (generate_kim_signature val) j ≡ 1
contains-bit pat val j long h set_bit =
    let (front, back, e) = contains→append pat val h in
    let found : any_sets pat j ≡ true =
      ground (arith, bit-generate_kim_signature pat j long, set_bit) in
    let there : any_sets val j ≡ true =
      ap (λ s. any_sets s j) e
      ∙ any_sets-behind front (pat ++ back) j (any_sets-append pat back j found) in
    let size : 2 ≤ length val =
      omega (arith, ap length e, length-append front (pat ++ back), length-append pat back) in
    ground (arith, bit-generate_kim_signature val j size, there)

-- The KIM test on the planes of the signature column passes row `r` if the row's string contains
-- the pattern, for a pattern of two bytes or more: no match is lost before its string is checked.
pub contains-covers :
    (words : ℕ → ℕ) (r : ℕ) (pat val : Bytes)
    → ((b : ℕ) → b < 64 → bit (words b) r ≡ bit (generate_kim_signature val) b)
    → 2 ≤ length pat
    → contains pat val ≡ true
    → covers words (generate_kim_signature pat) 64 r ≡ true
unfolding covers
contains-covers words r pat val stored long h =
    all_below-true 64
      (λ b. not (generate_kim_signature pat / 2 ^ b % 2 == 1) || (bit (words b) r == 1))
      (λ b b_lt. passes (generate_kim_signature pat / 2 ^ b % 2) (bit (words b) r) (λ one.
        stored b b_lt
        ∙ contains-bit pat val b long h (sym (digit (generate_kim_signature pat) b) ∙ one)))
  where
    passes : (d w : ℕ) → (d ≡ 1 → w ≡ 1) → (not (d == 1) || (w == 1)) ≡ true
    passes d w f = elim (Bool-cases (d == 1)) [
      | inl one ↦ ground (arith, f (ground arith))
      | inr other ↦ rw (other) refl
    ]

    digit : (x b : ℕ) → x / 2 ^ b % 2 ≡ bit x b
    digit x b = bit-shr b x 0 ∙ ap (bit x) {x = b + 0} {y = b} (omega arith)
