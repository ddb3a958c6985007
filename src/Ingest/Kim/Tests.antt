-- ===== src/Ingest/Kim/Tests.antt =====
-- A pattern of two bytes in a longer string, and a pattern of one byte that the test rejects.
use green_gate.Base.{ℕ, ◌<◌, ◌≡◌, refl, true, false, arith}
use green_gate.Base.Bits.{bit, bit-le}
use green_gate.Base.Bytes.{codes}
use green_gate.Base.Loops.{all_below}
use green_gate.Ingest.Kim.{
  add_hash, add_bigram, add_bigrams, single_signature, generate_kim_signature,
}
use green_gate.Ingest.Kim.Filter.{contains-covers}
use green_gate.Query.Text.{contains, starts_with}
use green_gate.Query.Compiler.Compare.{covers}

-- The planes of a column whose first row has the string "table".
abbrev stored : ℕ → ℕ
stored b = bit (generate_kim_signature (codes "table")) b

stored-bit : (b : ℕ) → b < 64 → bit (stored b) 0 ≡ bit (generate_kim_signature (codes "table")) b
stored-bit b b_lt = omega (arith, bit-le (generate_kim_signature (codes "table")) b)

contained : contains (codes "ab") (codes "table") ≡ true
unfolding contains starts_with
contained = refl

contains-covers_example : covers stored (generate_kim_signature (codes "ab")) 64 0 ≡ true
contains-covers_example =
    contains-covers stored 0 (codes "ab") (codes "table") stored-bit (omega arith) contained

-- A pattern of one byte is rejected, although the string contains it.
contains-a : contains (codes "a") (codes "table") ≡ true
unfolding contains starts_with
contains-a = refl

covers-a : covers stored (generate_kim_signature (codes "a")) 64 0 ≡ false
unfolding covers all_below generate_kim_signature add_bigrams add_bigram add_hash single_signature
covers-a = refl
