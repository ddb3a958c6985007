-- ===== src/Ingest/Kim.antt =====
-- `GenerateKimSignature` of src/lex/ingest/adaptive_ingester.cpp: a Bloom filter over the pairs of
-- neighbouring bytes of a string, in 64 bits.
pub mod Filter
mod Tests
use green_gate.Base.{ℕ, ◌+◌, ◌*◌, ◌%◌, ◌^◌, bit_or, [], ◌∷◌}
use green_gate.Base.Bytes.{Bytes}

-- `signature |= (1ULL << (h % 64))`
unfoldable pub add_hash : ℕ → ℕ → ℕ
add_hash h signature = bit_or signature (2 ^ (h % 64))

-- The body of the loop, for one pair of bytes.
unfoldable pub add_bigram : ℕ → ℕ → ℕ
unfolding add_hash
add_bigram bigram signature = add_hash ((bigram * 3266489917 + 67890) % 2 ^ 32) (
    add_hash ((bigram * 2246822519 + 12345) % 2 ^ 32)
      (add_hash (bigram * 2654435761 % 2 ^ 32) signature))

-- The loop over the pairs.
unfoldable pub add_bigrams : Bytes → ℕ → ℕ
unfolding add_bigram
add_bigrams [] signature = signature
add_bigrams (a ∷ []) signature = signature
add_bigrams (a ∷ b ∷ str) signature = add_bigrams (b ∷ str) (add_bigram (a * 256 + b) signature)

-- The signature of a single byte.
unfoldable pub single_signature : ℕ → ℕ
unfolding add_hash
single_signature ch = add_hash (ch * 127 + 13) (add_hash (ch * 31 + 5) (add_hash (ch * 17) 0))

-- `GenerateKimSignature`.
unfoldable pub generate_kim_signature : Bytes → ℕ
unfolding add_bigrams single_signature
generate_kim_signature [] = 0
generate_kim_signature (ch ∷ []) = single_signature ch
generate_kim_signature (a ∷ b ∷ str) = add_bigrams (a ∷ b ∷ str) 0
