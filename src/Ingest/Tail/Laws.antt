-- ===== src/Ingest/Tail/Laws.antt =====
-- The strings of a tail are read back from the memory that it stands in.
use green_gate.Base.{
  ℕ, zero, suc, ◌+◌, ◌*◌, ◌^◌, ◌≤◌, ◌<◌, ◌≡◌, refl, sym, ap, ◌∙◌, List, [], ◌∷◌, ◌++◌, append_assoc,
  arith, length, length-append, get_or, take, drop, All,
}
use green_gate.Base.Bytes.{Bytes}
use green_gate.Storage.Codec.{le_bytes, word_bytes, length-le_bytes, length-word_bytes}
use green_gate.Query.Tail.{
  Memory, memory_of, word_at, offset_at, data_start, string_start, string_len, string_at,
}
use green_gate.Ingest.Tail.Reads.{bytes_at-memory_of, word_at-memory_of, word_at-word_bytes}
use green_gate.Ingest.Tail.{offsets_from, string_data, tail_padding, tail_payload_of}

length-offsets_from :
    (c : ℕ) (strings : List Bytes) → length (offsets_from c strings) ≡ suc (length strings)
unfolding offsets_from
length-offsets_from c [] = refl
length-offsets_from c (s ∷ strings) = ap suc (length-offsets_from (c + (length s + 1)) strings)

get_or-offsets_from :
    (c : ℕ) (strings : List Bytes) (k : ℕ)
    → k ≤ length strings
    → get_or (offsets_from c strings) k 0 ≡ c + length (string_data (take k strings))
unfolding offsets_from string_data
get_or-offsets_from c [] zero h = omega arith
get_or-offsets_from c [] (suc k) h = absurd (omega arith)
get_or-offsets_from c (s ∷ strings) zero h = omega arith
get_or-offsets_from c (s ∷ strings) (suc k) h = omega (
  arith,
  get_or-offsets_from (c + (length s + 1)) strings k (omega arith),
  length-append s (0 ∷ string_data (take k strings)),
)

offsets_from-words :
    (c : ℕ) (strings : List Bytes)
    → c + length (string_data strings) < 2 ^ 64
    → All (λ w. w < 2 ^ 64) (offsets_from c strings)
unfolding offsets_from string_data
offsets_from-words c [] h = (omega arith, tt)
offsets_from-words c (s ∷ strings) h =
    let size = length-append s (0 ∷ string_data strings) in
    (omega (arith, size), offsets_from-words (c + (length s + 1)) strings (omega (arith, size)))

-- The data around string `k`.
string_data-split :
    (strings : List Bytes) (k : ℕ)
    → k < length strings
    → string_data strings
      ≡ string_data (take k strings)
        ++ (get_or strings k [] ++ 0 ∷ string_data (drop (suc k) strings))
unfolding string_data
string_data-split [] k h = elim h [ ]
string_data-split (s ∷ strings) zero h = refl
string_data-split (s ∷ strings) (suc k) h =
    ap (λ (bs : Bytes). s ++ 0 ∷ bs) (string_data-split strings k (omega arith))
    ∙ sym (
        append_assoc s (0 ∷ string_data (take k strings))
          (get_or strings k [] ++ 0 ∷ string_data (drop (suc k) strings)))

length-string_data_next :
    (strings : List Bytes) (k : ℕ)
    → k < length strings
    → length (string_data (take (suc k) strings))
      ≡ length (string_data (take k strings)) + (length (get_or strings k []) + 1)
unfolding string_data
length-string_data_next [] k h = elim h [ ]
length-string_data_next (s ∷ strings) zero h = omega (arith, length-append s (0 ∷ []))
length-string_data_next (s ∷ strings) (suc k) h = omega (
  arith,
  length-append s (0 ∷ string_data (take k strings)),
  length-append s (0 ∷ string_data (take (suc k) strings)),
  length-string_data_next strings k (omega arith),
)

-- A tail in memory: the number of strings, the offsets, the data, and what stands behind.
module _ (outside : Memory) (strings : List Bytes) (behind payload : Bytes)
    (layout : payload
      ≡ le_bytes 8 (length strings)
        ++ (word_bytes (offsets_from 0 strings) ++ (string_data strings ++ behind)))
    (small : length strings * 8 + length (string_data strings) < 2 ^ 62) where
  count_at : word_at (memory_of outside payload) 0 ≡ length strings
  count_at =
      word_at-memory_of outside [] (length strings)
        (word_bytes (offsets_from 0 strings) ++ (string_data strings ++ behind)) payload 0 layout
        refl (omega arith)

  data_start_is : data_start (memory_of outside payload) ≡ 8 + (length strings + 1) * 8
  unfolding data_start
  data_start_is = rw count_at (omega arith)

  offset_at_is :
      (k : ℕ)
      → k ≤ length strings
      → offset_at (memory_of outside payload) k ≡ length (string_data (take k strings))
  unfolding offset_at
  offset_at_is k h =
      word_at-word_bytes outside (le_bytes 8 (length strings)) (offsets_from 0 strings)
        (string_data strings ++ behind) payload (8 + k * 8) k layout
        (omega (arith, length-le_bytes 8 (length strings)))
        (omega (arith, length-offsets_from 0 strings)) (offsets_from-words 0 strings (omega arith))
      ∙ get_or-offsets_from 0 strings k h
      ∙ omega arith

  string_len_is :
      (k : ℕ)
      → k < length strings
      → string_len (memory_of outside payload) k ≡ length (get_or strings k [])
  unfolding string_len
  string_len_is k h =
      let next : k + 1 ≡ suc k = omega arith in
      let whole = ap length (string_data-split strings k h) in
      let size =
        length-append (string_data (take k strings))
          (get_or strings k [] ++ 0 ∷ string_data (drop (suc k) strings)) in
      let size' = length-append (get_or strings k []) (0 ∷ string_data (drop (suc k) strings)) in
      omega (
        arith,
        offset_at_is k (omega arith),
        offset_at_is (k + 1) (omega arith),
        ap (λ (n : ℕ). length (string_data (take n strings))) next,
        length-string_data_next strings k h,
        whole,
        size,
        size',
      )

  pub string_at_is :
      (k : ℕ) → k < length strings → string_at (memory_of outside payload) k ≡ get_or strings k []
  unfolding string_at string_start
  string_at_is k h =
      let before = string_data (take k strings) in
      let after = 0 ∷ string_data (drop (suc k) strings) in
      let front = le_bytes 8 (length strings) ++ (word_bytes (offsets_from 0 strings) ++ before) in
      let start : data_start (memory_of outside payload) + offset_at (memory_of outside payload) k
          ≡ length front =
        omega (
          arith,
          data_start_is,
          offset_at_is k (omega arith),
          length-append (le_bytes 8 (length strings))
              (word_bytes (offsets_from 0 strings) ++ before),
          length-append (word_bytes (offsets_from 0 strings)) before,
          length-le_bytes 8 (length strings),
          length-word_bytes (offsets_from 0 strings),
          length-offsets_from 0 strings,
        ) in
      rw (string_len_is k h) (
        bytes_at-memory_of outside front (get_or strings k []) (after ++ behind) payload _
          (layout
            ∙ ap
                (λ (d : Bytes).
                  le_bytes 8 (length strings)
                  ++ (word_bytes (offsets_from 0 strings) ++ (d ++ behind)))
                (string_data-split strings k h)
            ∙ simp append_assoc)
          start)

-- String `k` of the strings of a block is string `k` of the tail that `Ingest` writes for them, read
-- in memory as queries and the compaction do, whatever stands behind the tail: if the strings take
-- less than 2 ^ 62 bytes with the offsets.
pub string_at-tail_payload_of :
    (outside : Memory) (strings : List Bytes) (k : ℕ)
    → k < length strings
    → length strings * 8 + length (string_data strings) < 2 ^ 62
    → string_at (memory_of outside (tail_payload_of strings)) k ≡ get_or strings k []
unfolding tail_payload_of
string_at-tail_payload_of outside [] k h small = elim h [ ]
string_at-tail_payload_of outside (s ∷ ss) k h small =
    string_at_is outside (s ∷ ss)
      (tail_padding (
        length (
          le_bytes 8 (length (s ∷ ss))
          ++ (word_bytes (offsets_from 0 (s ∷ ss)) ++ string_data (s ∷ ss)))))
      (tail_payload_of (s ∷ ss)) (simp append_assoc) small k h
