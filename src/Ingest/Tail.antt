-- ===== src/Ingest/Tail.antt =====
-- The tail of a block as `AdaptiveIngester::Ingest` of src/lex/ingest/adaptive_ingester.cpp writes
-- it: the number of strings, the offset of each and of the end, and the strings, each with a zero
-- byte. The `memcpy`s fill the buffer from front to back, so it is the list of what they write.
pub mod Reads
pub mod Laws
use green_gate.Base.{ℕ, ◌+◌, ◌-◌, ◌*◌, ◌/◌, List, [], ◌∷◌, ◌++◌, length, replicate}
use green_gate.Base.Bytes.{Bytes}
use green_gate.Storage.Codec.{le_bytes, word_bytes}

-- `offsets`, from `current_offset` on.
unfoldable pub offsets_from : ℕ → List Bytes → List ℕ
offsets_from current_offset [] = current_offset ∷ []
offsets_from current_offset (s ∷ strings) =
    current_offset ∷ offsets_from (current_offset + (length s + 1)) strings

-- The strings, each with its zero byte.
unfoldable pub string_data : List Bytes → Bytes
string_data [] = []
string_data (s ∷ strings) = s ++ 0 ∷ string_data strings

-- The zero bytes up to `(total_tail_size + 63) & ~63`.
unfoldable pub tail_padding : ℕ → Bytes
tail_padding total_tail_size = replicate ((total_tail_size + 63) / 64 * 64 - total_tail_size) 0

-- `tail_payload`, of the strings of a block.
unfoldable pub tail_payload_of : List Bytes → Bytes
unfolding offsets_from string_data tail_padding
tail_payload_of [] = []
tail_payload_of (s ∷ ss) =
    let strings = s ∷ ss in
    let used =
      le_bytes 8 (length strings) ++ (word_bytes (offsets_from 0 strings) ++ string_data strings) in
    used ++ tail_padding (length used)
