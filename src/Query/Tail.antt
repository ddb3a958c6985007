-- ===== src/Query/Tail.antt =====
-- The tail of a block as src/lex/jit/query_planner.cpp and src/lex/lsm/promotion_daemon.cpp read it:
-- the number of strings, the offset of each and of the end, and the strings, each with a zero byte.
-- Memory is read through pointers into the payload: a function from an offset to the byte there.
-- What stands behind the payload is any byte.
use green_gate.Base.{
  ℕ, zero, suc, ◌+◌, ◌-◌, ◌*◌, ◌%◌, ◌^◌, [], ◌∷◌, ltb, if◌then◌else◌, length, get_or,
}
use green_gate.Base.Bytes.{Bytes}
use green_gate.Storage.Codec.{from_le}

abbrev pub Memory : Type 0
Memory = ℕ → ℕ

-- The memory from the start of a payload on, with `outside` behind it.
unfoldable pub memory_of : Memory → Bytes → Memory
memory_of outside payload p = if ltb p (length payload) then get_or payload p 0 else outside p

-- `n` bytes from an offset on.
unfoldable pub bytes_at : Memory → ℕ → ℕ → Bytes
bytes_at mem p zero = []
bytes_at mem p (suc n) = mem p ∷ bytes_at mem (p + 1) n

-- A `uint64_t` at an offset.
unfoldable pub word_at : Memory → ℕ → ℕ
unfolding bytes_at from_le
word_at mem p = from_le (bytes_at mem p 8)

-- `offsets[k]`.
unfoldable pub offset_at : Memory → ℕ → ℕ
offset_at mem k = word_at mem (8 + k * 8)

-- The offset of `data_start`.
unfoldable pub data_start : Memory → ℕ
data_start mem = 8 + (word_at mem 0 + 1) % 2 ^ 64 * 8 % 2 ^ 64

-- Where string `k` starts, and `end_off - start_off - 1`.
unfoldable pub string_start : Memory → ℕ → ℕ
string_start mem k = data_start mem + offset_at mem k

unfoldable pub string_len : Memory → ℕ → ℕ
string_len mem k = (offset_at mem (k + 1) + 2 * 2 ^ 64 - offset_at mem k - 1) % 2 ^ 64

-- String `k`.
unfoldable pub string_at : Memory → ℕ → Bytes
string_at mem k = bytes_at mem (string_start mem k) (string_len mem k)
