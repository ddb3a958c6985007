-- ===== src/Storage/Exporter.antt =====
-- src/lex/storage/exporter.cpp: row groups as byte streams. `Write` is `Serialize`, `Read` is
-- `Deserialize`; the two wrappers that open a file are left out.
pub mod Write
pub mod Read
pub mod Chunks
pub mod Reading
pub mod RoundTrip
pub mod Safety
use green_gate.Base.{ℕ, ◌-◌, ◌%◌, List, [], ◌∷◌}
use green_gate.Base.Bytes.{Bytes}

-- `CBST_MAGIC`.
abbrev pub cbst_magic : Bytes
cbst_magic = b'C' ∷ b'B' ∷ b'S' ∷ b'T' ∷ []

-- The padding to the next multiple of 64 bytes.
unfoldable pub padding : ℕ → ℕ
padding size = (64 - size % 64) % 64
