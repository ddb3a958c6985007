-- ===== src/Storage/Exporter/Chunks.antt =====
-- What stands at an offset of the data, and the reads and writes of one chunk there.
use green_gate.Base.{
  ℕ, zero, suc, ◌+◌, ◌^◌, ◌<◌, ◌≡◌, refl, sym, ap, ◌∙◌, true, List, [], ◌∷◌, ◌++◌, some, arith,
  le→leb, length, length-append, take, drop, All,
}
use Prim.Native.Nat.add
use green_gate.Base.Bytes.{Bytes}
use green_gate.Storage.{CbstTile, BlockData}
use green_gate.Storage.Codec.{take-append, drop-append, tile_bytes}
use green_gate.Storage.Exporter.Read.{Result, ok, add64, fits, read}
use green_gate.Storage.Exporter.Write.{
  column_bytes, write_columns, write_tiles, tail_bytes, write_blocks,
}

-- The data from `offset` on are `xs`.
abbrev pub At : Bytes → ℕ → Bytes → Type 0
At bs offset xs = (drop offset bs ≡ xs) × (offset + length xs ≡ length bs)

drop-nil : (n : ℕ) → ◌≡◌ {A = Bytes} (drop n []) []
drop-nil zero = refl
drop-nil (suc n) = refl

drop-drop : (m n : ℕ) (bs : Bytes) → drop (m + n) bs ≡ drop n (drop m bs)
drop-drop zero n bs = rw (add.zero n)
drop-drop (suc m) n [] = rw (add.suc m n) (sym (drop-nil n))
drop-drop (suc m) n (b ∷ bs) = rw (add.suc m n) (drop-drop m n bs)

-- A chunk of length `n` at the offset.
module _ (bs : Bytes) (small : length bs < 2 ^ 62) (offset n : ℕ) (xs ys : Bytes)
    (len : length xs ≡ n) (at : At bs offset (xs ++ ys)) where
  pub chunk_end : offset + n + length ys ≡ length bs
  chunk_end = omega (arith, length-append xs ys, at.1)

  pub add64-chunk : add64 offset n ≡ offset + n
  add64-chunk = omega (arith, chunk_end)

  pub fits-chunk : fits bs offset n ≡ true
  fits-chunk = le→leb (add64 offset n) (length bs) (omega (arith, chunk_end))

  pub read-chunk : read bs offset n ≡ ok xs
  unfolding read
  read-chunk = rw (le→leb (offset + n) (length bs) (omega (arith, chunk_end))) (
      ap (λ (zs : Bytes). ok (take n zs)) at.0
      ∙ ap (λ (zs : Bytes). ok zs) (take-append n xs ys len))

  pub At-chunk : At bs (add64 offset n) ys
  At-chunk =
      let here = drop-drop offset n bs ∙ ap (drop n) at.0 ∙ drop-append n xs ys len in
      (ap (λ (k : ℕ). drop k bs) add64-chunk ∙ here, omega (arith, chunk_end))

-- The run gives `v` and the offset at which `rest` stands.
abbrev pub Reads {ℓ} : {V : Type ℓ} → Bytes → Result (V × ℕ) → V → Bytes → Type ℓ
Reads bs r v rest = (offset : ℕ) × (r ≡ ok (v, offset)) × At bs offset rest

-- The writers as recursions on the lists.
unfoldable pub columns_bytes : List (Bytes × ℕ) → Bytes
columns_bytes [] = []
columns_bytes ((name, type) ∷ columns) = column_bytes name type ++ columns_bytes columns

unfoldable pub tiles_bytes : List CbstTile → Bytes
tiles_bytes [] = []
tiles_bytes (tile ∷ tiles) = tile_bytes tile ++ tiles_bytes tiles

unfoldable pub blocks_bytes : List BlockData → Bytes
blocks_bytes [] = []
blocks_bytes (block ∷ blocks) =
    tiles_bytes block.columns ++ (tail_bytes block ++ blocks_bytes blocks)

unfoldable pub pairs : List Bytes → List ℕ → List (Bytes × ℕ)
pairs [] types = []
pairs (name ∷ names) [] = []
pairs (name ∷ names) (type ∷ types) = (name, type) ∷ pairs names types

write_columns-suc :
    (n i : ℕ) (name : Bytes) (names : List Bytes) (type : ℕ) (types : List ℕ)
    → write_columns n (suc i) (name ∷ names) (type ∷ types) ≡ write_columns n i names types
unfolding write_columns
write_columns-suc zero i name names type types = refl
write_columns-suc (suc n) i name names type types =
    rw (write_columns-suc n (suc i) name names type types)

pub write_columns_lem :
    (n : ℕ) (names : List Bytes) (types : List ℕ)
    → length names ≡ n
    → length types ≡ n
    → write_columns n 0 names types ≡ some (columns_bytes (pairs names types))
unfolding write_columns columns_bytes pairs
write_columns_lem zero [] types e f = refl
write_columns_lem zero (x ∷ names) types e f = absurd (omega arith)
write_columns_lem (suc n) [] types e f = absurd (omega arith)
write_columns_lem (suc n) (x ∷ names) [] e f = absurd (omega arith)
write_columns_lem (suc n) (x ∷ names) (t ∷ types) e f = rw (
  write_columns-suc n 0 x names t types,
  write_columns_lem n names types (omega arith) (omega arith),
)

write_tiles-suc :
    (n c : ℕ) (tile : CbstTile) (tiles : List CbstTile)
    → write_tiles n (suc c) (tile ∷ tiles) ≡ write_tiles n c tiles
unfolding write_tiles
write_tiles-suc zero c tile tiles = refl
write_tiles-suc (suc n) c tile tiles = rw (write_tiles-suc n (suc c) tile tiles)

write_tiles_lem :
    (n : ℕ) (tiles : List CbstTile)
    → length tiles ≡ n
    → write_tiles n 0 tiles ≡ some (tiles_bytes tiles)
unfolding write_tiles tiles_bytes
write_tiles_lem zero [] e = refl
write_tiles_lem zero (t ∷ tiles) e = absurd (omega arith)
write_tiles_lem (suc n) [] e = absurd (omega arith)
write_tiles_lem (suc n) (t ∷ tiles) e =
    rw (write_tiles-suc n 0 t tiles, write_tiles_lem n tiles (omega arith))

write_blocks-suc :
    (n b k : ℕ) (block : BlockData) (blocks : List BlockData)
    → write_blocks n (suc b) k (block ∷ blocks) ≡ write_blocks n b k blocks
unfolding write_blocks
write_blocks-suc zero b k block blocks = refl
write_blocks-suc (suc n) b k block blocks = rw (write_blocks-suc n (suc b) k block blocks)

pub write_blocks_lem :
    (n k : ℕ) (blocks : List BlockData)
    → length blocks ≡ n
    → All (λ b. length b.columns ≡ k) blocks
    → write_blocks n 0 k blocks ≡ some (blocks_bytes blocks)
unfolding write_blocks blocks_bytes
write_blocks_lem zero k [] e h = refl
write_blocks_lem zero k (b ∷ blocks) e h = absurd (omega arith)
write_blocks_lem (suc n) k [] e h = absurd (omega arith)
write_blocks_lem (suc n) k (b ∷ blocks) e h = rw (
  write_tiles_lem k b.columns h.0,
  write_blocks-suc n 0 k b blocks,
  write_blocks_lem n k blocks (omega arith) h.1,
)
