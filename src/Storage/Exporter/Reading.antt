-- ===== src/Storage/Exporter/Reading.antt =====
-- Each part that `Serialize` writes is read back from the offset where it stands.
use green_gate.Base.{
  ℕ, suc, ◌+◌, ◌%◌, ◌^◌, ◌<◌, ◌≡◌, refl, subst, sym, ap, ◌∙◌, false, List, [], ◌∷◌, ◌++◌,
  append_assoc, arith, lt→ltb, ◌==◌, length, length-append, length-replicate, take, replicate, All,
}
use green_gate.Base.Bytes.{Bytes}
use green_gate.Storage.{CbstTile, BlockData}
use green_gate.Storage.Codec.{
  le_bytes, from_le, length-le_bytes, from_le-le_bytes, IsTile, tile_bytes, length-tile_bytes,
  tile_of-tile_bytes, tile_size,
}
use green_gate.Storage.Exporter.{padding}
use green_gate.Storage.Exporter.Read.{
  add64, read_column, read_columns, read_tiles, read_payload, read_tail,
}
use green_gate.Storage.Exporter.Write.{column_bytes, tail_bytes}
use green_gate.Storage.Exporter.Chunks.{
  At, chunk_end, fits-chunk, read-chunk, At-chunk, Reads, columns_bytes, tiles_bytes,
}

take-whole : (bs : Bytes) → take (length bs) bs ≡ bs
take-whole [] = refl
take-whole (b ∷ bs) = ap (λ (zs : Bytes). b ∷ zs) (take-whole bs)

module _ (bs : Bytes) (small : length bs < 2 ^ 62) where
  pub At-eq : (offset : ℕ) {xs ys : Bytes} → xs ≡ ys → At bs offset xs → At bs offset ys
  At-eq offset e at = subst (At bs offset) e at

  pub read_column-Reads :
      (offset : ℕ) (name : Bytes) (type : ℕ) (rest : Bytes)
      → length name < 2 ^ 32
      → type < 2 ^ 32
      → At bs offset (column_bytes name type ++ rest)
      → Reads bs (read_column bs offset) (name, type) rest
  unfolding read_column column_bytes
  read_column-Reads offset name type rest short fits_type at =
      let t = le_bytes 4 type in
      let l = le_bytes 4 (length name % 2 ^ 32) in
      let whole : length name % 2 ^ 32 ≡ length name = omega arith in
      let all_of_it : take (length name % 2 ^ 32) name ≡ name = rw whole (take-whole name) in
      let regroup : column_bytes name type ++ rest ≡ t ++ (l ++ (name ++ rest)) =
        rw all_of_it
          (append_assoc t (l ++ name) rest ∙ ap (λ zs. t ++ zs) (append_assoc l name rest)) in
      let at₀ : At bs offset (t ++ (l ++ (name ++ rest))) = At-eq offset regroup at in
      let lt = length-le_bytes 4 type in
      let ll = length-le_bytes 4 (length name % 2 ^ 32) in
      let at₁ : At bs (add64 offset 4) (l ++ (name ++ rest)) =
        At-chunk bs small offset 4 t _ lt at₀ in
      let both : At bs offset ((t ++ l) ++ (name ++ rest)) =
        At-eq offset (sym (append_assoc t l _)) at₀ in
      let lb : length (t ++ l) ≡ 8 = omega (arith, length-append t l, lt, ll) in
      let at₂ : At bs (add64 offset 8) (name ++ rest) =
        At-chunk bs small offset 8 (t ++ l) _ lb both in
      let size : from_le l ≡ length name = from_le-le_bytes 4 _ (omega arith) ∙ whole in
      let kind : from_le t ≡ type = from_le-le_bytes 4 type fits_type in
      (
        add64 (add64 offset 8) (length name),
        rw (
          fits-chunk bs small offset 8 (t ++ l) _ lb both,
          read-chunk bs small offset 4 t _ lt at₀,
          read-chunk bs small (add64 offset 4) 4 l _ ll at₁,
          size,
          fits-chunk bs small (add64 offset 8) (length name) name rest refl at₂,
          read-chunk bs small (add64 offset 8) (length name) name rest refl at₂,
          kind,
        ),
        At-chunk bs small (add64 offset 8) (length name) name rest refl at₂,
      )

  pub read_columns-Reads :
      (columns : List (Bytes × ℕ)) (offset : ℕ) (rest : Bytes)
      → All (λ c. (length c.0 < 2 ^ 32) × (c.1 < 2 ^ 32)) columns
      → At bs offset (columns_bytes columns ++ rest)
      → Reads bs (read_columns (length columns) bs offset) columns rest
  unfolding read_columns columns_bytes
  read_columns-Reads [] offset rest h at = (offset, refl, at)
  read_columns-Reads ((name, type) ∷ columns) offset rest h at =
      let at₀ =
        At-eq offset (append_assoc (column_bytes name type) (columns_bytes columns) rest) at in
      let first =
        read_column-Reads offset name type (columns_bytes columns ++ rest) h.0.0 h.0.1 at₀ in
      let others = read_columns-Reads columns first.0 rest h.1 first.2 in
      (others.0, rw (first.1, others.1), others.2)

  pub read_tiles-Reads :
      (tiles : List CbstTile) (offset : ℕ) (rest : Bytes)
      → All IsTile tiles
      → At bs offset (tiles_bytes tiles ++ rest)
      → Reads bs (read_tiles (length tiles) bs offset) tiles rest
  unfolding read_tiles tiles_bytes
  read_tiles-Reads [] offset rest h at = (offset, refl, at)
  read_tiles-Reads (tile ∷ tiles) offset rest h at =
      let at₀ = At-eq offset (append_assoc (tile_bytes tile) (tiles_bytes tiles) rest) at in
      let len = length-tile_bytes tile h.0 in
      let at₁ = At-chunk bs small offset tile_size (tile_bytes tile) _ len at₀ in
      let others = read_tiles-Reads tiles (add64 offset tile_size) rest h.1 at₁ in
      (
        others.0,
        rw (
          fits-chunk bs small offset tile_size (tile_bytes tile) _ len at₀,
          read-chunk bs small offset tile_size (tile_bytes tile) _ len at₀,
          others.1,
          tile_of-tile_bytes tile h.0,
        ),
        others.2,
      )

  read_payload-Reads :
      (payload : Bytes) (offset : ℕ) (rest : Bytes)
      → At bs offset (payload ++ rest)
      → Reads bs (read_payload bs offset (length payload)) payload rest
  unfolding read_payload
  read_payload-Reads [] offset rest at = (offset, refl, at)
  read_payload-Reads (b ∷ payload) offset rest at =
      let n = suc (length payload) in
      let len : length (b ∷ payload) ≡ n = refl in
      let short : n < 2 ^ 63 =
        omega (arith, chunk_end bs small offset n (b ∷ payload) rest len at) in
      let more : (n == 0) ≡ false = ground arith in
      (
        add64 offset n,
        rw (
          more,
          fits-chunk bs small offset n (b ∷ payload) rest len at,
          lt→ltb n (2 ^ 63) short,
          read-chunk bs small offset n (b ∷ payload) rest len at,
        ),
        At-chunk bs small offset n (b ∷ payload) rest len at,
      )

  pub read_tail-Reads :
      (block : BlockData) (offset : ℕ) (rest : Bytes)
      → block.delete_mask < 2 ^ 64
      → At bs offset (tail_bytes block ++ rest)
      → Reads bs (read_tail bs offset) (block.delete_mask, block.tail_payload) rest
  unfolding read_tail tail_bytes
  read_tail-Reads block offset rest word at =
      let n = length block.tail_payload in
      let m = le_bytes 8 block.delete_mask in
      let s = le_bytes 8 n in
      let p = block.tail_payload in
      let z : Bytes = replicate (padding ((8 + 8 + n) % 2 ^ 64)) 0 in
      let regroup : tail_bytes block ++ rest ≡ m ++ (s ++ (p ++ (z ++ rest))) = simp append_assoc in
      let at₀ : At bs offset (m ++ (s ++ (p ++ (z ++ rest)))) = At-eq offset regroup at in
      let lm = length-le_bytes 8 block.delete_mask in
      let ls = length-le_bytes 8 n in
      let o₁ = add64 offset 8 in
      let at₁ : At bs o₁ (s ++ (p ++ (z ++ rest))) = At-chunk bs small offset 8 m _ lm at₀ in
      let at₂ : At bs (add64 o₁ 8) (p ++ (z ++ rest)) = At-chunk bs small o₁ 8 s _ ls at₁ in
      let tail_fits : n < 256 ^ 8 =
        omega (arith, chunk_end bs small (add64 o₁ 8) n p (z ++ rest) refl at₂) in
      let mask_read : from_le m ≡ block.delete_mask = from_le-le_bytes 8 _ word in
      let size_read : from_le s ≡ n = from_le-le_bytes 8 n tail_fits in
      let tail = read_payload-Reads p (add64 o₁ 8) (z ++ rest) at₂ in
      let k = padding (add64 16 n) in
      let same : padding ((8 + 8 + n) % 2 ^ 64) ≡ k =
        ap (λ (t : ℕ). padding (t % 2 ^ 64)) (let e : 8 + 8 + n ≡ 16 + n = omega arith in e) in
      let lz : length z ≡ k = length-replicate _ 0 ∙ same in
      (
        add64 tail.0 k,
        rw (
          fits-chunk bs small offset 8 m _ lm at₀,
          read-chunk bs small offset 8 m _ lm at₀,
          fits-chunk bs small o₁ 8 s _ ls at₁,
          read-chunk bs small o₁ 8 s _ ls at₁,
          size_read,
          tail.1,
          mask_read,
        ),
        At-chunk bs small tail.0 k z rest lz tail.2,
      )
