-- ===== src/Storage/Exporter/Safety.antt =====
-- `Deserialize` stays inside its input, and what it accepts has the shape that its header says.
use native.Mathlib.Nat.{pow-suc}
use green_gate.Base.{
  ℕ, zero, suc, ◌+◌, ◌^◌, ◌≤◌, ◌<◌, ◌≡◌, refl, ◌∙◌, ap, ltb→lt, subst, le→leb, leb→le, Bool, true,
  false, [], ◌∷◌, arith, leb, ltb, ◌==◌, Bool-cases, inl, inr, length, length-take, length-drop,
  length-map, take, drop, ◌-◌, All, ◌%◌,
}
use green_gate.Base.Bytes.{Bytes, bytes_eq}
use green_gate.Storage.{RowGroup}
use green_gate.Storage.Codec.{from_le, tile_size}
use green_gate.Storage.Exporter.{padding, cbst_magic}
use green_gate.Storage.Exporter.Read.{
  Error, Result, magic_mismatch, ok, err, ◌>>=◌, ◌>>◌, guard, add64, fits, read, read_column,
  read_columns, read_tiles, read_payload, read_tail, read_block, read_blocks, read_header,
  deserialize,
}

-- The run ends by an exception or with a value that has the property, never by a fault.
pub data Returns {ℓ κ} {A : Type ℓ} (P : A → Type κ) : Result A → Type (ℓ ⊔ κ) where
  returned : {a : A} → P a → Returns P (ok a)
  raised : {e : Error} → Returns P (err e)

module _ {ℓ κ} {A : Type ℓ} {P : A → Type κ} where
  Returns-bind {ℓ' κ'} :
      {B : Type ℓ'} {Q : B → Type κ'} {r : Result A} {f : A → Result B}
      → Returns P r
      → ((a : A) → P a → Returns Q (f a))
      → Returns Q (r >>= f)
  Returns-bind (returned {a} h) k = k a h
  Returns-bind raised k = raised

  Returns-guard :
      (b : Bool) (e : Error) {k : Result A} → (b ≡ true → Returns P k) → Returns P (guard b e >> k)
  Returns-guard true e h = h refl
  Returns-guard false e h = raised

abbrev pub IsBytes : Bytes → Type 0
IsBytes = All (λ b. b < 256)

take-IsBytes : (n : ℕ) (bs : Bytes) → IsBytes bs → IsBytes (take n bs)
take-IsBytes zero bs h = tt
take-IsBytes (suc n) [] h = tt
take-IsBytes (suc n) (b ∷ bs) h = (h.0, take-IsBytes n bs h.1)

drop-IsBytes : (n : ℕ) (bs : Bytes) → IsBytes bs → IsBytes (drop n bs)
drop-IsBytes zero bs h = h
drop-IsBytes (suc n) [] h = tt
drop-IsBytes (suc n) (b ∷ bs) h = drop-IsBytes n bs h.1

from_le-lt : (bs : Bytes) → IsBytes bs → from_le bs < 256 ^ length bs
unfolding from_le
from_le-lt [] h = omega arith
from_le-lt (b ∷ bs) h = omega (arith, h.0, from_le-lt bs h.1, pow-suc 256 (length bs))

-- A name and a type for each column, and a tile for each column in every block.
pub record IsShaped (rg : RowGroup) : Type 0 where
  pub names : length rg.column_names ≡ rg.num_columns
  pub types : length rg.column_types ≡ rg.num_columns
  pub tiles : All (λ b. length b.columns ≡ rg.num_columns) rg.blocks

module _ (bs : Bytes) (bytes : IsBytes bs) (small : length bs < 2 ^ 62) where
  -- An offset is at most 63 bytes of padding beyond the end.
  abbrev Near : ℕ → Type 0
  Near offset = offset ≤ length bs + 63

  -- A passed test means that the bytes are there.
  fits-le :
      (offset n : ℕ) → Near offset → n < 2 ^ 63 → fits bs offset n ≡ true → offset + n ≤ length bs
  fits-le offset n near h t = omega (arith, leb→le (add64 offset n) (length bs) t)

  add64-eq : (offset n : ℕ) → offset + n ≤ length bs → add64 offset n ≡ offset + n
  add64-eq offset n h = omega arith

  read-Returns :
      (offset n : ℕ)
      → offset + n ≤ length bs
      → Returns (λ v. from_le v < 256 ^ n) (read bs offset n)
  unfolding read
  read-Returns offset n h =
      let v = take n (drop offset bs) in
      let len : length v ≡ n =
        omega (arith, length-take n (drop offset bs), length-drop offset bs) in
      let lt = from_le-lt v (take-IsBytes n _ (drop-IsBytes offset bs bytes)) in
      rw (le→leb (offset + n) (length bs) h) (returned (subst (λ k. from_le v < 256 ^ k) len lt))

  read_column-Returns :
      (offset : ℕ) → Near offset → Returns (λ r. r.1 ≤ length bs) (read_column bs offset)
  unfolding read_column
  read_column-Returns offset near = Returns-guard (fits bs offset 8) _ λ t.
      let h = fits-le offset 8 near (omega arith) t in
      Returns-bind (read-Returns offset 4 (omega arith)) λ type _.
        Returns-bind (read-Returns (add64 offset 4) 4 (omega arith)) λ name_len lt.
          Returns-guard (fits bs (add64 offset 8) (from_le name_len)) _ λ t'.
            let h' = fits-le (add64 offset 8) (from_le name_len) (omega arith) (omega arith) t' in
            Returns-bind (read-Returns (add64 offset 8) (from_le name_len) h')
              λ name _. returned (omega arith)

  read_columns-Returns :
      (n offset : ℕ)
      → offset ≤ length bs
      → Returns (λ r. (length r.0 ≡ n) × (r.1 ≤ length bs)) (read_columns n bs offset)
  unfolding read_columns
  read_columns-Returns zero offset near = returned (refl, near)
  read_columns-Returns (suc n) offset near =
      Returns-bind (read_column-Returns offset (omega arith)) λ (column, offset₁) near₁.
        Returns-bind (read_columns-Returns n offset₁ near₁)
          λ (columns, offset₂) h. returned (ap suc h.0, h.1)

  read_tiles-Returns :
      (n offset : ℕ)
      → Near offset
      → Returns (λ r. (length r.0 ≡ n) × Near r.1) (read_tiles n bs offset)
  unfolding read_tiles
  read_tiles-Returns zero offset near = returned (refl, near)
  read_tiles-Returns (suc n) offset near = Returns-guard (fits bs offset tile_size) _ λ t.
      let h = fits-le offset tile_size near (omega arith) t in
      Returns-bind (read-Returns offset tile_size h) λ tile _.
        Returns-bind (read_tiles-Returns n (add64 offset tile_size) (omega arith))
          λ (tiles, offset') h'. returned (ap suc h'.0, h'.1)

  read_payload-Returns :
      (offset tail_size : ℕ)
      → offset ≤ length bs
      → Returns (λ r. r.1 ≤ length bs) (read_payload bs offset tail_size)
  unfolding read_payload
  read_payload-Returns offset tail_size inside = elim (Bool-cases (tail_size == 0)) [
    | inl empty ↦ rw empty (returned inside)
    | inr more ↦ rw more (
        Returns-guard (fits bs offset tail_size) _ λ t.
          Returns-guard (ltb tail_size (2 ^ 63)) _ λ short.
            let h = fits-le offset tail_size (omega arith) (ltb→lt tail_size (2 ^ 63) short) t in
            Returns-bind (read-Returns offset tail_size h) λ payload _. returned (omega arith))
  ]

  read_tail-Returns : (offset : ℕ) → Near offset → Returns (λ r. Near r.1) (read_tail bs offset)
  unfolding read_tail padding
  read_tail-Returns offset near = Returns-guard (fits bs offset 8) _ λ t.
      let h = fits-le offset 8 near (omega arith) t in
      Returns-bind (read-Returns offset 8 h) λ mask _.
        Returns-guard (fits bs (add64 offset 8) 8) _ λ t'.
          let h' = fits-le (add64 offset 8) 8 (omega arith) (omega arith) t' in
          Returns-bind (read-Returns (add64 offset 8) 8 h') λ tail_size _.
            Returns-bind
              (read_payload-Returns (add64 (add64 offset 8) 8) (from_le tail_size) (omega arith))
              λ (payload, offset₂) inside. returned (omega arith)

  read_block-Returns :
      (num_columns offset : ℕ)
      → Near offset
      → Returns
          (λ r. (length r.0.columns ≡ num_columns) × Near r.1)
          (read_block num_columns bs offset)
  unfolding read_block
  read_block-Returns num_columns offset near =
      Returns-bind (read_tiles-Returns num_columns offset near) λ (tiles, offset₁) h.
        Returns-bind (read_tail-Returns offset₁ h.1)
          λ ((mask, payload), offset₂) near₂. returned (h.0, near₂)

  read_blocks-Returns :
      (n num_columns offset : ℕ)
      → Near offset
      → Returns
          (λ r. (length r.0 ≡ n) × All (λ b. length b.columns ≡ num_columns) r.0)
          (read_blocks n num_columns bs offset)
  unfolding read_blocks
  read_blocks-Returns zero num_columns offset near = returned (refl, tt)
  read_blocks-Returns (suc n) num_columns offset near =
      Returns-bind (read_block-Returns num_columns offset near) λ (block, offset₁) h.
        Returns-bind (read_blocks-Returns n num_columns offset₁ h.1)
          λ (blocks, offset₂) h'. returned (ap suc h'.0, (h.0, h'.1))

  read_header-Returns : Returns (λ _. 64 ≤ length bs) (read_header bs)
  unfolding read_header
  read_header-Returns = Returns-guard (leb 64 (length bs)) _ λ t.
      let h = leb→le 64 (length bs) t in
      Returns-bind (read-Returns 0 4 (omega arith)) λ magic _.
        Returns-guard (bytes_eq magic cbst_magic) magic_mismatch λ _.
          Returns-bind (read-Returns 4 8 (omega arith)) λ num_rows _.
            Returns-bind (read-Returns 12 8 (omega arith)) λ num_columns _.
              Returns-bind (read-Returns 20 8 (omega arith)) λ num_blocks _. returned h

  -- On bytes of a length below 2 ^ 62, `Deserialize` ends by one of its exceptions or with a row
  -- group, and never reads outside its input. A row group that it returns has a name and a type for
  -- each column, and in each block a tile for each column; its number of rows is whatever the
  -- header says.
  pub deserialize-Returns : Returns IsShaped (deserialize bs)
  unfolding deserialize padding
  deserialize-Returns = Returns-bind read_header-Returns λ (num_rows, num_columns, num_blocks) h.
      Returns-bind (read_columns-Returns num_columns 64 (omega arith)) λ (columns, offset) h'.
        Returns-bind
          (read_blocks-Returns num_blocks num_columns (add64 offset ((64 - offset % 64) % 64))
            (omega arith))
          λ (blocks, _) h''. returned (record {
            names = length-map columns (λ c. c.0) ∙ h'.0;
            types = length-map columns (λ c. c.1) ∙ h'.0;
            tiles = h''.1;
          })
