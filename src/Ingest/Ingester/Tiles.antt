-- ===== src/Ingest/Ingester/Tiles.antt =====
-- What a tile of ingested rows holds.
use green_gate.Base.{
  ℕ, zero, suc, ◌+◌, ◌-◌, ◌^◌, ◌≤◌, ◌<◌, ◌≡◌, refl, ap, ◌∙◌, Bool, false, not, some, List, [], ◌∷◌,
  ◌++◌, arith, if◌then◌else◌, length, length-append, length-replicate, get_or, All-append,
  All-replicate, replicate,
}
use green_gate.Base.Bits.{bit}
use green_gate.Query.{Column}
use green_gate.Ingest.Transposer.{butterfly_transpose, transpose64}
use green_gate.Ingest.Transposer.Laws.{IsWords, butterfly_transpose-transpose64, bit-validity_plane}
use green_gate.Ingest.Ingester.{column_values, column_validity, tile_of_rows}

-- A value for each row of a block that is not null.
abbrev pub value_of_row : (ℕ → ℕ) → Column → ℕ → ℕ
value_of_row value col idx = if col.is_null idx then 0 else value idx

module _ {ℓ} {A : Type ℓ} where
  pub get_or-append_front :
      (xs ys : List A) (i : ℕ) (d : A) → i < length xs → get_or (xs ++ ys) i d ≡ get_or xs i d
  get_or-append_front [] ys i d h = elim h [ ]
  get_or-append_front (x ∷ xs) ys zero d h = refl
  get_or-append_front (x ∷ xs) ys (suc i) d h = get_or-append_front xs ys i d (omega arith)

module _ (value : ℕ → ℕ) (col : Column) where
  length-column_values : (idx n : ℕ) → length (column_values value col idx n) ≡ n
  unfolding column_values
  length-column_values idx zero = refl
  length-column_values idx (suc n) = ap suc (length-column_values (idx + 1) n)

  length-column_validity : (idx n : ℕ) → length (column_validity col idx n) ≡ n
  unfolding column_validity
  length-column_validity idx zero = refl
  length-column_validity idx (suc n) = ap suc (length-column_validity (idx + 1) n)

  get_or-column_values :
      (idx n r : ℕ)
      → r < n
      → get_or (column_values value col idx n) r 0 ≡ value_of_row value col (idx + r)
  unfolding column_values
  get_or-column_values idx zero r h = elim h [ ]
  get_or-column_values idx (suc n) zero h =
      ap (value_of_row value col) {x = idx} {y = idx + 0} (omega arith)
  get_or-column_values idx (suc n) (suc r) h =
      get_or-column_values (idx + 1) n r (omega arith)
      ∙ ap (value_of_row value col) {x = idx + 1 + r} {y = idx + suc r} (omega arith)

  get_or-column_validity :
      (idx n r : ℕ)
      → r < n
      → get_or (column_validity col idx n) r false ≡ not (col.is_null (idx + r))
  unfolding column_validity
  get_or-column_validity idx zero r h = elim h [ ]
  get_or-column_validity idx (suc n) zero h =
      ap (λ (i : ℕ). not (col.is_null i)) {x = idx} {y = idx + 0} (omega arith)
  get_or-column_validity idx (suc n) (suc r) h =
      get_or-column_validity (idx + 1) n r (omega arith)
      ∙ ap (λ (i : ℕ). not (col.is_null i)) {x = idx + 1 + r} {y = idx + suc r} (omega arith)

  column_values-IsWords :
      (idx n : ℕ) → ((i : ℕ) → value i < 2 ^ 64) → IsWords (column_values value col idx n)
  unfolding column_values
  column_values-IsWords idx zero h = tt
  column_values-IsWords idx (suc n) h = (ground (arith, h idx), column_values-IsWords (idx + 1) n h)

  -- The scalars that are made of the tile's planes are the values.
  pub scalar-tile_of_rows :
      (start count r : ℕ)
      → ((i : ℕ) → value i < 2 ^ 64)
      → r < count
      → count ≤ 64
      → get_or (butterfly_transpose (tile_of_rows value col start count).planes) r 0
        ≡ value_of_row value col (start + r)
  unfolding tile_of_rows
  scalar-tile_of_rows start count r fits h h' =
      let values = column_values value col start count in
      let valid = column_validity col start count ++ replicate (64 - count) false in
      let full = values ++ replicate (64 - count) 0 in
      let size : length full ≡ 64 = omega (
        arith,
        length-append values (replicate (64 - count) 0),
        length-column_values start count,
        length-replicate {A = ℕ} (64 - count) 0,
      ) in
      let words : IsWords full =
        All-append (λ (w : ℕ). w < 2 ^ 64) values (replicate (64 - count) 0)
          (column_values-IsWords start count fits)
          (All-replicate (λ (w : ℕ). w < 2 ^ 64) (64 - count) 0 (omega arith)) in
      ap (λ (xs : List ℕ). get_or xs r 0)
        (butterfly_transpose-transpose64 full (some valid) size words)
      ∙ get_or-append_front values (replicate (64 - count) 0) r 0
          (omega (arith, length-column_values start count))
      ∙ get_or-column_values start count r h

  -- A row's bit in the validity plane tells whether it is not null.
  pub bit-tile_of_rows :
      (start count r : ℕ)
      → r < count
      → count ≤ 64
      → bit (tile_of_rows value col start count).validity r
        ≡ (if col.is_null (start + r) then 0 else 1)
  unfolding tile_of_rows transpose64
  bit-tile_of_rows start count r h h' =
      let valid = column_validity col start count in
      bit-validity_plane (valid ++ replicate (64 - count) false) r (omega arith)
      ∙ ap (λ (b : Bool). if b then 1 else 0)
          (get_or-append_front valid (replicate (64 - count) false) r false
              (omega (arith, length-column_validity start count))
            ∙ get_or-column_validity start count r h)
      ∙ ground arith
