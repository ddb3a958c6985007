-- ===== src/Ingest/Transposer/Stages.antt =====
-- What each of the six stages does to the bit matrix, and where a position comes from in the end.
use Prim.Native.Nat.{ℕ, zero, suc}
use green_gate.Base.{
  ◌+◌, ◌<◌, ◌≡◌, refl, sym, ap, ◌∙◌, Bool, true, ◌&&◌, List, [], ◌∷◌, ◌++◌, arith, ltb, ◌==◌,
  ==_iff, if◌then◌else◌, length,
}
use green_gate.Base.Bits.{bit}
use green_gate.Base.Loops.{for_steps, all_below, all_below_sound}
use green_gate.Ingest.Transposer.{butterfly, stage5, stage4, stage3, stage2, stage1, stage0}
use green_gate.Ingest.Transposer.Stage.{
  entry, low, IsPass, source_row, source_column, run, touched, disjoint, length-run, entry-run,
}

-- The rows that a counted loop, and a loop over blocks, hand to the exchange.
range : ℕ → ℕ → ℕ → List ℕ
range zero start step = []
range (suc n) start step = start ∷ range n (start + step) step

blocks : ℕ → ℕ → ℕ → ℕ → List ℕ
unfolding range
blocks zero start step size = []
blocks (suc n) start step size = range size start 1 ++ blocks n (start + step) step size

run-append :
    (d mask : ℕ) (is js : List ℕ) (a : List ℕ)
    → run d mask (is ++ js) a ≡ run d mask js (run d mask is a)
run-append d mask [] js a = refl
run-append d mask (i ∷ is) js a = run-append d mask is js (butterfly d mask i a)

for_steps-run :
    (d mask n start step : ℕ) (a : List ℕ)
    → for_steps n start step (butterfly d mask) a ≡ run d mask (range n start step) a
unfolding for_steps range
for_steps-run d mask zero start step a = refl
for_steps-run d mask (suc n) start step a =
    for_steps-run d mask n (start + step) step (butterfly d mask start a)

for_blocks-run :
    (d mask n start step size : ℕ) (a : List ℕ)
    → for_steps n start step (λ block. for_steps size block 1 (butterfly d mask)) a
      ≡ run d mask (blocks n start step size) a
unfolding for_steps blocks
for_blocks-run d mask zero start step size a = refl
for_blocks-run d mask (suc n) start step size a =
    ap (λ b. for_steps n (start + step) step (λ block. for_steps size block 1 (butterfly d mask)) b)
      (for_steps-run d mask size start 1 a)
    ∙ for_blocks-run d mask n (start + step) step size (run d mask (range size start 1) a)
    ∙ sym (run-append d mask (range size start 1) (blocks n (start + step) step size) a)

-- Every row and column of the matrix comes from a row and a column of the matrix.
inside_cell : ℕ → ℕ → ℕ → Bool
unfolding source_row source_column
inside_cell d r j = ltb (source_row d r j) 64 && ltb (source_column d r j) 64

inside_row : ℕ → ℕ → Bool
unfolding inside_cell all_below
inside_row d r = all_below 64 (inside_cell d r)

inside_cell_lem :
    (d r j : ℕ) → inside_cell d r j ≡ true → (source_row d r j < 64) × (source_column d r j < 64)
unfolding inside_cell
inside_cell_lem d r j h = ground arith

-- What a stage does to a matrix of 64 rows.
pub record IsStage (d : ℕ) (stage : List ℕ → List ℕ) : Type 0 where
  pub keeps_length : (a : List ℕ) → length a ≡ 64 → length (stage a) ≡ 64
  pub moves :
      (a : List ℕ) (r j : ℕ)
      → length a ≡ 64
      → r < 64
      → j < 64
      → entry (stage a) r j ≡ entry a (source_row d r j) (source_column d r j)
  pub inside : (r j : ℕ) → r < 64 → j < 64 → (source_row d r j < 64) × (source_column d r j < 64)

run-IsStage :
    (d mask : ℕ) (is : List ℕ) (stage : List ℕ → List ℕ)
    → IsPass d mask
    → 0 < d
    → ((a : List ℕ) → stage a ≡ run d mask is a)
    → disjoint d 64 is ≡ true
    → all_below 64 (touched d is) ≡ true
    → all_below 64 (inside_row d) ≡ true
    → IsStage d stage
unfolding inside_row
run-IsStage d mask is stage pass pos eq dis full ins = record {
  keeps_length = λ a e. ap length (eq a) ∙ length-run d mask pass pos is a (rw e dis) ∙ e;
  moves = λ a r j e p q.
      ap (λ b. entry b r j) (eq a)
      ∙ entry-run d mask pass pos is a r j (rw e dis) q
      ∙ rw (all_below_sound 64 (touched d is) r full p);
  inside = λ r j p q.
      let row = all_below_sound 64 (inside_row d) r ins p in
      inside_cell_lem d r j (all_below_sound 64 (inside_cell d r) j row q);
}

mask5 : all_below 64 (λ j. bit 0x00000000FFFFFFFF j == (if low 32 j then 1 else 0)) ≡ true
unfolding all_below
mask5 = refl

pass5 : IsPass 32 0x00000000FFFFFFFF
pass5 = record {
  low_high = λ i h. ground arith;
  high_low = λ i h. ground arith;
  mask_bit = λ j p. (==_iff _ _).0 (all_below_sound 64 _ j mask5 p);
}

pub stage5-IsStage : IsStage 32 stage5
unfolding stage5 range all_below inside_row
stage5-IsStage =
    run-IsStage 32 0x00000000FFFFFFFF (range 32 0 1) stage5 pass5 (omega arith)
      (λ a. for_steps-run 32 0x00000000FFFFFFFF 32 0 1 a) refl refl refl

mask4 : all_below 64 (λ j. bit 0x0000FFFF0000FFFF j == (if low 16 j then 1 else 0)) ≡ true
unfolding all_below
mask4 = refl

pass4 : IsPass 16 0x0000FFFF0000FFFF
pass4 = record {
  low_high = λ i h. ground arith;
  high_low = λ i h. ground arith;
  mask_bit = λ j p. (==_iff _ _).0 (all_below_sound 64 _ j mask4 p);
}

pub stage4-IsStage : IsStage 16 stage4
unfolding stage4 blocks all_below inside_row
stage4-IsStage =
    run-IsStage 16 0x0000FFFF0000FFFF (blocks 2 0 32 16) stage4 pass4 (omega arith)
      (λ a. for_blocks-run 16 0x0000FFFF0000FFFF 2 0 32 16 a) refl refl refl

mask3 : all_below 64 (λ j. bit 0x00FF00FF00FF00FF j == (if low 8 j then 1 else 0)) ≡ true
unfolding all_below
mask3 = refl

pass3 : IsPass 8 0x00FF00FF00FF00FF
pass3 = record {
  low_high = λ i h. ground arith;
  high_low = λ i h. ground arith;
  mask_bit = λ j p. (==_iff _ _).0 (all_below_sound 64 _ j mask3 p);
}

pub stage3-IsStage : IsStage 8 stage3
unfolding stage3 blocks all_below inside_row
stage3-IsStage =
    run-IsStage 8 0x00FF00FF00FF00FF (blocks 4 0 16 8) stage3 pass3 (omega arith)
      (λ a. for_blocks-run 8 0x00FF00FF00FF00FF 4 0 16 8 a) refl refl refl

mask2 : all_below 64 (λ j. bit 0x0F0F0F0F0F0F0F0F j == (if low 4 j then 1 else 0)) ≡ true
unfolding all_below
mask2 = refl

pass2 : IsPass 4 0x0F0F0F0F0F0F0F0F
pass2 = record {
  low_high = λ i h. ground arith;
  high_low = λ i h. ground arith;
  mask_bit = λ j p. (==_iff _ _).0 (all_below_sound 64 _ j mask2 p);
}

pub stage2-IsStage : IsStage 4 stage2
unfolding stage2 blocks all_below inside_row
stage2-IsStage =
    run-IsStage 4 0x0F0F0F0F0F0F0F0F (blocks 8 0 8 4) stage2 pass2 (omega arith)
      (λ a. for_blocks-run 4 0x0F0F0F0F0F0F0F0F 8 0 8 4 a) refl refl refl

mask1 : all_below 64 (λ j. bit 0x3333333333333333 j == (if low 2 j then 1 else 0)) ≡ true
unfolding all_below
mask1 = refl

pass1 : IsPass 2 0x3333333333333333
pass1 = record {
  low_high = λ i h. ground arith;
  high_low = λ i h. ground arith;
  mask_bit = λ j p. (==_iff _ _).0 (all_below_sound 64 _ j mask1 p);
}

pub stage1-IsStage : IsStage 2 stage1
unfolding stage1 blocks all_below inside_row
stage1-IsStage =
    run-IsStage 2 0x3333333333333333 (blocks 16 0 4 2) stage1 pass1 (omega arith)
      (λ a. for_blocks-run 2 0x3333333333333333 16 0 4 2 a) refl refl refl

mask0 : all_below 64 (λ j. bit 0x5555555555555555 j == (if low 1 j then 1 else 0)) ≡ true
unfolding all_below
mask0 = refl

pass0 : IsPass 1 0x5555555555555555
pass0 = record {
  low_high = λ i h. ground arith;
  high_low = λ i h. ground arith;
  mask_bit = λ j p. (==_iff _ _).0 (all_below_sound 64 _ j mask0 p);
}

pub stage0-IsStage : IsStage 1 stage0
unfolding stage0 range all_below inside_row
stage0-IsStage =
    run-IsStage 1 0x5555555555555555 (range 32 0 2) stage0 pass0 (omega arith)
      (λ a. for_steps-run 1 0x5555555555555555 32 0 2 a) refl refl refl

-- The stages' moves, composed: what row and column a position comes from in the end.
abbrev pub back : ℕ → ℕ × ℕ → ℕ × ℕ
back d (r, j) = (source_row d r j, source_column d r j)

abbrev pub origin : ℕ → ℕ → ℕ × ℕ
origin r j = back 32 (back 16 (back 8 (back 4 (back 2 (back 1 (r, j))))))

is_pair : ℕ × ℕ → ℕ → ℕ → Bool
is_pair (row, column) r j = row == j && column == r

is_pair_lem : (p : ℕ × ℕ) (r j : ℕ) → is_pair p r j ≡ true → (p.0 ≡ j) × (p.1 ≡ r)
unfolding is_pair
is_pair_lem (row, column) r j h = ground arith

swaps : ℕ → ℕ → Bool
swaps r j = is_pair (origin r j) r j

swaps_row : ℕ → Bool
unfolding swaps all_below
swaps_row r = all_below 64 (swaps r)

swaps_all : all_below 64 swaps_row ≡ true
unfolding swaps_row is_pair source_row source_column
swaps_all = refl

swaps_lem : (r j : ℕ) → swaps r j ≡ true → ((origin r j).0 ≡ j) × ((origin r j).1 ≡ r)
unfolding swaps
swaps_lem r j h = is_pair_lem (origin r j) r j h

pub origin_lem : (r j : ℕ) → r < 64 → j < 64 → ((origin r j).0 ≡ j) × ((origin r j).1 ≡ r)
unfolding swaps_row
origin_lem r j p q =
    swaps_lem r j (all_below_sound 64 (swaps r) j (all_below_sound 64 swaps_row r swaps_all p) q)
