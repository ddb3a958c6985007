-- ===== src/Ingest/Transposer/Laws.antt =====
-- The transposition turns rows into columns, loses nothing, and the validity plane holds the mask.
use green_gate.Base.{
  ℕ, zero, suc, ◌+◌, ◌*◌, ◌%◌, ◌^◌, ◌<◌, ltb, leb, bit_and, bit_or, bit_xor, ◌≡◌, sym, ap₂, ◌∙◌,
  Bool, false, ◌&&◌, List, some, get_or, set, arith, if◌then◌else◌, length, All, All-set,
  All-get_or, get_or_ext, Option, ◌/◌, inl, inr, Bool-cases,
}
use native.Mathlib.Nat.{div-le_self}
use green_gate.Base.Bits.{
  bit, bit-le, bit_ext, bit_and-lt, bit_xor-lt, bit-bit_or, bit-mod, bit-pow, bit-zero,
}
use green_gate.Base.Loops.{for_steps, for_steps_inv}
use green_gate.Ingest.Transposer.{
  differing, butterfly, stage5, stage4, stage3, stage2, stage1, stage0, transpose64_scalar,
  transpose64, butterfly_transpose, validity_loop, validity_plane,
}
use green_gate.Ingest.Transposer.Stage.{entry}
use green_gate.Ingest.Transposer.Stages.{
  stage5-IsStage, stage4-IsStage, stage3-IsStage, stage2-IsStage, stage1-IsStage, stage0-IsStage,
  origin_lem,
}

length-transpose64_scalar : (a : List ℕ) → length a ≡ 64 → length (transpose64_scalar a) ≡ 64
unfolding transpose64_scalar
length-transpose64_scalar a e = stage0-IsStage.keeps_length _ (
    stage1-IsStage.keeps_length _ (
      stage2-IsStage.keeps_length _ (
        stage3-IsStage.keeps_length _
          (stage4-IsStage.keeps_length _ (stage5-IsStage.keeps_length a e)))))

-- `Transpose64_Scalar` transposes the 64 x 64 matrix of the bits of 64 words: bit `j` of word `r` of
-- the result is bit `r` of word `j`.
pub entry-transpose64_scalar :
    (a : List ℕ) (r j : ℕ)
    → length a ≡ 64
    → r < 64
    → j < 64
    → entry (transpose64_scalar a) r j ≡ entry a j r
unfolding transpose64_scalar
entry-transpose64_scalar a r j e p q =
    let e5 = stage5-IsStage.keeps_length a e in
    let e4 = stage4-IsStage.keeps_length _ e5 in
    let e3 = stage3-IsStage.keeps_length _ e4 in
    let e2 = stage2-IsStage.keeps_length _ e3 in
    let e1 = stage1-IsStage.keeps_length _ e2 in
    let i0 = stage0-IsStage.inside r j p q in
    let i1 = stage1-IsStage.inside _ _ i0.0 i0.1 in
    let i2 = stage2-IsStage.inside _ _ i1.0 i1.1 in
    let i3 = stage3-IsStage.inside _ _ i2.0 i2.1 in
    let i4 = stage4-IsStage.inside _ _ i3.0 i3.1 in
    stage0-IsStage.moves _ r j e1 p q
    ∙ stage1-IsStage.moves _ _ _ e2 i0.0 i0.1
    ∙ stage2-IsStage.moves _ _ _ e3 i1.0 i1.1
    ∙ stage3-IsStage.moves _ _ _ e4 i2.0 i2.1
    ∙ stage4-IsStage.moves _ _ _ e5 i3.0 i3.1
    ∙ stage5-IsStage.moves a _ _ e i4.0 i4.1
    ∙ ap₂ (entry a) (origin_lem r j p q).0 (origin_lem r j p q).1

-- Every entry is a 64-bit word.
abbrev pub IsWords : List ℕ → Type 0
IsWords = All (λ w. w < 2 ^ 64)

butterfly-IsWords : (d mask i : ℕ) (a : List ℕ) → IsWords a → IsWords (butterfly d mask i a)
unfolding butterfly differing
butterfly-IsWords d mask i a h =
    let x = get_or a i 0 in
    let y = get_or a (i + d) 0 in
    let hx : x < 2 ^ 64 = All-get_or (λ w. w < 2 ^ 64) a i 0 h (omega arith) in
    let hy : y < 2 ^ 64 = All-get_or (λ w. w < 2 ^ 64) a (i + d) 0 h (omega arith) in
    let shifted : x / 2 ^ d < 2 ^ 64 = omega (arith, div-le_self x (2 ^ d)) in
    let u = bit_and (bit_xor (x / 2 ^ d) y) mask in
    let ht = bit_and-lt 64 (bit_xor (x / 2 ^ d) y) mask (bit_xor-lt 64 (x / 2 ^ d) y shifted hy) in
    let a' = set a (i + d) (bit_xor y u) in
    let h' : IsWords a' = All-set (λ w. w < 2 ^ 64) a (i + d) _ h (bit_xor-lt 64 y u hy ht) in
    All-set (λ w. w < 2 ^ 64) a' i _ h'
      (bit_xor-lt 64 (get_or a' i 0) (u * 2 ^ d % 2 ^ 64)
        (All-get_or (λ w. w < 2 ^ 64) a' i 0 h' (omega arith)) (omega arith))

pass-IsWords :
    (d mask n start step : ℕ) (a : List ℕ)
    → IsWords a
    → IsWords (for_steps n start step (butterfly d mask) a)
pass-IsWords d mask n start step a =
    for_steps_inv IsWords (butterfly d mask) (butterfly-IsWords d mask) n start step a

blocks-IsWords :
    (d mask n step size : ℕ) (a : List ℕ)
    → IsWords a
    → IsWords (for_steps n 0 step (λ block. for_steps size block 1 (butterfly d mask)) a)
blocks-IsWords d mask n step size a =
    for_steps_inv IsWords _ (λ block b. pass-IsWords d mask size block 1 b) n 0 step a

transpose64_scalar-IsWords : (a : List ℕ) → IsWords a → IsWords (transpose64_scalar a)
unfolding transpose64_scalar stage5 stage4 stage3 stage2 stage1 stage0
transpose64_scalar-IsWords a h = pass-IsWords 1 _ 32 0 2 _ (
    blocks-IsWords 2 _ 16 4 2 _ (
      blocks-IsWords 4 _ 8 8 4 _ (
        blocks-IsWords 8 _ 4 16 8 _
          (blocks-IsWords 16 _ 2 32 16 _ (pass-IsWords 32 _ 32 0 1 a h)))))

-- For any 64 numbers below 2 ^ 64 and any mask, `greengate_butterfly_transpose` turns the planes that
-- `Transpose64` makes of them back into the numbers.
pub butterfly_transpose-transpose64 :
    (values : List ℕ) (valid_mask : Option (List Bool))
    → length values ≡ 64
    → IsWords values
    → butterfly_transpose (transpose64 values valid_mask).0 ≡ values
unfolding butterfly_transpose transpose64
butterfly_transpose-transpose64 a m e h =
    let once = transpose64_scalar a in
    let e1 = length-transpose64_scalar a e in
    let e2 = length-transpose64_scalar once e1 in
    let words = transpose64_scalar-IsWords once (transpose64_scalar-IsWords a h) in
    get_or_ext 0 (transpose64_scalar once) a (e2 ∙ sym e) λ i p.
      bit_ext 64 _ _
        (All-get_or (λ w. w < 2 ^ 64) (transpose64_scalar once) i 0 words (omega arith))
        (All-get_or (λ w. w < 2 ^ 64) a i 0 h (omega arith))
        λ k q.
          let p' : i < 64 = omega (arith, e2) in
          entry-transpose64_scalar once i k e1 p' q ∙ entry-transpose64_scalar a k i e q p'

-- The loop sets bit `j` for the rounds it makes and keeps the others.
validity_loop_lem :
    (n i : ℕ) (valid_mask : List Bool) (plane j : ℕ)
    → j < 64
    → bit (validity_loop n i valid_mask plane) j
      ≡ (if leb i j && (ltb j (i + n) && get_or valid_mask j false) then 1 else bit plane j)
unfolding validity_loop for_steps
validity_loop_lem zero i m plane j h = ground arith
validity_loop_lem (suc n) i m plane j h =
    let marked = bit-bit_or plane (2 ^ i % 2 ^ 64) j in
    let mark = bit-mod 64 (2 ^ i) j h ∙ bit-pow i j in
    elim (Bool-cases (get_or m i false)) [
      | inl set_here ↦ rw set_here (
          ground (
            arith,
            validity_loop_lem n (i + 1) m (bit_or plane (2 ^ i % 2 ^ 64)) j h,
            marked,
            mark,
            bit-le plane j,
            set_here,
          ))
      | inr clear ↦ rw clear (ground (arith, validity_loop_lem n (i + 1) m plane j h, clear))
    ]

-- Bit `j`, below 64, of the validity plane that `Transpose64` writes for a mask is entry `j` of the
-- mask.
pub bit-validity_plane :
    (valid_mask : List Bool) (j : ℕ)
    → j < 64
    → bit (validity_plane (some valid_mask)) j ≡ (if get_or valid_mask j false then 1 else 0)
unfolding validity_plane
bit-validity_plane m j h = ground (arith, validity_loop_lem 64 0 m 0 j h, bit-zero j)
