-- ===== src/Ingest/Transposer/Tests.antt =====
-- The transposition on concrete words.
use green_gate.Base.{ℕ, ◌^◌, ◌≡◌, refl, true, false, none, some, List, [], ◌∷◌, arith, replicate}
use green_gate.Base.Bits.{bit}
use green_gate.Base.Loops.{for_steps, all_lt-All}
use green_gate.Ingest.Transposer.{
  differing, butterfly, stage5, stage4, stage3, stage2, stage1, stage0, transpose64_scalar,
  transpose64, butterfly_transpose, validity_plane,
}
use green_gate.Ingest.Transposer.Stage.{entry}
use green_gate.Ingest.Transposer.Laws.{
  entry-transpose64_scalar, butterfly_transpose-transpose64, bit-validity_plane,
}

abbrev some_words : List ℕ
some_words = 5 ∷ 0xFFFFFFFFffffffff ∷ 2 ∷ replicate 61 9

transpose64_scalar_words :
    transpose64_scalar some_words ≡ 0xFFFFFFFFfffffffb ∷ 6 ∷ 3 ∷ 0xFFFFFFFFfffffffa ∷ replicate 60 2
unfolding transpose64_scalar stage5 stage4 stage3 stage2 stage1 stage0 for_steps butterfly differing
transpose64_scalar_words = refl

entry-transpose64_scalar_example :
    entry (transpose64_scalar some_words) 3 63 ≡ entry some_words 63 3
entry-transpose64_scalar_example =
    entry-transpose64_scalar some_words 3 63 refl (omega arith) (omega arith)

butterfly_transpose-transpose64_example :
    butterfly_transpose (transpose64 some_words none).0 ≡ some_words
butterfly_transpose-transpose64_example =
    butterfly_transpose-transpose64 some_words none refl (all_lt-All (2 ^ 64) some_words refl)

bit-validity_plane_example : bit (validity_plane (some (true ∷ false ∷ true ∷ []))) 2 ≡ 1
bit-validity_plane_example = bit-validity_plane (true ∷ false ∷ true ∷ []) 2 (omega arith)
