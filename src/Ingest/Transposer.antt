-- ===== src/Ingest/Transposer.antt =====
-- src/lex/ingest/simd_transposer.cpp: the 64 x 64 bit transposition, in its portable form, and the
-- validity plane. An array of 64 `uint64_t` is a list of 64 numbers below 2 ^ 64.
pub mod Stage
pub mod Stages
pub mod Laws
mod Tests
use green_gate.Base.{
  ℕ, zero, suc, ◌+◌, ◌*◌, ◌/◌, ◌%◌, ◌^◌, bit_and, bit_or, bit_xor, Bool, true, false, Option, none,
  some, List, get_or, set, if◌then◌else◌,
}
use green_gate.Base.Loops.{for_steps}

-- The bits in which `x >> d` and `y` differ, under the mask: the `t` of an exchange.
unfoldable pub differing : ℕ → ℕ → ℕ → ℕ → ℕ
differing d mask x y = bit_and (bit_xor (x / 2 ^ d) y) mask

-- One exchange: `t = ((A[i] >> d) ^ A[i + d]) & mask; A[i + d] ^= t; A[i] ^= (t << d);`
unfoldable pub butterfly : ℕ → ℕ → ℕ → List ℕ → List ℕ
unfolding differing
butterfly d mask i a =
    let t = differing d mask (get_or a i 0) (get_or a (i + d) 0) in
    let a' = set a (i + d) (bit_xor (get_or a (i + d) 0) t) in
    set a' i (bit_xor (get_or a' i 0) (t * 2 ^ d % 2 ^ 64))

unfoldable pub stage5 : List ℕ → List ℕ
stage5 = for_steps 32 0 1 (butterfly 32 0x00000000FFFFFFFF)

unfoldable pub stage4 : List ℕ → List ℕ
stage4 = for_steps 2 0 32 λ block. for_steps 16 block 1 (butterfly 16 0x0000FFFF0000FFFF)

unfoldable pub stage3 : List ℕ → List ℕ
stage3 = for_steps 4 0 16 λ block. for_steps 8 block 1 (butterfly 8 0x00FF00FF00FF00FF)

unfoldable pub stage2 : List ℕ → List ℕ
stage2 = for_steps 8 0 8 λ block. for_steps 4 block 1 (butterfly 4 0x0F0F0F0F0F0F0F0F)

unfoldable pub stage1 : List ℕ → List ℕ
stage1 = for_steps 16 0 4 λ block. for_steps 2 block 1 (butterfly 2 0x3333333333333333)

unfoldable pub stage0 : List ℕ → List ℕ
stage0 = for_steps 32 0 2 (butterfly 1 0x5555555555555555)

-- `Transpose64_Scalar`, in place.
unfoldable pub transpose64_scalar : List ℕ → List ℕ
transpose64_scalar a = stage0 (stage1 (stage2 (stage3 (stage4 (stage5 a)))))

-- The loop over `valid_mask`: round `i` sets bit `i` of the plane.
unfoldable pub validity_loop : ℕ → ℕ → List Bool → ℕ → ℕ
validity_loop n i valid_mask plane =
    for_steps n i 1 (λ k p. if get_or valid_mask k false then bit_or p (2 ^ k % 2 ^ 64) else p)
      plane

-- What `Transpose64` writes to `*out_validity`; `none` is a null `valid_mask`.
unfoldable pub validity_plane : Option (List Bool) → ℕ
validity_plane none = 0xFFFFFFFFffffffff
validity_plane (some valid_mask) = validity_loop 64 0 valid_mask 0

-- `Transpose64`: the planes and the validity plane.
unfoldable pub transpose64 : List ℕ → Option (List Bool) → List ℕ × ℕ
transpose64 values valid_mask = (transpose64_scalar values, validity_plane valid_mask)

-- `greengate_butterfly_transpose`, which turns planes back into scalars.
unfoldable pub butterfly_transpose : List ℕ → List ℕ
butterfly_transpose in_planes = (transpose64 in_planes none).0
