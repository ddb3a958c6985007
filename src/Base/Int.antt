-- ===== src/Base/Int.antt =====
-- The integer that a 64-bit pattern stands for, as the order on `int64_t` and its tests.
use Prim.Native.Nat.{ℕ, ◌+◌, ◌^◌, ◌%◌}
use mathlib.Core.Bool.{Bool}
use green_gate.Base.Tests.{ltb}

-- The patterns of `int64_t` in the order of the integers: -2^63 comes first, at 0.
abbrev pub biased : ℕ → ℕ
biased w = (w + 2 ^ 63) % 2 ^ 64

-- `a < b` of two `int64_t`, given by their bit patterns.
abbrev pub ltb_signed : ℕ → ℕ → Bool
ltb_signed a b = ltb (biased a) (biased b)
