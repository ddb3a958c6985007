-- ===== src/Base/SetBits/Tests.antt =====
-- The set bits of 44, from the lowest.
use Prim.Native.Nat.{◌+◌, ◌*◌}
use native.Mathlib.Omega.{arith}
use mathlib.Core.Path.{◌≡◌, refl}
use green_gate.Base.SetBits.{ctz, for_set_bits, each_bit, for_set_bits-each_bit}

for_set_bits-each_bit_example :
    for_set_bits 70 (λ i s. s * 10 + i) 44 0 ≡ each_bit 64 0 (λ i s. s * 10 + i) 44 0
for_set_bits-each_bit_example =
    for_set_bits-each_bit (λ i s. s * 10 + i) 70 44 0 (omega arith) (omega arith)

for_set_bits-44 : for_set_bits 64 (λ i s. s * 10 + i) 44 0 ≡ 235
unfolding for_set_bits ctz
for_set_bits-44 = refl
