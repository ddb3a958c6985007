-- ===== src/Query/Compiler/Semantics.antt =====
-- What micro-operations compute, on the values of virtual registers and the planes in memory.
use green_gate.Base.{
  ℕ, ◌+◌, ◌-◌, ◌*◌, ◌%◌, ◌^◌, ◌≡◌, bit_and, bit_or, bit_xor, Bool, true, false, not, ◌&&◌, List, [],
  ◌∷◌, ltb, ◌==◌,
}
use green_gate.Base.Assoc.{nat_eq}
use green_gate.Query.Machine.{write}
use green_gate.Query.Compiler.{
  Opcode, load_tile, bit_and_op, bit_or_op, bit_xor_op, bit_bic, cmp_skeleton, cmp_kim, cmp_gt,
  cmp_lt, cmp_eq, materialize_scalar, MicroOp, is_listed, bits_compared,
}
use green_gate.Query.Compiler.Compare.{low_value, covers, IsMask}
use green_gate.Query.Compiler.Running.{planes_at}
use green_gate.Storage.Codec.{tile_size}

-- What an operation puts in its destination, given the values of the virtual registers: the address
-- of a tile, a word, or the mask of the rows whose number in the planes compared passes.
abbrev pub Evaluates : (ℕ → ℕ) → ℕ → (ℕ → ℕ) → MicroOp → Opcode → ℕ → Type 0
Evaluates mem base env o load_tile w = w ≡ (base + o.imm * tile_size % 2 ^ 64) % 2 ^ 64
Evaluates mem base env o bit_and_op w = w ≡ bit_and (env o.src_reg1) (env o.src_reg2)
Evaluates mem base env o bit_or_op w = w ≡ bit_or (env o.src_reg1) (env o.src_reg2)
Evaluates mem base env o bit_xor_op w = w ≡ bit_xor (env o.src_reg1) (env o.src_reg2)
Evaluates mem base env o bit_bic w = w ≡ bit_and (env o.src_reg1) (2 ^ 64 - 1 - env o.src_reg2)
Evaluates mem base env o cmp_skeleton w =
    let n = bits_compared 32 o.src_reg2 in
    IsMask w (λ r. low_value (planes_at mem (env o.src_reg1)) n r == o.imm % 2 ^ 32 % 2 ^ n)
Evaluates mem base env o cmp_kim w =
    IsMask w (covers (planes_at mem (env o.src_reg1)) o.imm (bits_compared 64 o.src_reg2))
Evaluates mem base env o cmp_gt w =
    let n = bits_compared 64 o.src_reg2 in
    IsMask w (λ r. ltb (o.imm % 2 ^ n) (low_value (planes_at mem (env o.src_reg1)) n r))
Evaluates mem base env o cmp_lt w =
    let n = bits_compared 64 o.src_reg2 in
    IsMask w (λ r. ltb (low_value (planes_at mem (env o.src_reg1)) n r) (o.imm % 2 ^ n))
Evaluates mem base env o cmp_eq w =
    let n = bits_compared 64 o.src_reg2 in
    IsMask w (λ r. low_value (planes_at mem (env o.src_reg1)) n r == o.imm % 2 ^ n)
Evaluates mem base env o materialize_scalar w = w ≡ env o.dest_reg

-- The operations one after the other.
pub data Evaluation (mem : ℕ → ℕ) (base : ℕ) : List MicroOp → (ℕ → ℕ) → (ℕ → ℕ) → Type 0 where
  finished : {env : ℕ → ℕ} → Evaluation mem base [] env env
  evaluated :
      {o : MicroOp} {ops : List MicroOp} {env env' : ℕ → ℕ} (w : ℕ)
      → Evaluates mem base env o o.op w
      → Evaluation mem base ops (write o.dest_reg w env) env'
      → Evaluation mem base (o ∷ ops) env env'

-- The sources of an operation are defined, and a comparison does not overwrite its tile. The call of
-- a helper that MATERIALIZE_SCALAR emits has no meaning here, so it is left out.
unfoldable pub sources_defined : List ℕ → MicroOp → Opcode → Bool
unfolding is_listed
sources_defined defined o load_tile = true
sources_defined defined o bit_and_op = is_listed o.src_reg1 defined && is_listed o.src_reg2 defined
sources_defined defined o bit_or_op = is_listed o.src_reg1 defined && is_listed o.src_reg2 defined
sources_defined defined o bit_xor_op = is_listed o.src_reg1 defined && is_listed o.src_reg2 defined
sources_defined defined o bit_bic = is_listed o.src_reg1 defined && is_listed o.src_reg2 defined
sources_defined defined o cmp_skeleton =
    is_listed o.src_reg1 defined && not (o.dest_reg == o.src_reg1)
sources_defined defined o cmp_kim = is_listed o.src_reg1 defined && not (o.dest_reg == o.src_reg1)
sources_defined defined o cmp_gt = is_listed o.src_reg1 defined && not (o.dest_reg == o.src_reg1)
sources_defined defined o cmp_lt = is_listed o.src_reg1 defined && not (o.dest_reg == o.src_reg1)
sources_defined defined o cmp_eq = is_listed o.src_reg1 defined && not (o.dest_reg == o.src_reg1)
sources_defined defined o materialize_scalar = false

unfoldable pub is_scoped : List ℕ → List MicroOp → Bool
unfolding sources_defined
is_scoped defined [] = true
is_scoped defined (o ∷ ops) = sources_defined defined o o.op && is_scoped (o.dest_reg ∷ defined) ops
