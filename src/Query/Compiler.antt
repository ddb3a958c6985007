-- ===== src/Query/Compiler.antt =====
-- src/lex/jit/micro_op_compiler.cpp: `MicroOpCompiler::Compile`, from micro-operations on virtual
-- registers to A64 code. An `int` is its 32-bit pattern, so -1 is `2 ^ 32 - 1`. The assembler,
-- which only takes down the instructions, is left out with its errors.
pub mod Loops
pub mod Compare
pub mod Match
pub mod Order
pub mod Registers
pub mod Running
pub mod Comparisons
pub mod Words
pub mod Semantics
pub mod Laws
mod Tests
use green_gate.Base.{
  ℕ, zero, suc, ◌+◌, ◌-◌, ◌*◌, ◌/◌, ◌%◌, ◌^◌, Bool, true, false, ◌||◌, Option, none, some, List, [],
  ◌∷◌, ◌++◌, ltb, leb, ◌==◌, if◌then◌else◌, length, get_or,
}
use green_gate.Base.Assoc.{lookup, nat_eq}
use green_gate.Query.Machine.{
  Instr, mov_imm, mov, movz, movk, add, and_, orr, eor, bic, ldr, stp_pre, ldp_post, str_pre,
  ldr_post, ldr_sp, add_sp, blr,
}
use green_gate.Storage.Codec.{tile_size}

pub data Opcode : Type 0 where
  load_tile bit_and_op bit_or_op bit_xor_op bit_bic cmp_skeleton cmp_kim cmp_gt cmp_lt cmp_eq
        materialize_scalar :
      Opcode

pub record MicroOp : Type 0 where
  pub op : Opcode
  pub dest_reg : ℕ
  pub src_reg1 : ℕ
  pub src_reg2 : ℕ
  pub imm : ℕ

-- The exceptions of the register allocation.
pub data Compiled {ℓ} (A : Type ℓ) : Type ℓ where
  done : A → Compiled A
  out_of_registers out_of_scratch : Compiled A

infixl 5 ◌>>=◌
abbrev pub ◌>>=◌ {ℓ κ} : {A : Type ℓ} {B : Type κ} → Compiled A → (A → Compiled B) → Compiled B
done a >>= f = f a
out_of_registers >>= f = out_of_registers
out_of_scratch >>= f = out_of_scratch

-- `reg_map` and `next_gp`.
pub record Alloc : Type 0 where
  pub reg_map : List (ℕ × ℕ)
  pub next_gp : ℕ

abbrev pub gp_pool : List ℕ
gp_pool = 22 ∷ 23 ∷ 24 ∷ 25 ∷ 26 ∷ 27 ∷ 28 ∷ 9 ∷ 10 ∷ 11 ∷ 12 ∷ 13 ∷ 14 ∷ 15 ∷ []

-- `get_reg`.
unfoldable pub get_reg : ℕ → Alloc → Compiled (ℕ × Alloc)
get_reg vreg m = elim (lookup vreg m.reg_map) [
  | some r ↦ done (r, m)
  | none ↦
      let r = get_or gp_pool m.next_gp 0 in
      if leb 14 m.next_gp
      then out_of_registers
      else done (r, record { reg_map = (vreg, r) ∷ m.reg_map; next_gp = m.next_gp + 1 })
]

-- The tests of `in_use`.
unfoldable pub is_mapped : ℕ → List (ℕ × ℕ) → Bool
is_mapped r [] = false
is_mapped r ((v, q) ∷ m) = q == r || is_mapped r m

unfoldable pub is_listed : ℕ → List ℕ → Bool
is_listed r [] = false
is_listed r (q ∷ exclude) = q == r || is_listed r exclude

-- `get_scratch_reg`, from the pool on.
unfoldable pub get_scratch : List ℕ → List (ℕ × ℕ) → List ℕ → Compiled ℕ
unfolding is_mapped is_listed
get_scratch [] m exclude = out_of_scratch
get_scratch (r ∷ pool) m exclude =
    let rest = get_scratch pool m exclude in
    if is_mapped r m || is_listed r exclude then rest else done r

-- `emit_mov_imm64`.
unfoldable pub emit_mov_imm64 : ℕ → ℕ → List Instr
emit_mov_imm64 d imm =
    movz d (imm % 2 ^ 16) 0
    ∷ movk d (imm / 2 ^ 16 % 2 ^ 16) 16
    ∷ movk d (imm / 2 ^ 32 % 2 ^ 16) 32
    ∷ movk d (imm / 2 ^ 48 % 2 ^ 16) 48
    ∷ []

-- `if (num_bits <= 0 || num_bits > limit) num_bits = limit;`
unfoldable pub bits_compared : ℕ → ℕ → ℕ
bits_compared limit num_bits = if num_bits == 0 || ltb limit num_bits then limit else num_bits

-- One bit of an equality test, of a KIM test, and of the two orders, its plane in register `t`.
unfoldable pub eq_bit : ℕ → ℕ → ℕ → ℕ → List Instr
eq_bit eq imm b t = if imm / 2 ^ b % 2 == 0 then bic eq eq t ∷ [] else and_ eq eq t ∷ []

unfoldable pub kim_bit : ℕ → ℕ → ℕ → ℕ → List Instr
kim_bit eq imm b t = if imm / 2 ^ b % 2 == 1 then and_ eq eq t ∷ [] else []

unfoldable pub gt_bit : ℕ → ℕ → ℕ → ℕ → ℕ → ℕ → List Instr
gt_bit gt eq tmp_and imm b t =
    if imm / 2 ^ b % 2 == 0
    then and_ tmp_and eq t ∷ orr gt gt tmp_and ∷ bic eq eq t ∷ []
    else and_ eq eq t ∷ []

unfoldable pub lt_bit : ℕ → ℕ → ℕ → ℕ → ℕ → ℕ → List Instr
lt_bit lt eq tmp_and imm b t =
    if imm / 2 ^ b % 2 == 1
    then bic tmp_and eq t ∷ orr lt lt tmp_and ∷ and_ eq eq t ∷ []
    else bic eq eq t ∷ []

-- The loop over the planes from the highest of `k` down, one at a time.
unfoldable pub emit_single : (ℕ → ℕ → List Instr) → ℕ → ℕ → ℕ → List Instr
emit_single emit_bit tile t zero = []
emit_single emit_bit tile t (suc b) =
    ldr t tile (b * 8) ∷ emit_bit b t ++ emit_single emit_bit tile t b

-- Four planes in a round, then one at a time.
unfoldable pub emit_quads : (ℕ → ℕ → List Instr) → ℕ → ℕ → ℕ → ℕ → ℕ → ℕ → List Instr
unfolding emit_single
emit_quads emit_bit tile t0 t1 t2 t3 (suc (suc (suc (suc b)))) =
    ldr t0 tile (suc (suc (suc b)) * 8)
    ∷ ldr t1 tile (suc (suc b) * 8)
    ∷ ldr t2 tile (suc b * 8)
    ∷ ldr t3 tile (b * 8)
    ∷ (emit_bit (suc (suc (suc b))) t0
        ++ (emit_bit (suc (suc b)) t1
            ++ (emit_bit (suc b) t2 ++ (emit_bit b t3 ++ emit_quads emit_bit tile t0 t1 t2 t3 b))))
emit_quads emit_bit tile t0 t1 t2 t3 (suc (suc (suc zero))) = emit_single emit_bit tile t0 3
emit_quads emit_bit tile t0 t1 t2 t3 (suc (suc zero)) = emit_single emit_bit tile t0 2
emit_quads emit_bit tile t0 t1 t2 t3 (suc zero) = emit_single emit_bit tile t0 1
emit_quads emit_bit tile t0 t1 t2 t3 zero = []

-- Two planes in a round, then the last.
unfoldable pub emit_pairs : (ℕ → ℕ → List Instr) → ℕ → ℕ → ℕ → ℕ → List Instr
unfolding emit_single
emit_pairs emit_bit tile t0 t1 (suc (suc b)) =
    ldr t0 tile (suc b * 8)
    ∷ ldr t1 tile (b * 8)
    ∷ (emit_bit (suc b) t0 ++ (emit_bit b t1 ++ emit_pairs emit_bit tile t0 t1 b))
emit_pairs emit_bit tile t0 t1 (suc zero) = emit_single emit_bit tile t0 1
emit_pairs emit_bit tile t0 t1 zero = []

-- An equality or KIM comparison: destination, tile and four scratch registers, then the planes.
unfoldable pub compile_match :
    (ℕ → ℕ → ℕ → ℕ → List Instr) → ℕ → MicroOp → Alloc → Compiled (List Instr × Alloc)
unfolding get_reg get_scratch emit_quads bits_compared
compile_match emit_bit limit o m = do
  (eq, m) ← get_reg o.dest_reg m
  (tile, m) ← get_reg o.src_reg1 m
  t0 ← get_scratch gp_pool m.reg_map (eq ∷ tile ∷ [])
  t1 ← get_scratch gp_pool m.reg_map (eq ∷ tile ∷ t0 ∷ [])
  t2 ← get_scratch gp_pool m.reg_map (eq ∷ tile ∷ t0 ∷ t1 ∷ [])
  t3 ← get_scratch gp_pool m.reg_map (eq ∷ tile ∷ t0 ∷ t1 ∷ t2 ∷ [])
  done (
    mov_imm eq (2 ^ 64 - 1)
        ∷ emit_quads (emit_bit eq o.imm) tile t0 t1 t2 t3 (bits_compared limit o.src_reg2),
    m,
  )

-- A comparison of order: the result, `eq` and `tmp_and`, two registers for planes.
unfoldable pub compile_order :
    (ℕ → ℕ → ℕ → ℕ → ℕ → ℕ → List Instr) → MicroOp → Alloc → Compiled (List Instr × Alloc)
unfolding get_reg get_scratch emit_pairs bits_compared
compile_order emit_bit o m = do
  (dest, m) ← get_reg o.dest_reg m
  (tile, m) ← get_reg o.src_reg1 m
  eq ← get_scratch gp_pool m.reg_map (dest ∷ tile ∷ [])
  tmp_and ← get_scratch gp_pool m.reg_map (dest ∷ tile ∷ eq ∷ [])
  t0 ← get_scratch gp_pool m.reg_map (dest ∷ tile ∷ eq ∷ tmp_and ∷ [])
  t1 ← get_scratch gp_pool m.reg_map (dest ∷ tile ∷ eq ∷ tmp_and ∷ t0 ∷ [])
  done (
    mov_imm dest 0
        ∷ mov_imm eq (2 ^ 64 - 1)
        ∷ emit_pairs (emit_bit dest eq tmp_and o.imm) tile t0 t1 (bits_compared 64 o.src_reg2),
    m,
  )

-- An operation on two masks.
unfoldable pub compile_bits : (ℕ → ℕ → ℕ → Instr) → MicroOp → Alloc → Compiled (List Instr × Alloc)
unfolding get_reg
compile_bits instr o m = do
  (dest, m) ← get_reg o.dest_reg m
  (a, m) ← get_reg o.src_reg1 m
  (b, m) ← get_reg o.src_reg2 m
  done (instr dest a b ∷ [], m)

unfoldable pub compile_load : MicroOp → Alloc → Compiled (List Instr × Alloc)
unfolding get_reg emit_mov_imm64
compile_load o m = do
  (r, m) ← get_reg o.dest_reg m
  let offset = o.imm * tile_size % 2 ^ 64
  done (if offset == 0 then mov r 19 ∷ [] else emit_mov_imm64 8 offset ++ add r 19 8 ∷ [], m)

-- The call saves x9 to x15; `helper` is the address of the routine.
unfoldable pub compile_materialize : ℕ → MicroOp → Alloc → Compiled (List Instr × Alloc)
unfolding get_reg emit_mov_imm64
compile_materialize helper o m = do
  (tile, m) ← get_reg o.src_reg1 m
  done (
    stp_pre 9 10
          ∷ stp_pre 11 12
          ∷ stp_pre 13 14
          ∷ str_pre 15
          ∷ mov 0 tile
          ∷ mov 1 21
          ∷ emit_mov_imm64 8 helper
        ++ blr ∷ ldr_post 15 ∷ ldp_post 13 14 ∷ ldp_post 11 12 ∷ ldp_post 9 10 ∷ [],
    m,
  )

-- One micro-operation, by its opcode.
unfoldable pub compile_as : Opcode → ℕ → MicroOp → Alloc → Compiled (List Instr × Alloc)
unfolding compile_match compile_order compile_bits compile_load compile_materialize
compile_as load_tile helper o m = compile_load o m
compile_as bit_and_op helper o m = compile_bits and_ o m
compile_as bit_or_op helper o m = compile_bits orr o m
compile_as bit_xor_op helper o m = compile_bits eor o m
compile_as bit_bic helper o m = compile_bits bic o m
compile_as cmp_skeleton helper o m = compile_match (λ eq imm. eq_bit eq (imm % 2 ^ 32)) 32 o m
compile_as cmp_kim helper o m = compile_match kim_bit 64 o m
compile_as cmp_gt helper o m = compile_order gt_bit o m
compile_as cmp_lt helper o m = compile_order lt_bit o m
compile_as cmp_eq helper o m = compile_match eq_bit 64 o m
compile_as materialize_scalar helper o m = compile_materialize helper o m

unfoldable pub compile_ops : ℕ → List MicroOp → Alloc → Compiled (List Instr × Alloc)
unfolding compile_as
compile_ops helper [] m = done ([], m)
compile_ops helper (o ∷ ops) m = do
  (code, m) ← compile_as o.op helper o m
  (rest, m) ← compile_ops helper ops m
  done (code ++ rest, m)

-- The frame of the function: x3 is the delete mask, and x0 to x2 are copied.
abbrev pub prologue : List Instr
prologue =
    stp_pre 29 30
    ∷ mov 29 31
    ∷ stp_pre 19 20
    ∷ stp_pre 21 22
    ∷ stp_pre 23 24
    ∷ stp_pre 25 26
    ∷ stp_pre 27 28
    ∷ str_pre 3
    ∷ mov 19 0
    ∷ mov 20 1
    ∷ mov 21 2
    ∷ []

abbrev pub epilogue : List Instr
epilogue =
    add_sp
    ∷ ldp_post 27 28
    ∷ ldp_post 25 26
    ∷ ldp_post 23 24
    ∷ ldp_post 21 22
    ∷ ldp_post 19 20
    ∷ ldp_post 29 30
    ∷ []

unfoldable pub last_dest : MicroOp → List MicroOp → ℕ
last_dest o [] = o.dest_reg
last_dest o (p ∷ ops) = last_dest p ops

-- The code that moves the result to x0.
unfoldable pub compile_result : List MicroOp → Alloc → Compiled (List Instr)
unfolding get_reg last_dest
compile_result [] m = done (mov_imm 0 0 ∷ [])
compile_result (o ∷ ops) m = do
  (res, m) ← get_reg (last_dest o ops) m
  done (ldr_sp 8 ∷ and_ 0 res 8 ∷ [])

-- `MicroOpCompiler::Compile`.
unfoldable pub compile : ℕ → List MicroOp → Compiled (List Instr)
unfolding compile_ops compile_result
compile helper ops = do
  (code, m) ← compile_ops helper ops (record { reg_map = []; next_gp = 0 })
  result ← compile_result ops m
  done (prologue ++ (code ++ (result ++ epilogue)))
