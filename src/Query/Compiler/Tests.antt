-- ===== src/Query/Compiler/Tests.antt =====
-- A query on one column: the rows above a constant.
use green_gate.Base.{
  ℕ, ◌+◌, ◌-◌, ◌^◌, ◌<◌, ◌≡◌, refl, bit_and, true, List, [], ◌∷◌, ◌==◌, if◌then◌else◌, arith,
}
use green_gate.Base.Assoc.{lookup}
use green_gate.Query.Machine.{Machine, Instr, write, push_slot, pop_slot, top_slot, exec, exec_all}
use green_gate.Query.Compiler.{
  out_of_scratch, gp_pool, load_tile, cmp_gt, MicroOp, Compiled, done, get_reg, is_mapped,
  is_listed, get_scratch, emit_mov_imm64, bits_compared, gt_bit, emit_single, emit_pairs,
  compile_order, compile_load, compile_as, compile_ops, last_dest, compile_result, compile,
}
use green_gate.Query.Compiler.Registers.{IsAnswer, get_scratch-IsAnswer}
use green_gate.Query.Compiler.Semantics.{Evaluation, is_scoped, sources_defined}
use green_gate.Query.Compiler.Laws.{compile_lem}

abbrev load : MicroOp
load = record {
  op = load_tile;
  dest_reg = 0;
  src_reg1 = 2 ^ 32 - 1;
  src_reg2 = 2 ^ 32 - 1;
  imm = 1;
}

-- The numbers of two bits above 1.
abbrev above_one : MicroOp
above_one = record { op = cmp_gt; dest_reg = 1; src_reg1 = 0; src_reg2 = 2; imm = 1 }

-- Rows with the numbers 1, 2 and 3 in the second tile, at address 4096.
abbrev machine : Machine
machine = record {
  regs = λ r. if r == 0 then 4096 else (if r == 3 then 6 else (if r == 31 then 65536 else 0));
  mem = λ a. if a == 4096 + 576 then 5 else (if a == 4096 + 584 then 6 else 0);
  stack = [];
  dest = [];
  left_by_call = λ r. 0;
}

abbrev code_of : Compiled (List Instr) → List Instr
code_of (done code) = code
code_of c = []

abbrev code : List Instr
code = code_of (compile 0 (load ∷ above_one ∷ []))

compile-above_one : compile 0 (load ∷ above_one ∷ []) ≡ done code
unfolding compile compile_ops compile_as compile_load compile_order compile_result get_reg
    get_scratch lookup is_mapped is_listed emit_mov_imm64 emit_pairs emit_single gt_bit
    bits_compared last_dest
compile-above_one = refl

scoped-above_one : is_scoped [] (load ∷ above_one ∷ []) ≡ true
unfolding is_scoped sources_defined is_listed
scoped-above_one = refl

machine-words : (a : ℕ) → machine.mem a < 2 ^ 64
machine-words a = ground arith

compile_lem_example :
    (env' : ℕ → ℕ) × Evaluation machine.mem (machine.regs 0) (load ∷ above_one ∷ []) (λ v. 0) env'
    × ((exec_all code machine).regs 0
        ≡ bit_and (env' (last_dest load (above_one ∷ []))) (machine.regs 3))
compile_lem_example =
    compile_lem 0 load (above_one ∷ []) code (λ v. 0) machine compile-above_one scoped-above_one
      machine-words (omega arith)

-- The rows 1 and 2.
exec_all-code : (exec_all code machine).regs 0 ≡ 6
unfolding compile compile_ops compile_as compile_load compile_order compile_result get_reg
    get_scratch lookup is_mapped is_listed emit_mov_imm64 emit_pairs emit_single gt_bit
    bits_compared last_dest exec_all exec write push_slot pop_slot top_slot
exec_all-code = refl

-- The first register holds a virtual register, and the second one is excluded.
get_scratch-IsAnswer_example :
    IsAnswer gp_pool ((0, 22) ∷ []) (23 ∷ []) (get_scratch gp_pool ((0, 22) ∷ []) (23 ∷ []))
get_scratch-IsAnswer_example = get_scratch-IsAnswer gp_pool ((0, 22) ∷ []) (23 ∷ [])

-- With both registers of a small pool in use, there is no scratch register.
nothing_left : get_scratch (22 ∷ 23 ∷ []) ((0, 22) ∷ []) (23 ∷ []) ≡ out_of_scratch
unfolding get_scratch is_mapped is_listed
nothing_left = refl
