-- ===== src/Query/Machine.antt =====
-- The A64 instructions that src/lex/jit/micro_op_compiler.cpp emits, as the architecture defines
-- them: registers by number (31 is the stack pointer), memory by 64-bit words, and the stack by its
-- slots of 16 bytes. The called routine is `greengate_butterfly_transpose` of
-- src/lex/ingest/simd_transposer.cpp; by the calling convention it may change x0 to x18 and x30.
use green_gate.Base.{
  ℕ, zero, suc, ◌+◌, ◌-◌, ◌*◌, ◌/◌, ◌%◌, ◌^◌, bit_and, bit_or, bit_xor, Bool, ◌||◌, List, [], ◌∷◌,
  leb, ◌==◌, if◌then◌else◌,
}
use green_gate.Ingest.Transposer.{butterfly_transpose}

pub data Instr : Type 0 where
  mov_imm mov : ℕ → ℕ → Instr
  movz movk : ℕ → ℕ → ℕ → Instr
  add and_ orr eor bic : ℕ → ℕ → ℕ → Instr
  -- `ldr(d, Mem(base, offset))`
  ldr : ℕ → ℕ → ℕ → Instr
  -- `stp(a, b, Mem(sp, -16).pre())`, `str(a, Mem(sp, -16).pre())` and the loads that undo them.
  stp_pre ldp_post : ℕ → ℕ → Instr
  str_pre ldr_post : ℕ → Instr
  -- `ldr(d, Mem(sp, 0))` and `add(sp, sp, 16)`.
  ldr_sp : ℕ → Instr
  add_sp : Instr
  -- `blr`, with `greengate_butterfly_transpose` as its target.
  blr : Instr

-- `left_by_call` is what a call leaves in the registers that it may change.
pub record Machine : Type 0 where
  pub regs : ℕ → ℕ
  pub mem : ℕ → ℕ
  pub stack : List (ℕ × ℕ)
  pub dest : List ℕ
  pub left_by_call : ℕ → ℕ

unfoldable pub write : ℕ → ℕ → (ℕ → ℕ) → ℕ → ℕ
write d v regs r = if r == d then v else regs r

abbrev pub write_reg : ℕ → ℕ → Machine → Machine
write_reg d v s = record s { regs = write d v s.regs }

unfoldable pub push_slot : ℕ → ℕ → Machine → Machine
push_slot a b s = record s {
  regs = write 31 ((s.regs 31 + 2 ^ 64 - 16) % 2 ^ 64) s.regs;
  stack = (a, b) ∷ s.stack;
}

-- The slot on top, and the stack without it.
unfoldable pub top_slot : List (ℕ × ℕ) → ℕ × ℕ
top_slot [] = (0, 0)
top_slot (slot ∷ stack) = slot

unfoldable pub pop_slot : Machine → Machine
pop_slot s = record s {
  regs = write 31 ((s.regs 31 + 16) % 2 ^ 64) s.regs;
  stack = elim s.stack [ [] ↦ [] | slot ∷ stack ↦ stack ];
}

-- The words from an address on.
unfoldable pub words_at : (ℕ → ℕ) → ℕ → ℕ → List ℕ
words_at mem a zero = []
words_at mem a (suc n) = mem (a % 2 ^ 64) ∷ words_at mem (a + 8) n

-- The registers that a call may change.
unfoldable pub call_clobbers : ℕ → Bool
call_clobbers r = leb r 18 || r == 30

unfoldable pub exec : Instr → Machine → Machine
unfolding push_slot pop_slot words_at call_clobbers
exec (mov_imm d v) s = write_reg d v s
exec (mov d a) s = write_reg d (s.regs a) s
exec (movz d v shift) s = write_reg d (v * 2 ^ shift) s
exec (movk d v shift) s =
    let old = s.regs d in
    write_reg d (old % 2 ^ shift + v * 2 ^ shift + old / 2 ^ (shift + 16) * 2 ^ (shift + 16)) s
exec (add d a b) s = write_reg d ((s.regs a + s.regs b) % 2 ^ 64) s
exec (and_ d a b) s = write_reg d (bit_and (s.regs a) (s.regs b)) s
exec (orr d a b) s = write_reg d (bit_or (s.regs a) (s.regs b)) s
exec (eor d a b) s = write_reg d (bit_xor (s.regs a) (s.regs b)) s
exec (bic d a b) s = write_reg d (bit_and (s.regs a) (2 ^ 64 - 1 - s.regs b)) s
exec (ldr d base offset) s = write_reg d (s.mem ((s.regs base + offset) % 2 ^ 64)) s
exec (stp_pre a b) s = push_slot (s.regs a) (s.regs b) s
exec (str_pre a) s = push_slot (s.regs a) 0 s
exec (ldp_post a b) s =
    write_reg b (top_slot s.stack).1 (write_reg a (top_slot s.stack).0 (pop_slot s))
exec (ldr_post a) s = write_reg a (top_slot s.stack).0 (pop_slot s)
exec (ldr_sp d) s = write_reg d (top_slot s.stack).0 s
exec add_sp s = pop_slot s
exec blr s = record s {
  regs = λ r. if call_clobbers r then s.left_by_call r else s.regs r;
  dest = butterfly_transpose (words_at s.mem (s.regs 0) 64);
}

unfoldable pub exec_all : List Instr → Machine → Machine
unfolding exec
exec_all [] s = s
exec_all (i ∷ code) s = exec_all code (exec i s)
