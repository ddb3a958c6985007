-- ===== src/Query/Compiler/Laws.antt =====
-- `MicroOpCompiler::Compile` is correct: its code returns what the micro-operations compute on the
-- planes of the tiles.
use green_gate.Base.{
  ℕ, ◌-◌, ◌%◌, ◌^◌, ◌<◌, ◌≡◌, ◌≢◌, refl, sym, ap, ap₂, subst, ◌∙◌, inl, inr, bit_and, bit_or,
  bit_xor, Bool, true, false, not, ◌&&◌, List, [], ◌∷◌, ◌++◌, arith, ltb, ◌==◌, Bool-cases,
}
use green_gate.Base.Assoc.{lookup, nat_eq}
use green_gate.Query.Machine.{
  Instr, and_, orr, eor, bic, ldr_sp, Machine, write, push_slot, pop_slot, top_slot, exec, exec_all,
}
use green_gate.Query.Compiler.{
  Opcode, load_tile, bit_and_op, bit_or_op, bit_xor_op, bit_bic, cmp_skeleton, cmp_kim, cmp_gt,
  cmp_lt, cmp_eq, materialize_scalar, MicroOp, done, Alloc, get_reg, is_listed, bits_compared,
  eq_bit, kim_bit, gt_bit, lt_bit, compile_bits, compile_as, compile_ops, compile_result, last_dest,
  prologue, epilogue, compile,
}
use green_gate.Query.Compiler.Compare.{low_value, covers}
use green_gate.Query.Compiler.Loops.{exec_all-append}
use green_gate.Query.Compiler.Match.{write_self, write_other, eq_code, kim_code}
use green_gate.Query.Compiler.Order.{gt_code, lt_code}
use green_gate.Query.Compiler.Registers.{
  bind-done, bind-known, done_value, Maps, get_reg_old, mapped-IsPooled,
}
use green_gate.Query.Compiler.Running.{IsRunning, Did, planes_at}
use green_gate.Query.Compiler.Comparisons.{match_correct, order_correct}
use green_gate.Query.Compiler.Words.{bits_correct, load_correct}
use green_gate.Query.Compiler.Semantics.{
  Evaluates, Evaluation, finished, evaluated, sources_defined, is_scoped,
}

abbrev AreMapped : List ℕ → Alloc → Type 0
AreMapped defined m = (v : ℕ) → is_listed v defined ≡ true → (q : ℕ) × Maps m v q

both_left : (a b : Bool) → (a && b) ≡ true → a ≡ true
both_left a b h = ground (arith, h)

both_right : (a b : Bool) → (a && b) ≡ true → b ≡ true
both_right a b h = ground (arith, h)

not_same : (a b : ℕ) → not (a == b) ≡ true → a ≢ b
not_same a b h e = ground (arith, h, e)

module _ (mem : ℕ → ℕ) (word : (a : ℕ) → mem a < 2 ^ 64) (base : ℕ) (base_lt : base < 2 ^ 64)
    (helper : ℕ) where
  module _ (env : ℕ → ℕ) (o : MicroOp) (defined : List ℕ) (m m' : Alloc) (code : List Instr)
      (s : Machine) (run : IsRunning mem base env m s) (mapped : AreMapped defined m) where
    abbrev words : ℕ → ℕ
    words = planes_at mem (env o.src_reg1)

    bits_op :
        (instr : ℕ → ℕ → ℕ → Instr) (op : ℕ → ℕ → ℕ)
        → ((r a b : ℕ) (s : Machine)
            → exec (instr r a b) s ≡ record s { regs = write r (op (s.regs a) (s.regs b)) s.regs })
        → (is_listed o.src_reg1 defined && is_listed o.src_reg2 defined) ≡ true
        → compile_bits instr o m ≡ done (code, m')
        → Did mem base env o.dest_reg m m' s
            (exec_all code s)
            (λ v. v ≡ op (env o.src_reg1) (env o.src_reg2))
    bits_op instr op acts h c =
        let a =
          mapped o.src_reg1
            (both_left (is_listed o.src_reg1 defined) (is_listed o.src_reg2 defined) h) in
        let b =
          mapped o.src_reg2
            (both_right (is_listed o.src_reg1 defined) (is_listed o.src_reg2 defined) h) in
        bits_correct mem base env o.dest_reg m m' code s run base_lt instr op o a.0 b.0 refl acts
          a.1 b.1 c

    tile :
        (is_listed o.src_reg1 defined && not (o.dest_reg == o.src_reg1)) ≡ true
        → ((q : ℕ) × Maps m o.src_reg1 q) × (o.dest_reg ≢ o.src_reg1)
    tile h = (
      mapped o.src_reg1
          (both_left (is_listed o.src_reg1 defined) (not (o.dest_reg == o.src_reg1)) h),
      not_same o.dest_reg o.src_reg1
          (both_right (is_listed o.src_reg1 defined) (not (o.dest_reg == o.src_reg1)) h),
    )

    compile_as_lem :
        (op : Opcode)
        → sources_defined defined o op ≡ true
        → compile_as op helper o m ≡ done (code, m')
        → Did mem base env o.dest_reg m m' s (exec_all code s) (Evaluates mem base env o op)
    unfolding compile_as sources_defined exec
    compile_as_lem load_tile h c =
        load_correct mem base env o.dest_reg m m' code s run base_lt o refl c
    compile_as_lem bit_and_op h c = bits_op and_ bit_and (λ r a b t. refl) h c
    compile_as_lem bit_or_op h c = bits_op orr bit_or (λ r a b t. refl) h c
    compile_as_lem bit_xor_op h c = bits_op eor bit_xor (λ r a b t. refl) h c
    compile_as_lem bit_bic h c =
        bits_op bic (λ a b. bit_and a (2 ^ 64 - 1 - b)) (λ r a b t. refl) h c
    compile_as_lem cmp_skeleton h c =
        let (q, apart) = tile h in
        let n = bits_compared 32 o.src_reg2 in
        match_correct mem word base env o m m' code s run q.0 q.1
          (λ eq imm. eq_bit eq (imm % 2 ^ 32)) 32
          (λ r. low_value words n r == o.imm % 2 ^ 32 % 2 ^ n)
          (λ t eq t0 t1 t2 t3 a a0 a1 a2 a3 loaded.
            eq_code words (λ b. word _) n t eq t0 t1 t2 t3 a a0 a1 a2 a3 (o.imm % 2 ^ 32) s loaded)
          apart c
    compile_as_lem cmp_kim h c =
        let (q, apart) = tile h in
        let n = bits_compared 64 o.src_reg2 in
        match_correct mem word base env o m m' code s run q.0 q.1 kim_bit 64 (covers words o.imm n)
          (λ t eq t0 t1 t2 t3 a a0 a1 a2 a3 loaded.
            kim_code words (λ b. word _) n t eq t0 t1 t2 t3 a a0 a1 a2 a3 o.imm s loaded)
          apart c
    compile_as_lem cmp_eq h c =
        let (q, apart) = tile h in
        let n = bits_compared 64 o.src_reg2 in
        match_correct mem word base env o m m' code s run q.0 q.1 eq_bit 64
          (λ r. low_value words n r == o.imm % 2 ^ n)
          (λ t eq t0 t1 t2 t3 a a0 a1 a2 a3 loaded.
            eq_code words (λ b. word _) n t eq t0 t1 t2 t3 a a0 a1 a2 a3 o.imm s loaded)
          apart c
    compile_as_lem cmp_gt h c =
        let (q, apart) = tile h in
        let n = bits_compared 64 o.src_reg2 in
        order_correct mem word base env o m m' code s run q.0 q.1 gt_bit
          (λ r. ltb (o.imm % 2 ^ n) (low_value words n r))
          (λ t d eq tmp t0 t1 a a0 a1 a2 a3 loaded.
            gt_code words (λ b. word _) n t d eq tmp t0 t1 a a0 a1 a2 a3 o.imm s loaded)
          apart c
    compile_as_lem cmp_lt h c =
        let (q, apart) = tile h in
        let n = bits_compared 64 o.src_reg2 in
        order_correct mem word base env o m m' code s run q.0 q.1 lt_bit
          (λ r. ltb (low_value words n r) (o.imm % 2 ^ n))
          (λ t d eq tmp t0 t1 a a0 a1 a2 a3 loaded.
            lt_code words (λ b. word _) n t d eq tmp t0 t1 a a0 a1 a2 a3 o.imm s loaded)
          apart c
    compile_as_lem materialize_scalar h c = absurd (cc h)

  abbrev Ends : MicroOp → List MicroOp → (ℕ → ℕ) → Alloc → Machine → Machine → Type 0
  Ends o ops env m' s' s =
      (env' : ℕ → ℕ) × Evaluation mem base (o ∷ ops) env env'
      × IsRunning mem base env' m' s'
      × (s'.stack ≡ s.stack)
      × ((q : ℕ) × Maps m' (last_dest o ops) q)

  mapped_more :
      (d : ℕ) (defined : List ℕ) (m m' : Alloc)
      → AreMapped defined m
      → ((u q : ℕ) → Maps m u q → Maps m' u q)
      → ((r : ℕ) × Maps m' d r)
      → AreMapped (d ∷ defined) m'
  unfolding is_listed
  mapped_more d defined m m' mapped keeps new v h = elim (Bool-cases (d == v)) [
    | inl same ↦
        let e : d ≡ v = ground arith in (new.0, ap (λ u. lookup u m'.reg_map) (sym e) ∙ new.1)
    | inr other ↦ let old = mapped v (ground arith) in (old.0, keeps v old.0 old.1)
  ]

  -- A list of operations, which leaves the last destination in a register.
  compile_ops_lem :
      (o : MicroOp) (ops : List MicroOp) (env : ℕ → ℕ) (defined : List ℕ) (m m' : Alloc)
      (code : List Instr) (s : Machine)
      → IsRunning mem base env m s
      → AreMapped defined m
      → is_scoped defined (o ∷ ops) ≡ true
      → compile_ops helper (o ∷ ops) m ≡ done (code, m')
      → Ends o ops env m' (exec_all code s) s
  unfolding compile_ops is_scoped last_dest exec_all
  compile_ops_lem o [] env defined m m' code s run mapped scoped c =
      let ((first, m₁), e, c₁) = bind-done (compile_as o.op helper o m) _ _ c in
      let did =
        compile_as_lem env o defined m m₁ first s run mapped o.op
          (both_left (sources_defined defined o o.op) true scoped) e in
      let same = done_value (first ++ [], m₁) (code, m') c₁ in
      subst (λ p. Ends o [] env p.1 (exec_all p.0 s) s) same
        (subst (λ t. Ends o [] env m₁ t s) (sym (exec_all-append first [] s))
          (write o.dest_reg did.0 env, evaluated did.0 did.1 finished, did.2, did.3, did.5))
  compile_ops_lem o (o' ∷ ops) env defined m m' code s run mapped scoped c =
      let ((first, m₁), e, c₁) = bind-done (compile_as o.op helper o m) _ _ c in
      let ((later, m₂), e', c₂) = bind-done (compile_ops helper (o' ∷ ops) m₁) _ _ c₁ in
      let did =
        compile_as_lem env o defined m m₁ first s run mapped o.op
          (both_left (sources_defined defined o o.op) (is_scoped (o.dest_reg ∷ defined) (o' ∷ ops))
            scoped)
          e in
      let s₁ = exec_all first s in
      let ran =
        compile_ops_lem o' ops (write o.dest_reg did.0 env) (o.dest_reg ∷ defined) m₁ m₂ later s₁
          did.2 (mapped_more o.dest_reg defined m m₁ mapped did.4 did.5)
          (both_right (sources_defined defined o o.op) (is_scoped (o.dest_reg ∷ defined) (o' ∷ ops))
            scoped)
          e' in
      let same = done_value (first ++ later, m₂) (code, m') c₂ in
      subst (λ p. Ends o (o' ∷ ops) env p.1 (exec_all p.0 s) s) same
        (subst (λ t. Ends o (o' ∷ ops) env m₂ t s) (sym (exec_all-append first later s))
          (ran.0, evaluated did.0 did.1 ran.1, ran.2, ran.3 ∙ did.3, ran.4))

-- After the prologue, x19 has the address of the tiles and the delete mask is on top of the stack.
prologue-IsRunning :
    (env : ℕ → ℕ) (s : Machine)
    → IsRunning s.mem (s.regs 0) env (record { reg_map = []; next_gp = 0 }) (exec_all prologue s)
      × ((top_slot (exec_all prologue s).stack).0 ≡ s.regs 3)
unfolding exec_all exec push_slot write top_slot lookup
prologue-IsRunning env s = (
  (
    (λ v r h. absurd (cc h), λ v v' r h h'. absurd (cc h), omega arith),
    λ v q h. absurd (cc h),
    refl,
    refl,
  ),
  refl,
)

epilogue-result : (s : Machine) → (exec_all epilogue s).regs 0 ≡ s.regs 0
unfolding exec_all exec pop_slot write
epilogue-result s = refl

-- The code that masks the result.
result-value :
    (q : ℕ) (s : Machine)
    → (q == 8) ≡ false
    → (exec_all (ldr_sp 8 ∷ and_ 0 q 8 ∷ []) s).regs 0 ≡ bit_and (s.regs q) (top_slot s.stack).0
unfolding exec_all exec
result-value q s h =
    let s₁ = exec (ldr_sp 8) s in
    write_self 0 _ s₁.regs
    ∙ ap₂ bit_and (write_other 8 (top_slot s.stack).0 s.regs q h)
        (write_self 8 (top_slot s.stack).0 s.regs)

compiled :
    (helper : ℕ) (o : MicroOp) (ops : List MicroOp) (body result code : List Instr) (env : ℕ → ℕ)
    (s : Machine) (m : Alloc)
    → is_scoped [] (o ∷ ops) ≡ true
    → ((a : ℕ) → s.mem a < 2 ^ 64)
    → s.regs 0 < 2 ^ 64
    → compile_ops helper (o ∷ ops) (record { reg_map = []; next_gp = 0 }) ≡ done (body, m)
    → compile_result (o ∷ ops) m ≡ done result
    → prologue ++ (body ++ (result ++ epilogue)) ≡ code
    → (env' : ℕ → ℕ) × Evaluation s.mem (s.regs 0) (o ∷ ops) env env'
      × ((exec_all code s).regs 0 ≡ bit_and (env' (last_dest o ops)) (s.regs 3))
unfolding compile_result is_listed
compiled helper o ops body result code env s m scoped word base_lt e e' same =
    let s₁ = exec_all prologue s in
    let s₂ = exec_all body s₁ in
    let started = prologue-IsRunning env s in
    let ran =
      compile_ops_lem s.mem word (s.regs 0) base_lt helper o ops env []
        (record { reg_map = []; next_gp = 0 }) m body s₁ started.0 (λ v h. absurd (cc h)) scoped
        e in
    let q = ran.4.0 in
    let e₁ =
      bind-known (get_reg (last_dest o ops) m) (q, m) _ _
        (get_reg_old (last_dest o ops) q m ran.4.1) e' in
    let emitted = done_value (ldr_sp 8 ∷ and_ 0 q 8 ∷ []) result e₁ in
    let pooled = mapped-IsPooled m (last_dest o ops) q ran.2.0 ran.4.1 in
    let s₃ = exec_all result s₂ in
    let split : exec_all code s ≡ exec_all epilogue s₃ =
      ap (λ c. exec_all c s) (sym same)
      ∙ exec_all-append prologue (body ++ (result ++ epilogue)) s
      ∙ exec_all-append body (result ++ epilogue) s₁
      ∙ exec_all-append result epilogue s₂ in
    (
      ran.0,
      ran.1,
      ap (λ t. t.regs 0) split
          ∙ epilogue-result s₃
          ∙ ap (λ c. (exec_all c s₂).regs 0) (sym emitted)
          ∙ result-value q s₂ (ground (arith, pooled.0))
          ∙ ap₂ bit_and (ran.2.1 (last_dest o ops) q ran.4.1)
              (ap (λ p. (top_slot p).0) ran.3 ∙ started.1),
    )

-- The code compiled from operations returns the value of the last destination, of the active rows, if
-- no operation is MATERIALIZE_SCALAR, each reads only registers that operations before it write, and
-- no comparison writes the register that it reads: for tiles at the address in x0 (below `2 ^ 64`),
-- the delete mask in x3, and memory of 64-bit words, whatever the virtual registers held before. A
-- CMP_KIM yields the rows that have all bits of its operand, not those that are equal to it.
pub compile_lem :
    (helper : ℕ) (o : MicroOp) (ops : List MicroOp) (code : List Instr) (env : ℕ → ℕ) (s : Machine)
    → compile helper (o ∷ ops) ≡ done code
    → is_scoped [] (o ∷ ops) ≡ true
    → ((a : ℕ) → s.mem a < 2 ^ 64)
    → s.regs 0 < 2 ^ 64
    → (env' : ℕ → ℕ) × Evaluation s.mem (s.regs 0) (o ∷ ops) env env'
      × ((exec_all code s).regs 0 ≡ bit_and (env' (last_dest o ops)) (s.regs 3))
unfolding compile
compile_lem helper o ops code env s h scoped word base_lt =
    let start : Alloc = record { reg_map = []; next_gp = 0 } in
    let ((body, m), e, h₁) = bind-done (compile_ops helper (o ∷ ops) start) _ _ h in
    let (result, e', h₂) = bind-done (compile_result (o ∷ ops) m) _ _ h₁ in
    compiled helper o ops body result code env s m scoped word base_lt e e'
      (done_value (prologue ++ (body ++ (result ++ epilogue))) code h₂)
