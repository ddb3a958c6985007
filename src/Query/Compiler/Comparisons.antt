-- ===== src/Query/Compiler/Comparisons.antt =====
-- The code of the comparisons, with the registers that the allocation gives them.
use green_gate.Base.{
  ℕ, ◌+◌, ◌-◌, ◌*◌, ◌%◌, ◌^◌, ◌<◌, ◌≡◌, ◌≢◌, sym, ap, subst, ◌∙◌, Bool, false, List, [], ◌∷◌, ◌==◌,
}
use green_gate.Base.Assoc.{nat_eq}
use green_gate.Query.Machine.{Instr, mov_imm, Machine, exec_all}
use green_gate.Query.Compiler.{
  MicroOp, Compiled, done, Alloc, gp_pool, get_reg, get_scratch, bits_compared, emit_quads,
  emit_pairs, compile_match, compile_order,
}
use green_gate.Query.Compiler.Compare.{IsMask}
use green_gate.Query.Compiler.Loops.{IsFramed, IsLoaded}
use green_gate.Query.Compiler.Match.{IsApart, match_own}
use green_gate.Query.Compiler.Order.{order_own}
use green_gate.Query.Compiler.Registers.{
  bind-done, bind-known, done_value, Maps, mapped-IsPooled, Extends, get_reg_old, get_reg-Extends,
  get_scratch-IsApart, mapped-apart, listed-IsPooled,
}
use green_gate.Query.Compiler.Running.{
  IsRunning, IsPooled-no19, other_register, finish, all_false, differ_sym, Did, planes_at,
}

IsLoaded-tile :
    (mem : ℕ → ℕ) (base : ℕ) (env : ℕ → ℕ) (m : Alloc) (s : Machine) (v q n : ℕ)
    → IsRunning mem base env m s
    → Maps m v q
    → IsLoaded (planes_at mem (env v)) n q s
IsLoaded-tile mem base env m s v q n run h b b_lt =
    ap (λ (a : ℕ). s.mem ((a + b * 8) % 2 ^ 64)) (run.1 v q h)
    ∙ ap (λ (f : ℕ → ℕ). f ((env v + b * 8) % 2 ^ 64)) run.3

module _ (mem : ℕ → ℕ) (word : (a : ℕ) → mem a < 2 ^ 64) (base : ℕ) (env : ℕ → ℕ) (o : MicroOp)
    (m m' : Alloc) (code : List Instr) (s : Machine) (run : IsRunning mem base env m s) (q1 : ℕ)
    (mapped1 : Maps m o.src_reg1 q1) where
  module _ (r : ℕ) (m₁ : Alloc) (e : get_reg o.dest_reg m ≡ done (r, m₁))
      (apart : o.dest_reg ≢ o.src_reg1) where
    extended : Extends o.dest_reg r m m₁
    extended = get_reg-Extends o.dest_reg r m m₁ run.0 e

    mapped_after : Maps m₁ o.src_reg1 q1
    mapped_after = extended.2 o.src_reg1 q1 mapped1

    tile-IsApart : IsApart q1 (r ∷ [])
    tile-IsApart = (
      differ_sym q1 r (
          other_register o.dest_reg r o.src_reg1 q1 m m₁ extended (λ e. apart (sym e))
            mapped_after),
      tt,
    )

    dest_no19 : (19 == r) ≡ false
    dest_no19 = IsPooled-no19 r (mapped-IsPooled m₁ o.dest_reg r extended.0 extended.1)

    dest_other : (u q : ℕ) → u ≢ o.dest_reg → Maps m₁ u q → (q == r) ≡ false
    dest_other u q = other_register o.dest_reg r u q m m₁ extended

    -- Four more registers that are not in use.
    module _ (exclude0 exclude1 exclude2 exclude3 : List ℕ) (t0 t1 t2 t3 : ℕ)
        (e0 : get_scratch gp_pool m₁.reg_map exclude0 ≡ done t0)
        (e1 : get_scratch gp_pool m₁.reg_map exclude1 ≡ done t1)
        (e2 : get_scratch gp_pool m₁.reg_map exclude2 ≡ done t2)
        (e3 : get_scratch gp_pool m₁.reg_map exclude3 ≡ done t3) where
      own_no19 : match_own r t0 t1 t2 t3 19 ≡ false
      own_no19 =
          all_false dest_no19
            (IsPooled-no19 t0
              (listed-IsPooled t0 (get_scratch-IsApart gp_pool m₁.reg_map exclude0 t0 e0).0))
            (IsPooled-no19 t1
              (listed-IsPooled t1 (get_scratch-IsApart gp_pool m₁.reg_map exclude1 t1 e1).0))
            (IsPooled-no19 t2
              (listed-IsPooled t2 (get_scratch-IsApart gp_pool m₁.reg_map exclude2 t2 e2).0))
            (IsPooled-no19 t3
              (listed-IsPooled t3 (get_scratch-IsApart gp_pool m₁.reg_map exclude3 t3 e3).0))

      own_free : (u q : ℕ) → u ≢ o.dest_reg → Maps m₁ u q → match_own r t0 t1 t2 t3 q ≡ false
      own_free u q other mapped_u =
          all_false (dest_other u q other mapped_u)
            (mapped-apart m₁.reg_map t0 u q
              (get_scratch-IsApart gp_pool m₁.reg_map exclude0 t0 e0).1 mapped_u)
            (mapped-apart m₁.reg_map t1 u q
              (get_scratch-IsApart gp_pool m₁.reg_map exclude1 t1 e1).1 mapped_u)
            (mapped-apart m₁.reg_map t2 u q
              (get_scratch-IsApart gp_pool m₁.reg_map exclude2 t2 e2).1 mapped_u)
            (mapped-apart m₁.reg_map t3 u q
              (get_scratch-IsApart gp_pool m₁.reg_map exclude3 t3 e3).1 mapped_u)

      -- Code that changes only these registers and leaves the mask of a test in the destination.
      did_test :
          (emitted : List Instr) (test : ℕ → Bool)
          → IsFramed (match_own r t0 t1 t2 t3) s (exec_all emitted s)
          → IsMask ((exec_all emitted s).regs r) test
          → ◌≡◌ {A = Compiled (List Instr × Alloc)} (done (emitted, m₁)) (done (code, m'))
          → Did mem base env o.dest_reg m m' s (exec_all code s) (λ w. IsMask w test)
      did_test emitted test framed mask same =
          let s' = exec_all emitted s in
          subst (λ c. Did mem base env o.dest_reg m c.1 s (exec_all c.0 s) (λ w. IsMask w test))
            (done_value (emitted, m₁) (code, m') same)
            (
              s'.regs r,
              mask,
              finish mem base env o.dest_reg r (match_own r t0 t1 t2 t3) m m₁ s s' run extended
                  framed own_no19 own_free,
              ap (λ p. p.1) framed.1,
              extended.2,
              (r, extended.1),
            )

  module _ (emit_bit : ℕ → ℕ → ℕ → ℕ → List Instr) (limit : ℕ) (test : ℕ → Bool)
      (runs : (tile eq t0 t1 t2 t3 : ℕ)
        → IsApart tile (eq ∷ [])
        → IsApart t0 (eq ∷ tile ∷ [])
        → IsApart t1 (eq ∷ tile ∷ t0 ∷ [])
        → IsApart t2 (eq ∷ tile ∷ t0 ∷ t1 ∷ [])
        → IsApart t3 (eq ∷ tile ∷ t0 ∷ t1 ∷ t2 ∷ [])
        → let n = bits_compared limit o.src_reg2 in
          let s' =
            exec_all
              (mov_imm eq (2 ^ 64 - 1) ∷ emit_quads (emit_bit eq o.imm) tile t0 t1 t2 t3 n)
              s in
          IsLoaded (planes_at mem (env o.src_reg1)) n tile s
          → IsFramed (match_own eq t0 t1 t2 t3) s s' × IsMask (s'.regs eq) test)
      (apart : o.dest_reg ≢ o.src_reg1) where
    match_done :
        (r : ℕ) (m₁ : Alloc)
        → get_reg o.dest_reg m ≡ done (r, m₁)
        → (t0 t1 t2 t3 : ℕ) → get_scratch gp_pool m₁.reg_map (r ∷ q1 ∷ []) ≡ done t0
        → get_scratch gp_pool m₁.reg_map (r ∷ q1 ∷ t0 ∷ []) ≡ done t1
        → get_scratch gp_pool m₁.reg_map (r ∷ q1 ∷ t0 ∷ t1 ∷ []) ≡ done t2
        → get_scratch gp_pool m₁.reg_map (r ∷ q1 ∷ t0 ∷ t1 ∷ t2 ∷ []) ≡ done t3
        → let emitted =
            mov_imm r (2 ^ 64 - 1)
            ∷ emit_quads (emit_bit r o.imm) q1 t0 t1 t2 t3 (bits_compared limit o.src_reg2) in
          ◌≡◌ {A = Compiled (List Instr × Alloc)} (done (emitted, m₁)) (done (code, m'))
          → Did mem base env o.dest_reg m m' s (exec_all code s) (λ w. IsMask w test)
    match_done r m₁ e t0 t1 t2 t3 e0 e1 e2 e3 same =
        let n = bits_compared limit o.src_reg2 in
        let made =
          runs q1 r t0 t1 t2 t3 (tile-IsApart r m₁ e apart)
            (get_scratch-IsApart gp_pool m₁.reg_map (r ∷ q1 ∷ []) t0 e0).2
            (get_scratch-IsApart gp_pool m₁.reg_map (r ∷ q1 ∷ t0 ∷ []) t1 e1).2
            (get_scratch-IsApart gp_pool m₁.reg_map (r ∷ q1 ∷ t0 ∷ t1 ∷ []) t2 e2).2
            (get_scratch-IsApart gp_pool m₁.reg_map (r ∷ q1 ∷ t0 ∷ t1 ∷ t2 ∷ []) t3 e3).2
            (IsLoaded-tile mem base env m s o.src_reg1 q1 n run mapped1) in
        did_test r m₁ e apart (r ∷ q1 ∷ []) (r ∷ q1 ∷ t0 ∷ []) (r ∷ q1 ∷ t0 ∷ t1 ∷ [])
          (r ∷ q1 ∷ t0 ∷ t1 ∷ t2 ∷ []) t0 t1 t2 t3 e0 e1 e2 e3
          (mov_imm r (2 ^ 64 - 1) ∷ emit_quads (emit_bit r o.imm) q1 t0 t1 t2 t3 n) test made.0
          made.1 same

    pub match_correct :
        compile_match emit_bit limit o m ≡ done (code, m')
        → Did mem base env o.dest_reg m m' s (exec_all code s) (λ w. IsMask w test)
    unfolding compile_match
    match_correct h =
        let ((r, m₁), e, h₁) = bind-done (get_reg o.dest_reg m) _ _ h in
        let h₂ =
          bind-known (get_reg o.src_reg1 m₁) (q1, m₁) _ _
            (get_reg_old o.src_reg1 q1 m₁ (mapped_after r m₁ e apart)) h₁ in
        let (t0, e0, h₃) = bind-done (get_scratch gp_pool m₁.reg_map (r ∷ q1 ∷ [])) _ _ h₂ in
        let (t1, e1, h₄) = bind-done (get_scratch gp_pool m₁.reg_map (r ∷ q1 ∷ t0 ∷ [])) _ _ h₃ in
        let (t2, e2, h₅) =
          bind-done (get_scratch gp_pool m₁.reg_map (r ∷ q1 ∷ t0 ∷ t1 ∷ [])) _ _ h₄ in
        let (t3, e3, h₆) =
          bind-done (get_scratch gp_pool m₁.reg_map (r ∷ q1 ∷ t0 ∷ t1 ∷ t2 ∷ [])) _ _ h₅ in
        match_done r m₁ e t0 t1 t2 t3 e0 e1 e2 e3 h₆

  module _ (emit_bit : ℕ → ℕ → ℕ → ℕ → ℕ → ℕ → List Instr) (test : ℕ → Bool)
      (runs : (tile dest eq tmp t0 t1 : ℕ)
        → IsApart tile (dest ∷ [])
        → IsApart eq (dest ∷ tile ∷ [])
        → IsApart tmp (dest ∷ tile ∷ eq ∷ [])
        → IsApart t0 (dest ∷ tile ∷ eq ∷ tmp ∷ [])
        → IsApart t1 (dest ∷ tile ∷ eq ∷ tmp ∷ t0 ∷ [])
        → let n = bits_compared 64 o.src_reg2 in
          let s' =
            exec_all
              (mov_imm dest 0
                ∷ mov_imm eq (2 ^ 64 - 1)
                ∷ emit_pairs (emit_bit dest eq tmp o.imm) tile t0 t1 n)
              s in
          IsLoaded (planes_at mem (env o.src_reg1)) n tile s
          → IsFramed (order_own dest eq tmp t0 t1) s s' × IsMask (s'.regs dest) test)
      (apart : o.dest_reg ≢ o.src_reg1) where
    order_done :
        (r : ℕ) (m₁ : Alloc)
        → get_reg o.dest_reg m ≡ done (r, m₁)
        → (eq tmp t0 t1 : ℕ) → get_scratch gp_pool m₁.reg_map (r ∷ q1 ∷ []) ≡ done eq
        → get_scratch gp_pool m₁.reg_map (r ∷ q1 ∷ eq ∷ []) ≡ done tmp
        → get_scratch gp_pool m₁.reg_map (r ∷ q1 ∷ eq ∷ tmp ∷ []) ≡ done t0
        → get_scratch gp_pool m₁.reg_map (r ∷ q1 ∷ eq ∷ tmp ∷ t0 ∷ []) ≡ done t1
        → let emitted =
            mov_imm r 0
            ∷ mov_imm eq (2 ^ 64 - 1)
            ∷ emit_pairs (emit_bit r eq tmp o.imm) q1 t0 t1 (bits_compared 64 o.src_reg2) in
          ◌≡◌ {A = Compiled (List Instr × Alloc)} (done (emitted, m₁)) (done (code, m'))
          → Did mem base env o.dest_reg m m' s (exec_all code s) (λ w. IsMask w test)
    order_done r m₁ e eq tmp t0 t1 e0 e1 e2 e3 same =
        let n = bits_compared 64 o.src_reg2 in
        let made =
          runs q1 r eq tmp t0 t1 (tile-IsApart r m₁ e apart)
            (get_scratch-IsApart gp_pool m₁.reg_map (r ∷ q1 ∷ []) eq e0).2
            (get_scratch-IsApart gp_pool m₁.reg_map (r ∷ q1 ∷ eq ∷ []) tmp e1).2
            (get_scratch-IsApart gp_pool m₁.reg_map (r ∷ q1 ∷ eq ∷ tmp ∷ []) t0 e2).2
            (get_scratch-IsApart gp_pool m₁.reg_map (r ∷ q1 ∷ eq ∷ tmp ∷ t0 ∷ []) t1 e3).2
            (IsLoaded-tile mem base env m s o.src_reg1 q1 n run mapped1) in
        did_test r m₁ e apart (r ∷ q1 ∷ []) (r ∷ q1 ∷ eq ∷ []) (r ∷ q1 ∷ eq ∷ tmp ∷ [])
          (r ∷ q1 ∷ eq ∷ tmp ∷ t0 ∷ []) eq tmp t0 t1 e0 e1 e2 e3
          (mov_imm r 0 ∷ mov_imm eq (2 ^ 64 - 1) ∷ emit_pairs (emit_bit r eq tmp o.imm) q1 t0 t1 n)
          test made.0 made.1 same

    pub order_correct :
        compile_order emit_bit o m ≡ done (code, m')
        → Did mem base env o.dest_reg m m' s (exec_all code s) (λ w. IsMask w test)
    unfolding compile_order
    order_correct h =
        let ((r, m₁), e, h₁) = bind-done (get_reg o.dest_reg m) _ _ h in
        let h₂ =
          bind-known (get_reg o.src_reg1 m₁) (q1, m₁) _ _
            (get_reg_old o.src_reg1 q1 m₁ (mapped_after r m₁ e apart)) h₁ in
        let (eq, e0, h₃) = bind-done (get_scratch gp_pool m₁.reg_map (r ∷ q1 ∷ [])) _ _ h₂ in
        let (tmp, e1, h₄) = bind-done (get_scratch gp_pool m₁.reg_map (r ∷ q1 ∷ eq ∷ [])) _ _ h₃ in
        let (t0, e2, h₅) =
          bind-done (get_scratch gp_pool m₁.reg_map (r ∷ q1 ∷ eq ∷ tmp ∷ [])) _ _ h₄ in
        let (t1, e3, h₆) =
          bind-done (get_scratch gp_pool m₁.reg_map (r ∷ q1 ∷ eq ∷ tmp ∷ t0 ∷ [])) _ _ h₅ in
        order_done r m₁ e eq tmp t0 t1 e0 e1 e2 e3 h₆
