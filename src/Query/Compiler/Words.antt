-- ===== src/Query/Compiler/Words.antt =====
-- The code of the operations on masks and of the addresses of tiles.
use green_gate.Base.{
  ℕ, ◌+◌, ◌*◌, ◌/◌, ◌%◌, ◌^◌, ◌<◌, ◌≡◌, refl, sym, ap, ap₂, subst, ◌∙◌, inl, inr, Bool, false, ◌||◌,
  List, [], ◌∷◌, ◌++◌, arith, ◌==◌, if◌then◌else◌, Bool-cases,
}
use green_gate.Base.Assoc.{nat_eq}
use green_gate.Query.Machine.{Instr, mov, movz, movk, add, Machine, write, exec, exec_all}
use green_gate.Query.Compiler.{
  MicroOp, Compiled, done, Alloc, get_reg, compile_bits, compile_load, emit_mov_imm64,
}
use green_gate.Query.Compiler.Loops.{exec_all-append, rest, IsFramed}
use green_gate.Query.Compiler.Match.{write_self, write_other}
use green_gate.Query.Compiler.Registers.{
  bind-done, bind-known, done_value, Maps, mapped-IsPooled, get_reg_old, get_reg-Extends,
}
use green_gate.Storage.Codec.{tile_size}
use green_gate.Query.Compiler.Running.{IsRunning, IsPooled-no19, other_register, finish, Did}

-- `emit_mov_imm64` writes the constant to its register and nothing else.
emit_mov_imm64_lem :
    (d imm : ℕ) (s : Machine)
    → imm < 2 ^ 64
    → ((exec_all (emit_mov_imm64 d imm) s).regs d ≡ imm)
      × IsFramed (λ u. u == d) s (exec_all (emit_mov_imm64 d imm) s)
unfolding emit_mov_imm64 exec_all exec
emit_mov_imm64_lem d imm s h =
    let s₁ = exec (movz d (imm % 2 ^ 16) 0) s in
    let s₂ = exec (movk d (imm / 2 ^ 16 % 2 ^ 16) 16) s₁ in
    let s₃ = exec (movk d (imm / 2 ^ 32 % 2 ^ 16) 32) s₂ in
    let s₄ = exec (movk d (imm / 2 ^ 48 % 2 ^ 16) 48) s₃ in
    let e₁ : s₁.regs d ≡ imm % 2 ^ 16 = write_self d _ s.regs ∙ omega arith in
    let e₂ : s₂.regs d ≡ imm % 2 ^ 32 = write_self d _ s₁.regs ∙ omega (arith, e₁) in
    let e₃ : s₃.regs d ≡ imm % 2 ^ 48 = write_self d _ s₂.regs ∙ omega (arith, e₂) in
    (
      write_self d _ s₃.regs ∙ omega (arith, e₃),
      (
        λ u hu.
            write_other d _ s₃.regs u hu
            ∙ write_other d _ s₂.regs u hu
            ∙ write_other d _ s₁.regs u hu
            ∙ write_other d _ s.regs u hu,
        refl,
      ),
    )

-- Code that changes the destination, and x8 besides, and leaves a value in it.
module _ (mem : ℕ → ℕ) (base : ℕ) (env : ℕ → ℕ) (d : ℕ) (m m' : Alloc) (code : List Instr)
    (s : Machine) (run : IsRunning mem base env m s) (base_lt : base < 2 ^ 64) where
  did_value :
      (r : ℕ) (m₁ : Alloc) (emitted : List Instr) (w : ℕ)
      → get_reg d m ≡ done (r, m₁)
      → IsFramed (λ u. u == r || u == 8) s (exec_all emitted s)
      → (exec_all emitted s).regs r ≡ w
      → ◌≡◌ {A = Compiled (List Instr × Alloc)} (done (emitted, m₁)) (done (code, m'))
      → Did mem base env d m m' s (exec_all code s) (λ v. v ≡ w)
  did_value r m₁ emitted w e framed value same =
      let ext = get_reg-Extends d r m m₁ run.0 e in
      let s' = exec_all emitted s in
      let no8 : (u q : ℕ) → Maps m₁ u q → (q == 8) ≡ false =
        λ u q h. let pooled = mapped-IsPooled m₁ u q ext.0 h in ground (arith, pooled.0) in
      subst (λ c. Did mem base env d m c.1 s (exec_all c.0 s) (λ v. v ≡ w))
        (done_value (emitted, m₁) (code, m') same)
        (
          s'.regs r,
          value,
          finish mem base env d r (λ u. u == r || u == 8) m m₁ s s' run ext framed
              (or_false (IsPooled-no19 r (mapped-IsPooled m₁ d r ext.0 ext.1)) refl)
              (λ u q other h. or_false (other_register d r u q m m₁ ext other h) (no8 u q h)),
          ap (λ p. p.1) framed.1,
          ext.2,
          (r, ext.1),
        )
    where
      or_false : {a b : Bool} → a ≡ false → b ≡ false → (a || b) ≡ false
      or_false ha hb = rw (ha, hb) refl

  pub bits_correct :
      (instr : ℕ → ℕ → ℕ → Instr) (op : ℕ → ℕ → ℕ) (o : MicroOp) (q1 q2 : ℕ)
      → o.dest_reg ≡ d
      → ((r a b : ℕ) (s : Machine)
          → exec (instr r a b) s ≡ record s { regs = write r (op (s.regs a) (s.regs b)) s.regs })
      → Maps m o.src_reg1 q1
      → Maps m o.src_reg2 q2
      → compile_bits instr o m ≡ done (code, m')
      → Did mem base env d m m' s (exec_all code s) (λ v. v ≡ op (env o.src_reg1) (env o.src_reg2))
  unfolding compile_bits exec_all
  bits_correct instr op o q1 q2 d_eq acts mapped1 mapped2 h =
      let ((r, m₁), e, h₁) = bind-done (get_reg o.dest_reg m) _ _ h in
      let e' : get_reg d m ≡ done (r, m₁) = ap (λ v. get_reg v m) (sym d_eq) ∙ e in
      let keeps = (get_reg-Extends d r m m₁ run.0 e').2 in
      let h₂ =
        bind-known (get_reg o.src_reg1 m₁) (q1, m₁) _ _
          (get_reg_old o.src_reg1 q1 m₁ (keeps o.src_reg1 q1 mapped1)) h₁ in
      let h₃ =
        bind-known (get_reg o.src_reg2 m₁) (q2, m₁) _ _
          (get_reg_old o.src_reg2 q2 m₁ (keeps o.src_reg2 q2 mapped2)) h₂ in
      did_value r m₁ (instr r q1 q2 ∷ []) (op (env o.src_reg1) (env o.src_reg2)) e' (framed r)
        (value r) h₃
    where
      framed : (r : ℕ) → IsFramed (λ u. u == r || u == 8) s (exec (instr r q1 q2) s)
      framed r = (
        λ u hu. ap (λ t. t.regs u) (acts r q1 q2 s) ∙ write_other r _ s.regs u (ground (arith, hu)),
        ap rest (acts r q1 q2 s),
      )

      value : (r : ℕ) → (exec (instr r q1 q2) s).regs r ≡ op (env o.src_reg1) (env o.src_reg2)
      value r =
          ap (λ t. t.regs r) (acts r q1 q2 s)
          ∙ write_self r _ s.regs
          ∙ ap₂ op (run.1 o.src_reg1 q1 mapped1) (run.1 o.src_reg2 q2 mapped2)

  -- The address of a tile, by one instruction for the first.
  load_emitted :
      (r offset : ℕ)
      → offset < 2 ^ 64
      → let s' =
          exec_all
            (if offset == 0 then mov r 19 ∷ [] else emit_mov_imm64 8 offset ++ add r 19 8 ∷ [])
            s in
        IsFramed (λ u. u == r || u == 8) s s' × (s'.regs r ≡ (base + offset) % 2 ^ 64)
  unfolding exec_all exec
  load_emitted r offset h = elim (Bool-cases (offset == 0)) [
    | inl first ↦
        let e : offset ≡ 0 = ground arith in
        rw (first) (
          (λ u hu. write_other r _ s.regs u (ground (arith, hu)), refl),
          write_self r _ s.regs ∙ run.2 ∙ omega (arith, e, base_lt),
        )
    | inr later ↦
        let s₁ = exec_all (emit_mov_imm64 8 offset) s in
        let moved = emit_mov_imm64_lem 8 offset s h in
        let split = exec_all-append (emit_mov_imm64 8 offset) (add r 19 8 ∷ []) s in
        let kept19 = moved.1.0 19 refl in
        rw (later) (
          subst (λ t. IsFramed (λ u. u == r || u == 8) s t × (t.regs r ≡ (base + offset) % 2 ^ 64))
            (sym split)
            (
              (
                λ u hu.
                    write_other r _ s₁.regs u (ground (arith, hu))
                    ∙ moved.1.0 u (ground (arith, hu)),
                moved.1.1,
              ),
              write_self r _ s₁.regs ∙ omega (arith, moved.0, kept19, run.2),
            ))
  ]

  pub load_correct :
      (o : MicroOp)
      → o.dest_reg ≡ d
      → compile_load o m ≡ done (code, m')
      → Did mem base env d m m' s
          (exec_all code s)
          (λ v. v ≡ (base + o.imm * tile_size % 2 ^ 64) % 2 ^ 64)
  unfolding compile_load
  load_correct o d_eq h =
      let ((r, m₁), e, h₁) = bind-done (get_reg o.dest_reg m) _ _ h in
      let e' : get_reg d m ≡ done (r, m₁) = ap (λ v. get_reg v m) (sym d_eq) ∙ e in
      let offset = o.imm * tile_size % 2 ^ 64 in
      did_value r m₁
        (if offset == 0 then mov r 19 ∷ [] else emit_mov_imm64 8 offset ++ add r 19 8 ∷ [])
        ((base + offset) % 2 ^ 64) e' (load_emitted r offset (omega arith)).0
        (load_emitted r offset (omega arith)).1 h₁
