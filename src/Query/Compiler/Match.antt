-- ===== src/Query/Compiler/Match.antt =====
-- The code of the comparisons for equality and of the KIM test leaves the mask of the rows that
-- pass in its register.
use green_gate.Base.{
  ℕ, suc, ◌-◌, ◌/◌, ◌%◌, ◌^◌, ◌<◌, ◌≡◌, refl, sym, ap, subst, ◌∙◌, inl, inr, Bool, true, false, not,
  ◌&&◌, ◌||◌, List, [], ◌∷◌, arith, ltb, ◌==◌, ==_self, if◌then◌else◌, Bool-cases,
}
use green_gate.Base.Bits.{bit}
use native.Mathlib.Nat.{one-le-pow, div-eq_of_lt}
use green_gate.Base.Loops.{all_below, all_below-true, all_below_ext, all_below-from}
use green_gate.Query.Machine.{Instr, mov_imm, Machine, write, exec, exec_all}
use green_gate.Query.Compiler.{eq_bit, kim_bit, emit_quads}
use green_gate.Query.Compiler.Compare.{
  low_value, covers, digit-low_value, digit-mod, same_above, low_value-lt, IsMask, IsMask-and,
  IsMask-bic, IsMask-ones,
}
use green_gate.Query.Compiler.Loops.{
  IsFramed, IsFramed-trans, IsLoaded, framed-IsLoaded, quads_reach,
}

-- The registers of a comparison differ from each other and from that of the tile.
abbrev pub IsApart : ℕ → List ℕ → Type 0
IsApart r [] = Unit
IsApart r (q ∷ qs) = ((q == r) ≡ false) × IsApart r qs

pub write_self : (d v : ℕ) (regs : ℕ → ℕ) → write d v regs d ≡ v
unfolding write
write_self d v regs = ground arith

pub write_other : (d v : ℕ) (regs : ℕ → ℕ) (u : ℕ) → (u == d) ≡ false → write d v regs u ≡ regs u
unfolding write
write_other d v regs u h = rw (h) refl

-- The registers that such a comparison changes.
abbrev pub match_own : ℕ → ℕ → ℕ → ℕ → ℕ → ℕ → Bool
match_own eq t0 t1 t2 t3 u = u == eq || u == t0 || u == t1 || u == t2 || u == t3

module _ (words : ℕ → ℕ) (word : (b : ℕ) → words b < 2 ^ 64) (n tile eq t0 t1 t2 t3 : ℕ)
    (tile_apart : IsApart tile (eq ∷ [])) (t0_apart : IsApart t0 (eq ∷ tile ∷ []))
    (t1_apart : IsApart t1 (eq ∷ tile ∷ t0 ∷ [])) (t2_apart : IsApart t2 (eq ∷ tile ∷ t0 ∷ t1 ∷ []))
    (t3_apart : IsApart t3 (eq ∷ tile ∷ t0 ∷ t1 ∷ t2 ∷ [])) where
  abbrev acc : ℕ → Bool
  acc u = u == eq

  -- The loop, for the code of a plane that keeps a mask by a row test for each number of planes left.
  match_loop :
      (emit_bit : ℕ → ℕ → List Instr) (test : ℕ → ℕ → Bool)
      → ((b t : ℕ) (s : Machine)
          → b < n
          → (t == eq) ≡ false
          → s.regs t ≡ words b
          → IsMask (s.regs eq) (test (suc b))
          → IsMask ((exec_all (emit_bit b t) s).regs eq) (test b))
      → ((b t : ℕ) (s : Machine) → IsFramed acc s (exec_all (emit_bit b t) s))
      → ((r : ℕ) → r < 64 → test n r ≡ true)
      → (s : Machine) → IsLoaded words n tile s
      → let s' = exec_all (mov_imm eq (2 ^ 64 - 1) ∷ emit_quads emit_bit tile t0 t1 t2 t3 n) s in
        IsFramed (match_own eq t0 t1 t2 t3) s s' × IsMask (s'.regs eq) (test 0)
  unfolding exec exec_all
  match_loop emit_bit test step framed full s loaded =
      let s₀ = exec (mov_imm eq (2 ^ 64 - 1)) s in
      let holds = λ (k : ℕ) (regs : ℕ → ℕ). IsMask (regs eq) (test k) in
      let started : IsFramed (match_own eq t0 t1 t2 t3) s s₀ =
        (λ u hu. ground (arith, hu, write_other eq (2 ^ 64 - 1) s.regs u), refl) in
      let tile_kept : (match_own eq t0 t1 t2 t3) tile ≡ false =
        ground (arith, tile_apart.0, t0_apart.1.0, t1_apart.1.0, t2_apart.1.0, t3_apart.1.0) in
      let mask₀ : IsMask (s₀.regs eq) (test n) =
        subst (λ w. IsMask w (test n)) (sym (write_self eq (2 ^ 64 - 1) s.regs))
          (IsMask-ones (test n) full) in
      let reached =
        quads_reach emit_bit acc (match_own eq t0 t1 t2 t3) words n tile tile_kept
          (λ u hu. ground (arith, hu)) holds
          (λ k regs regs' same q. subst (λ w. IsMask w (test k)) (sym (same eq (==_self eq))) q)
          (λ b t m b_lt t_other v q. step b t m b_lt t_other v q) framed t0 t1 t2 t3 n s₀
          (ground arith, ground (arith, t0_apart.0)) (ground arith, ground (arith, t1_apart.0))
          (ground arith, ground (arith, t2_apart.0)) (ground arith, ground (arith, t3_apart.0))
          t1_apart.1.1.0 t2_apart.1.1.0 t3_apart.1.1.0 t2_apart.1.1.1.0 t3_apart.1.1.1.0
          t3_apart.1.1.1.1.0 (omega arith)
          (framed-IsLoaded (match_own eq t0 t1 t2 t3) words n tile s s₀ tile_kept started loaded)
          mask₀ in
      let s' = exec_all (emit_quads emit_bit tile t0 t1 t2 t3 n) s₀ in
      (IsFramed-trans (match_own eq t0 t1 t2 t3) s s₀ s' started reached.0, reached.1)

  -- The code of a plane writes nothing but the mask.
  eq_bit-IsFramed : (imm b t : ℕ) (s : Machine) → IsFramed acc s (exec_all (eq_bit eq imm b t) s)
  unfolding eq_bit exec_all exec
  eq_bit-IsFramed imm b t s = elim (Bool-cases (imm / 2 ^ b % 2 == 0)) [
    | inl clear ↦ rw (clear) (λ u hu. write_other eq _ s.regs u hu, refl)
    | inr set_bit ↦ rw (set_bit) (λ u hu. write_other eq _ s.regs u hu, refl)
  ]

  kim_bit-IsFramed : (imm b t : ℕ) (s : Machine) → IsFramed acc s (exec_all (kim_bit eq imm b t) s)
  unfolding kim_bit exec_all exec
  kim_bit-IsFramed imm b t s = elim (Bool-cases (imm / 2 ^ b % 2 == 1)) [
    | inl set_bit ↦ rw (set_bit) (λ u hu. write_other eq _ s.regs u hu, refl)
    | inr clear ↦ rw (clear) (λ u hu. refl, refl)
  ]

  -- The rows whose numbers agree with the constant in the planes from `k` on.
  abbrev agrees : ℕ → ℕ → ℕ → Bool
  agrees imm k r = low_value words n r / 2 ^ k == imm % 2 ^ n / 2 ^ k

  agrees-suc :
      (imm b r : ℕ)
      → b < n
      → agrees imm b r ≡ (agrees imm (suc b) r && (bit (words b) r == imm / 2 ^ b % 2))
  agrees-suc imm b r h =
      same_above (low_value words n r) (imm % 2 ^ n) b (bit (words b) r) (imm / 2 ^ b % 2)
        (digit-low_value words n b r h) (digit-mod imm n b h)

  eq_bit-step :
      (imm b t : ℕ) (s : Machine)
      → b < n
      → (t == eq) ≡ false
      → s.regs t ≡ words b
      → IsMask (s.regs eq) (agrees imm (suc b))
      → IsMask ((exec_all (eq_bit eq imm b t) s).regs eq) (agrees imm b)
  unfolding eq_bit exec_all exec
  eq_bit-step imm b t s h apart v mask = elim (Bool-cases (imm / 2 ^ b % 2 == 0)) [
    | inl clear ↦ rw (clear) (
        subst (λ w. IsMask w (agrees imm b)) (sym (write_self eq _ s.regs))
          (IsMask-bic (s.regs eq) (s.regs t) (agrees imm (suc b)) (agrees imm b)
            (subst (λ (w : ℕ). w < 2 ^ 64) (sym v) (word b)) mask
            (λ r r_lt. ground (arith, agrees-suc imm b r h, ap (λ (w : ℕ). bit w r) v, clear))))
    | inr set_bit ↦ rw (set_bit) (
        subst (λ w. IsMask w (agrees imm b)) (sym (write_self eq _ s.regs))
          (IsMask-and (s.regs eq) (s.regs t) (agrees imm (suc b)) (agrees imm b) mask
            (λ r r_lt. ground (arith, agrees-suc imm b r h, ap (λ (w : ℕ). bit w r) v, set_bit))))
  ]

  -- The rows that pass the KIM test in the planes from `k` on.
  abbrev passes : ℕ → ℕ → ℕ → Bool
  passes imm r b = not (imm / 2 ^ b % 2 == 1) || (bit (words b) r == 1)

  abbrev passes_from : ℕ → ℕ → ℕ → Bool
  passes_from imm k r = all_below n (λ b. ltb b k || passes imm r b)

  kim_bit-step :
      (imm b t : ℕ) (s : Machine)
      → b < n
      → (t == eq) ≡ false
      → s.regs t ≡ words b
      → IsMask (s.regs eq) (passes_from imm (suc b))
      → IsMask ((exec_all (kim_bit eq imm b t) s).regs eq) (passes_from imm b)
  unfolding kim_bit exec_all exec
  kim_bit-step imm b t s h apart v mask = elim (Bool-cases (imm / 2 ^ b % 2 == 1)) [
    | inl set_bit ↦ rw (set_bit) (
        subst (λ w. IsMask w (passes_from imm b)) (sym (write_self eq _ s.regs))
          (IsMask-and (s.regs eq) (s.regs t) (passes_from imm (suc b)) (passes_from imm b) mask
            (λ r r_lt.
              all_below-from n b (passes imm r) h
              ∙ ap (λ p. passes_from imm (suc b) r && p) (passed r set_bit))))
    | inr clear ↦ rw (clear) (λ r r_lt.
        mask r r_lt
        ∙ ap (λ (p : Bool). if p then 1 else 0)
            (sym (
              all_below-from n b (passes imm r) h
              ∙ ap (λ p. passes_from imm (suc b) r && p) (skipped r clear)
              ∙ and_true (passes_from imm (suc b) r))))
  ]
    where
      passed : (r : ℕ) → (imm / 2 ^ b % 2 == 1) ≡ true → passes imm r b ≡ (bit (s.regs t) r == 1)
      passed r e = rw (e) (ap (λ (w : ℕ). bit w r == 1) (sym v))

      skipped : (r : ℕ) → (imm / 2 ^ b % 2 == 1) ≡ false → passes imm r b ≡ true
      skipped r e = rw (e) refl

      and_true : (p : Bool) → (p && true) ≡ p
      and_true true = refl
      and_true false = refl

  -- After the code for equality, the mask has the rows whose number in the planes compared is the
  -- constant, and no other registers but those of the comparison have changed.
  pub eq_code :
      (imm : ℕ) (s : Machine)
      → IsLoaded words n tile s
      → let s' =
          exec_all (mov_imm eq (2 ^ 64 - 1) ∷ emit_quads (eq_bit eq imm) tile t0 t1 t2 t3 n) s in
        IsFramed (match_own eq t0 t1 t2 t3) s s'
        × IsMask (s'.regs eq) (λ r. low_value words n r == imm % 2 ^ n)
  eq_code imm s loaded =
      let ran =
        match_loop (eq_bit eq imm) (agrees imm) (eq_bit-step imm) (eq_bit-IsFramed imm)
          (agrees-none imm) s loaded in
      (ran.0, λ r r_lt. ran.1 r r_lt ∙ ground arith)
    where
      agrees-none : (imm r : ℕ) → r < 64 → agrees imm n r ≡ true
      agrees-none imm r r_lt = ground (
        arith,
        div-eq_of_lt (low_value-lt words n r),
        div-eq_of_lt {n = imm % 2 ^ n} {m = 2 ^ n} (omega (arith, one-le-pow n 2)),
      )

  pub kim_code :
      (imm : ℕ) (s : Machine)
      → IsLoaded words n tile s
      → let s' =
          exec_all (mov_imm eq (2 ^ 64 - 1) ∷ emit_quads (kim_bit eq imm) tile t0 t1 t2 t3 n) s in
        IsFramed (match_own eq t0 t1 t2 t3) s s' × IsMask (s'.regs eq) (covers words imm n)
  unfolding covers
  kim_code imm s loaded =
      let ran =
        match_loop (kim_bit eq imm) (passes_from imm) (kim_bit-step imm) (kim_bit-IsFramed imm)
          (λ r r_lt. all_below-true n (λ b. ltb b n || passes imm r b) (λ b b_lt. ground arith)) s
          loaded in
      let all = λ (r : ℕ).
        all_below_ext n (λ b. ltb b 0 || passes imm r b) (passes imm r) (λ b b_lt. ground arith) in
      (ran.0, λ r r_lt. ran.1 r r_lt ∙ ap (λ (p : Bool). if p then 1 else 0) (all r))
