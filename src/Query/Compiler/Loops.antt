-- ===== src/Query/Compiler/Loops.antt =====
-- The unrolled loops over the planes of a tile: what holds after each plane by the code of one
-- plane holds after all of them, and only the registers of the comparison change.
use green_gate.Base.{
  ℕ, zero, suc, ◌+◌, ◌*◌, ◌%◌, ◌^◌, ◌≤◌, ◌<◌, ◌≡◌, refl, sym, ap, subst, ◌∙◌, Bool, true, false,
  List, [], ◌∷◌, ◌++◌, arith, ◌==◌, Bool-cases, inl, inr,
}
use green_gate.Query.Machine.{Instr, ldr, Machine, write, exec, exec_all}
use green_gate.Query.Compiler.{emit_single, emit_quads, emit_pairs}

pub exec_all-append :
    (code code' : List Instr) (s : Machine)
    → exec_all (code ++ code') s ≡ exec_all code' (exec_all code s)
unfolding exec_all
exec_all-append [] code' s = refl
exec_all-append (i ∷ code) code' s = exec_all-append code code' (exec i s)

-- What the comparisons leave alone besides registers.
abbrev pub rest : Machine → (ℕ → ℕ) × List (ℕ × ℕ)
rest s = (s.mem, s.stack)

-- Only the registers that `own` names differ.
abbrev pub IsFramed : (ℕ → Bool) → Machine → Machine → Type 0
IsFramed own s s' = ((u : ℕ) → own u ≡ false → s'.regs u ≡ s.regs u) × (rest s' ≡ rest s)

pub IsFramed-trans :
    (own : ℕ → Bool) (s t u : Machine) → IsFramed own s t → IsFramed own t u → IsFramed own s u
IsFramed-trans own s t u h k = (λ r e. k.0 r e ∙ h.0 r e, k.1 ∙ h.1)

-- The planes of the tile at the address in `tile`.
abbrev pub IsLoaded : (ℕ → ℕ) → ℕ → ℕ → Machine → Type 0
IsLoaded words n tile s = (b : ℕ) → b < n → s.mem ((s.regs tile + b * 8) % 2 ^ 64) ≡ words b

pub framed-IsLoaded :
    (own : ℕ → Bool) (words : ℕ → ℕ) (n tile : ℕ) (s s' : Machine)
    → own tile ≡ false
    → IsFramed own s s'
    → IsLoaded words n tile s
    → IsLoaded words n tile s'
framed-IsLoaded own words n tile s s' kept h loaded b b_lt =
    ap (λ (m : ℕ → ℕ). m ((s'.regs tile + b * 8) % 2 ^ 64)) (ap (λ r. r.0) h.1)
    ∙ ap (λ (a : ℕ). s.mem ((a + b * 8) % 2 ^ 64)) (h.0 tile kept)
    ∙ loaded b b_lt

ldr-value :
    (words : ℕ → ℕ) (n tile t b : ℕ) (s : Machine)
    → IsLoaded words n tile s
    → b < n
    → (exec (ldr t tile (b * 8)) s).regs t ≡ words b
unfolding exec write
ldr-value words n tile t b s h b_lt = ground (arith, h b b_lt)

ldr-other :
    (tile t a : ℕ) (s : Machine) (u : ℕ)
    → (u == t) ≡ false
    → (exec (ldr t tile a) s).regs u ≡ s.regs u
unfolding exec write
ldr-other tile t a s u h = rw (h) refl

ldr-rest : (tile t a : ℕ) (s : Machine) → rest (exec (ldr t tile a) s) ≡ rest s
unfolding exec
ldr-rest tile t a s = refl

-- `acc` are the registers that the code of one plane writes, `own` those and the ones for planes.
module _ (emit_bit : ℕ → ℕ → List Instr) (acc own : ℕ → Bool) (words : ℕ → ℕ) (n tile : ℕ)
    (tile_kept : own tile ≡ false) (acc_own : (u : ℕ) → own u ≡ false → acc u ≡ false)
    (holds : ℕ → (ℕ → ℕ) → Type 0)
    (stable : (k : ℕ) (regs regs' : ℕ → ℕ)
      → ((u : ℕ) → acc u ≡ true → regs' u ≡ regs u)
      → holds k regs
      → holds k regs')
    (step : (b t : ℕ) (s : Machine)
      → b < n
      → acc t ≡ false
      → s.regs t ≡ words b
      → holds (suc b) s.regs
      → holds b (exec_all (emit_bit b t) s).regs)
    (framed : (b t : ℕ) (s : Machine) → IsFramed acc s (exec_all (emit_bit b t) s)) where
  -- A register for planes.
  abbrev IsPlane : ℕ → Type 0
  IsPlane t = (own t ≡ true) × (acc t ≡ false)

  differs : (u t : ℕ) → acc u ≡ true → acc t ≡ false → (u == t) ≡ false
  differs u t hu ht = elim (Bool-cases (u == t)) [
    | inl same ↦ let e : u ≡ t = ground arith in absurd (cc (hu, ht, ap acc e))
    | inr other ↦ other
  ]

  ldr-IsFramed : (t a : ℕ) (s : Machine) → IsPlane t → IsFramed own s (exec (ldr t tile a) s)
  ldr-IsFramed t a s h = (λ u hu. ldr-other tile t a s u (not_own u hu), ldr-rest tile t a s)
    where
      not_own : (u : ℕ) → own u ≡ false → (u == t) ≡ false
      not_own u hu = elim (Bool-cases (u == t)) [
        | inl same ↦ let e : u ≡ t = ground arith in absurd (cc (hu, h.0, ap own e))
        | inr other ↦ other
      ]

  ldr-Holds :
      (t a k : ℕ) (s : Machine) → IsPlane t → holds k s.regs → holds k (exec (ldr t tile a) s).regs
  ldr-Holds t a k s h q =
      stable k s.regs (exec (ldr t tile a) s).regs
        (λ u hu. ldr-other tile t a s u (differs u t hu h.1)) q

  bit-IsFramed : (b t : ℕ) (s : Machine) → IsFramed own s (exec_all (emit_bit b t) s)
  bit-IsFramed b t s = (λ u hu. (framed b t s).0 u (acc_own u hu), (framed b t s).1)

  abbrev Reaches : Machine → Machine → Type 0
  Reaches s s' = IsFramed own s s' × holds 0 s'.regs

  Reaches-after : (s t u : Machine) → IsFramed own s t → Reaches t u → Reaches s u
  Reaches-after s t u h r = (IsFramed-trans own s t u h r.0, r.1)

  single-Reaches :
      (t k : ℕ) (s : Machine)
      → IsPlane t
      → k ≤ n
      → IsLoaded words n tile s
      → holds k s.regs
      → Reaches s (exec_all (emit_single emit_bit tile t k) s)
  unfolding emit_single exec_all
  single-Reaches t zero s ht hk loaded q = ((λ u hu. refl, refl), q)
  single-Reaches t (suc b) s ht hk loaded q =
      let s₁ = exec (ldr t tile (b * 8)) s in
      let s₂ = exec_all (emit_bit b t) s₁ in
      let f₁ = ldr-IsFramed t (b * 8) s ht in
      let f₂ = IsFramed-trans own s s₁ s₂ f₁ (bit-IsFramed b t s₁) in
      let q₂ =
        step b t s₁ (omega arith) ht.1 (ldr-value words n tile t b s loaded (omega arith))
          (ldr-Holds t (b * 8) (suc b) s ht q) in
      subst (λ m. Reaches s m)
        (sym (exec_all-append (emit_bit b t) (emit_single emit_bit tile t b) s₁))
        (Reaches-after s s₂ (exec_all (emit_single emit_bit tile t b) s₂) f₂ (
          single-Reaches t b s₂ ht (omega arith)
            (framed-IsLoaded own words n tile s s₂ tile_kept f₂ loaded) q₂))

  -- The code of one plane, from a state in which the plane is in its register.
  abbrev bit_after : ℕ → ℕ → Machine → Machine
  bit_after b t s = exec_all (emit_bit b t) s

  kept_plane :
      (b t u v : ℕ) (s : Machine) → acc u ≡ false → s.regs u ≡ v → (bit_after b t s).regs u ≡ v
  kept_plane b t u v s hu e = (framed b t s).0 u hu ∙ e

  pub pairs_reach :
      (t0 t1 k : ℕ) (s : Machine)
      → IsPlane t0
      → IsPlane t1
      → (t0 == t1) ≡ false
      → k ≤ n
      → IsLoaded words n tile s
      → holds k s.regs
      → Reaches s (exec_all (emit_pairs emit_bit tile t0 t1 k) s)
  unfolding emit_pairs exec_all
  pairs_reach t0 t1 zero s h0 h1 d01 hk loaded q = ((λ u hu. refl, refl), q)
  pairs_reach t0 t1 (suc zero) s h0 h1 d01 hk loaded q = single-Reaches t0 1 s h0 hk loaded q
  pairs_reach t0 t1 (suc (suc b)) s h0 h1 d01 hk loaded q =
      let s₁ = exec (ldr t0 tile (suc b * 8)) s in
      let s₂ = exec (ldr t1 tile (b * 8)) s₁ in
      let f₁ = ldr-IsFramed t0 (suc b * 8) s h0 in
      let f₂ = IsFramed-trans own s s₁ s₂ f₁ (ldr-IsFramed t1 (b * 8) s₁ h1) in
      let loaded₁ = framed-IsLoaded own words n tile s s₁ tile_kept f₁ loaded in
      let q₂ =
        ldr-Holds t1 (b * 8) (suc (suc b)) s₁ h1 (ldr-Holds t0 (suc b * 8) (suc (suc b)) s h0 q) in
      let v0 =
        ldr-other tile t1 (b * 8) s₁ t0 d01
        ∙ ldr-value words n tile t0 (suc b) s loaded (omega arith) in
      let v1 = ldr-value words n tile t1 b s₁ loaded₁ (omega arith) in
      let s₃ = bit_after (suc b) t0 s₂ in
      let s₄ = bit_after b t1 s₃ in
      let f₄ =
        IsFramed-trans own s s₃ s₄ (IsFramed-trans own s s₂ s₃ f₂ (bit-IsFramed (suc b) t0 s₂))
          (bit-IsFramed b t1 s₃) in
      let q₃ = step (suc b) t0 s₂ (omega arith) h0.1 v0 q₂ in
      let q₄ = step b t1 s₃ (omega arith) h1.1 (kept_plane (suc b) t0 t1 (words b) s₂ h1.1 v1) q₃ in
      let code = emit_pairs emit_bit tile t0 t1 b in
      let split : exec_all (emit_bit (suc b) t0 ++ (emit_bit b t1 ++ code)) s₂ ≡ exec_all code s₄ =
        exec_all-append (emit_bit (suc b) t0) (emit_bit b t1 ++ code) s₂
        ∙ exec_all-append (emit_bit b t1) code s₃ in
      subst (λ m. Reaches s m) (sym split)
        (Reaches-after s s₄ (exec_all code s₄) f₄ (
          pairs_reach t0 t1 b s₄ h0 h1 d01 (omega arith)
            (framed-IsLoaded own words n tile s s₄ tile_kept f₄ loaded) q₄))

  -- Four planes: the registers are loaded before the first plane is used.
  pub quads_reach :
      (t0 t1 t2 t3 k : ℕ) (s : Machine)
      → IsPlane t0
      → IsPlane t1
      → IsPlane t2
      → IsPlane t3
      → (t0 == t1) ≡ false
      → (t0 == t2) ≡ false
      → (t0 == t3) ≡ false
      → (t1 == t2) ≡ false
      → (t1 == t3) ≡ false
      → (t2 == t3) ≡ false
      → k ≤ n
      → IsLoaded words n tile s
      → holds k s.regs
      → Reaches s (exec_all (emit_quads emit_bit tile t0 t1 t2 t3 k) s)
  unfolding emit_quads exec_all
  quads_reach t0 t1 t2 t3 zero s h0 h1 h2 h3 d01 d02 d03 d12 d13 d23 hk loaded q =
      ((λ u hu. refl, refl), q)
  quads_reach t0 t1 t2 t3 (suc zero) s h0 h1 h2 h3 d01 d02 d03 d12 d13 d23 hk loaded q =
      single-Reaches t0 1 s h0 hk loaded q
  quads_reach t0 t1 t2 t3 (suc (suc zero)) s h0 h1 h2 h3 d01 d02 d03 d12 d13 d23 hk loaded q =
      single-Reaches t0 2 s h0 hk loaded q
  quads_reach t0 t1 t2 t3 (suc (suc (suc zero))) s h0 h1 h2 h3 d01 d02 d03 d12 d13 d23 hk loaded q =
      single-Reaches t0 3 s h0 hk loaded q
  quads_reach t0 t1 t2 t3 (suc (suc (suc (suc b)))) s h0 h1 h2 h3 d01 d02 d03 d12 d13 d23 hk loaded
        q =
      let b1 = suc b in
      let b2 = suc b1 in
      let b3 = suc b2 in
      let s₁ = exec (ldr t0 tile (b3 * 8)) s in
      let s₂ = exec (ldr t1 tile (b2 * 8)) s₁ in
      let s₃ = exec (ldr t2 tile (b1 * 8)) s₂ in
      let s₄ = exec (ldr t3 tile (b * 8)) s₃ in
      let f₁ = ldr-IsFramed t0 (b3 * 8) s h0 in
      let f₂ = IsFramed-trans own s s₁ s₂ f₁ (ldr-IsFramed t1 (b2 * 8) s₁ h1) in
      let f₃ = IsFramed-trans own s s₂ s₃ f₂ (ldr-IsFramed t2 (b1 * 8) s₂ h2) in
      let f₄ = IsFramed-trans own s s₃ s₄ f₃ (ldr-IsFramed t3 (b * 8) s₃ h3) in
      let at = λ (m : Machine) (f : IsFramed own s m).
        framed-IsLoaded own words n tile s m tile_kept f loaded in
      let q₄ = ldr-Holds t3 (b * 8) (suc b3) s₃ h3 (
        ldr-Holds t2 (b1 * 8) (suc b3) s₂ h2
          (ldr-Holds t1 (b2 * 8) (suc b3) s₁ h1 (ldr-Holds t0 (b3 * 8) (suc b3) s h0 q))) in
      let v0 =
        ldr-other tile t3 (b * 8) s₃ t0 d03
        ∙ ldr-other tile t2 (b1 * 8) s₂ t0 d02
        ∙ ldr-other tile t1 (b2 * 8) s₁ t0 d01
        ∙ ldr-value words n tile t0 b3 s loaded (omega arith) in
      let v1 =
        ldr-other tile t3 (b * 8) s₃ t1 d13
        ∙ ldr-other tile t2 (b1 * 8) s₂ t1 d12
        ∙ ldr-value words n tile t1 b2 s₁ (at s₁ f₁) (omega arith) in
      let v2 =
        ldr-other tile t3 (b * 8) s₃ t2 d23
        ∙ ldr-value words n tile t2 b1 s₂ (at s₂ f₂) (omega arith) in
      let v3 = ldr-value words n tile t3 b s₃ (at s₃ f₃) (omega arith) in
      let s₅ = bit_after b3 t0 s₄ in
      let s₆ = bit_after b2 t1 s₅ in
      let s₇ = bit_after b1 t2 s₆ in
      let s₈ = bit_after b t3 s₇ in
      let keep = λ (u : ℕ) (hu : acc u ≡ false). kept_plane b3 t0 u (s₄.regs u) s₄ hu refl in
      let f₈ =
        IsFramed-trans own s s₇ s₈
          (IsFramed-trans own s s₆ s₇
            (IsFramed-trans own s s₅ s₆ (IsFramed-trans own s s₄ s₅ f₄ (bit-IsFramed b3 t0 s₄))
              (bit-IsFramed b2 t1 s₅))
            (bit-IsFramed b1 t2 s₆))
          (bit-IsFramed b t3 s₇) in
      let q₅ = step b3 t0 s₄ (omega arith) h0.1 v0 q₄ in
      let q₆ = step b2 t1 s₅ (omega arith) h1.1 (keep t1 h1.1 ∙ v1) q₅ in
      let q₇ =
        step b1 t2 s₆ (omega arith) h2.1
          (kept_plane b2 t1 t2 (words b1) s₅ h2.1 (keep t2 h2.1 ∙ v2)) q₆ in
      let q₈ =
        step b t3 s₇ (omega arith) h3.1
          (kept_plane b1 t2 t3 (words b) s₆ h3.1
            (kept_plane b2 t1 t3 (words b) s₅ h3.1 (keep t3 h3.1 ∙ v3)))
          q₇ in
      let code = emit_quads emit_bit tile t0 t1 t2 t3 b in
      let split : exec_all
            (emit_bit b3 t0 ++ (emit_bit b2 t1 ++ (emit_bit b1 t2 ++ (emit_bit b t3 ++ code)))) s₄
          ≡ exec_all code s₈ =
        exec_all-append (emit_bit b3 t0)
          (emit_bit b2 t1 ++ (emit_bit b1 t2 ++ (emit_bit b t3 ++ code))) s₄
        ∙ exec_all-append (emit_bit b2 t1) (emit_bit b1 t2 ++ (emit_bit b t3 ++ code)) s₅
        ∙ exec_all-append (emit_bit b1 t2) (emit_bit b t3 ++ code) s₆
        ∙ exec_all-append (emit_bit b t3) code s₇ in
      subst (λ m. Reaches s m) (sym split)
        (Reaches-after s s₈ (exec_all code s₈) f₈ (
          quads_reach t0 t1 t2 t3 b s₈ h0 h1 h2 h3 d01 d02 d03 d12 d13 d23 (omega arith) (at s₈ f₈)
            q₈))
