-- ===== src/Query/Compiler/Order.antt =====
-- The code of the comparisons of order leaves the mask of the rows above or below the constant.
use native.Mathlib.Nat.{one-le-pow, div-eq_of_lt}
use green_gate.Base.{
  ℕ, suc, ◌-◌, ◌/◌, ◌%◌, ◌^◌, ◌≤◌, ◌<◌, ◌≡◌, refl, sym, ap, subst, ◌∙◌, inl, inr, bit_and, bit_or,
  Bool, true, false, ◌&&◌, ◌||◌, List, [], ◌∷◌, arith, ltb, ◌==◌, if◌then◌else◌, Bool-cases,
}
use green_gate.Base.Bits.{bit, bit-le}
use green_gate.Query.Machine.{Instr, mov_imm, and_, orr, bic, Machine, write, exec, exec_all}
use green_gate.Query.Compiler.{gt_bit, lt_bit, emit_pairs}
use green_gate.Query.Compiler.Compare.{
  low_value, digit-low_value, digit-mod, same_above, less_above, low_value-lt, IsMask, IsMask-and,
  IsMask-bic, IsMask-or, IsMask-ones, IsMask-zero,
}
use green_gate.Query.Compiler.Loops.{
  IsFramed, IsFramed-trans, IsLoaded, framed-IsLoaded, pairs_reach,
}
use green_gate.Query.Compiler.Match.{IsApart, write_self, write_other}

less_one :
    (p q : Bool) (c x w : ℕ)
    → (c == 0) ≡ true
    → w ≡ x
    → w ≤ 1
    → (p || (q && ltb c x)) ≡ (p || (q && (w == 1)))
less_one p q c x w h e w_le = ap (λ b. p || (q && b)) (ground arith)

less_zero :
    (p q : Bool) (c x w : ℕ)
    → (c == 1) ≡ true
    → w ≡ x
    → (p || (q && ltb x c)) ≡ (p || (q && (w == 0)))
less_zero p q c x w h e = ap (λ b. p || (q && b)) (ground arith)

-- The registers that such a comparison changes.
abbrev pub order_own : ℕ → ℕ → ℕ → ℕ → ℕ → ℕ → Bool
order_own dest eq tmp t0 t1 u = u == dest || u == eq || u == tmp || u == t0 || u == t1

module _ (words : ℕ → ℕ) (word : (b : ℕ) → words b < 2 ^ 64) (n tile dest eq tmp t0 t1 : ℕ)
    (tile_apart : IsApart tile (dest ∷ [])) (eq_apart : IsApart eq (dest ∷ tile ∷ []))
    (tmp_apart : IsApart tmp (dest ∷ tile ∷ eq ∷ []))
    (t0_apart : IsApart t0 (dest ∷ tile ∷ eq ∷ tmp ∷ []))
    (t1_apart : IsApart t1 (dest ∷ tile ∷ eq ∷ tmp ∷ t0 ∷ [])) where
  abbrev acc : ℕ → Bool
  acc u = u == dest || u == eq || u == tmp

  -- The three instructions of a plane that decides rows: by `and_` or `bic`, then the other.
  module _ (t : ℕ) (t_apart : acc t ≡ false) (s : Machine) where
    above_regs :
        let s' = exec_all (and_ tmp eq t ∷ orr dest dest tmp ∷ bic eq eq t ∷ []) s in
        (s'.regs dest ≡ bit_or (s.regs dest) (bit_and (s.regs eq) (s.regs t)))
        × (s'.regs eq ≡ bit_and (s.regs eq) (2 ^ 64 - 1 - s.regs t))
    unfolding exec_all exec write
    above_regs = (
      ground (arith, t_apart, eq_apart.0, tmp_apart.0, tmp_apart.1.1.0),
      ground (arith, t_apart, eq_apart.0, tmp_apart.0, tmp_apart.1.1.0),
    )

    below_regs :
        let s' = exec_all (bic tmp eq t ∷ orr dest dest tmp ∷ and_ eq eq t ∷ []) s in
        (s'.regs dest ≡ bit_or (s.regs dest) (bit_and (s.regs eq) (2 ^ 64 - 1 - s.regs t)))
        × (s'.regs eq ≡ bit_and (s.regs eq) (s.regs t))
    unfolding exec_all exec write
    below_regs = (
      ground (arith, t_apart, eq_apart.0, tmp_apart.0, tmp_apart.1.1.0),
      ground (arith, t_apart, eq_apart.0, tmp_apart.0, tmp_apart.1.1.0),
    )

    one_regs :
        ((exec_all (and_ eq eq t ∷ []) s).regs dest ≡ s.regs dest)
        × ((exec_all (bic eq eq t ∷ []) s).regs dest ≡ s.regs dest)
    unfolding exec_all exec write
    one_regs = (ground (arith, eq_apart.0), ground (arith, eq_apart.0))

  IsFramed-one :
      (i : ℕ) (v : ℕ) (s : Machine)
      → acc i ≡ true
      → IsFramed acc s (record s { regs = write i v s.regs })
  IsFramed-one i v s h = (λ u hu. write_other i v s.regs u (not_same u hu), refl)
    where
      not_same : (u : ℕ) → acc u ≡ false → (u == i) ≡ false
      not_same u hu = elim (Bool-cases (u == i)) [
        | inl same ↦ let e : u ≡ i = ground arith in absurd (cc (hu, h, ap acc e))
        | inr other ↦ other
      ]

  gt_bit-IsFramed :
      (imm b t : ℕ) (s : Machine) → IsFramed acc s (exec_all (gt_bit dest eq tmp imm b t) s)
  unfolding gt_bit exec_all exec
  gt_bit-IsFramed imm b t s = elim (Bool-cases (imm / 2 ^ b % 2 == 0)) [
    | inl clear ↦
        let s₁ = exec (and_ tmp eq t) s in
        let s₂ = exec (orr dest dest tmp) s₁ in
        let s₃ = exec (bic eq eq t) s₂ in
        rw (clear) (
          IsFramed-trans acc s s₂ s₃
            (IsFramed-trans acc s s₁ s₂ (IsFramed-one tmp _ s (ground arith))
              (IsFramed-one dest _ s₁ (ground arith)))
            (IsFramed-one eq _ s₂ (ground arith)))
    | inr set_bit ↦ rw (set_bit) (IsFramed-one eq _ s (ground arith))
  ]

  lt_bit-IsFramed :
      (imm b t : ℕ) (s : Machine) → IsFramed acc s (exec_all (lt_bit dest eq tmp imm b t) s)
  unfolding lt_bit exec_all exec
  lt_bit-IsFramed imm b t s = elim (Bool-cases (imm / 2 ^ b % 2 == 1)) [
    | inl set_bit ↦
        let s₁ = exec (bic tmp eq t) s in
        let s₂ = exec (orr dest dest tmp) s₁ in
        let s₃ = exec (and_ eq eq t) s₂ in
        rw (set_bit) (
          IsFramed-trans acc s s₂ s₃
            (IsFramed-trans acc s s₁ s₂ (IsFramed-one tmp _ s (ground arith))
              (IsFramed-one dest _ s₁ (ground arith)))
            (IsFramed-one eq _ s₂ (ground arith)))
    | inr clear ↦ rw (clear) (IsFramed-one eq _ s (ground arith))
  ]

  -- The rows that agree with the constant, are above it, and are below it, in the planes from `k` on.
  abbrev agrees : ℕ → ℕ → ℕ → Bool
  agrees imm k r = low_value words n r / 2 ^ k == imm % 2 ^ n / 2 ^ k

  abbrev above : ℕ → ℕ → ℕ → Bool
  above imm k r = ltb (imm % 2 ^ n / 2 ^ k) (low_value words n r / 2 ^ k)

  abbrev below : ℕ → ℕ → ℕ → Bool
  below imm k r = ltb (low_value words n r / 2 ^ k) (imm % 2 ^ n / 2 ^ k)

  module _ (imm b r : ℕ) (h : b < n) where
    agrees-suc : agrees imm b r ≡ (agrees imm (suc b) r && (bit (words b) r == imm / 2 ^ b % 2))
    agrees-suc =
        same_above (low_value words n r) (imm % 2 ^ n) b (bit (words b) r) (imm / 2 ^ b % 2)
          (digit-low_value words n b r h) (digit-mod imm n b h)

    above-suc :
        above imm b r
        ≡ (above imm (suc b) r || (agrees imm (suc b) r && ltb (imm / 2 ^ b % 2) (bit (words b) r)))
    above-suc =
        less_above (low_value words n r) (imm % 2 ^ n) b (bit (words b) r) (imm / 2 ^ b % 2)
          (digit-low_value words n b r h) (digit-mod imm n b h)

    below-suc :
        below imm b r
        ≡ (below imm (suc b) r || (agrees imm (suc b) r && ltb (bit (words b) r) (imm / 2 ^ b % 2)))
    below-suc =
        less_above (imm % 2 ^ n) (low_value words n r) b (imm / 2 ^ b % 2) (bit (words b) r)
          (digit-mod imm n b h) (digit-low_value words n b r h)
        ∙ ground arith

  -- What the loops keep.
  abbrev Holds : (ℕ → ℕ → Bool) → ℕ → ℕ → (ℕ → ℕ) → Type 0
  Holds decided imm k regs = IsMask (regs dest) (decided k) × IsMask (regs eq) (agrees imm k)

  and_regs :
      (t : ℕ) (s : Machine)
      → (exec_all (and_ eq eq t ∷ []) s).regs eq ≡ bit_and (s.regs eq) (s.regs t)
  unfolding exec_all exec
  and_regs t s = write_self eq _ s.regs

  bic_regs :
      (t : ℕ) (s : Machine)
      → (exec_all (bic eq eq t ∷ []) s).regs eq ≡ bit_and (s.regs eq) (2 ^ 64 - 1 - s.regs t)
  unfolding exec_all exec
  bic_regs t s = write_self eq _ s.regs

  gt_bit-step :
      (imm b t : ℕ) (s : Machine)
      → b < n
      → acc t ≡ false
      → s.regs t ≡ words b
      → Holds (above imm) imm (suc b) s.regs
      → Holds (above imm) imm b (exec_all (gt_bit dest eq tmp imm b t) s).regs
  unfolding gt_bit
  gt_bit-step imm b t s h apart v mask =
      let w = s.regs t in
      let w_lt = subst (λ (w : ℕ). w < 2 ^ 64) (sym v) (word b) in
      let plane = λ (r : ℕ). ap (λ (w : ℕ). bit w r) v in
      elim (Bool-cases (imm / 2 ^ b % 2 == 0)) [
        | inl clear ↦
            let regs = above_regs t apart s in
            let same_set =
              IsMask-and (s.regs eq) w (agrees imm (suc b))
                (λ r. agrees imm (suc b) r && (bit w r == 1)) mask.1 (λ r r_lt. refl) in
            rw (clear) (
              subst (λ w. IsMask w (above imm b)) (sym regs.0)
                  (IsMask-or (s.regs dest) (bit_and (s.regs eq) w) (above imm (suc b))
                    (λ r. agrees imm (suc b) r && (bit w r == 1)) (above imm b) mask.0 same_set
                    (λ r r_lt.
                      above-suc imm b r h
                      ∙ less_one (above imm (suc b) r) (agrees imm (suc b) r) (imm / 2 ^ b % 2)
                          (bit (words b) r) (bit w r) clear (plane r) (bit-le w r))),
              subst (λ w. IsMask w (agrees imm b)) (sym regs.1)
                  (IsMask-bic (s.regs eq) w (agrees imm (suc b)) (agrees imm b) w_lt mask.1
                    (λ r r_lt. ground (arith, agrees-suc imm b r h, plane r, clear))),
            )
        | inr set_bit ↦
            let regs = one_regs t apart s in
            rw (set_bit) (
              subst (λ w. IsMask w (above imm b)) (sym regs.0)
                  (λ r r_lt.
                    mask.0 r r_lt
                    ∙ ap (λ (p : Bool). if p then 1 else 0)
                        (ground (arith, above-suc imm b r h, plane r, set_bit, bit-le w r))),
              subst (λ w. IsMask w (agrees imm b)) (sym (and_regs t s))
                  (IsMask-and (s.regs eq) w (agrees imm (suc b)) (agrees imm b) mask.1
                    (λ r r_lt. ground (arith, agrees-suc imm b r h, plane r, set_bit))),
            )
      ]

  lt_bit-step :
      (imm b t : ℕ) (s : Machine)
      → b < n
      → acc t ≡ false
      → s.regs t ≡ words b
      → Holds (below imm) imm (suc b) s.regs
      → Holds (below imm) imm b (exec_all (lt_bit dest eq tmp imm b t) s).regs
  unfolding lt_bit
  lt_bit-step imm b t s h apart v mask =
      let w = s.regs t in
      let w_lt = subst (λ (w : ℕ). w < 2 ^ 64) (sym v) (word b) in
      let plane = λ (r : ℕ). ap (λ (w : ℕ). bit w r) v in
      elim (Bool-cases (imm / 2 ^ b % 2 == 1)) [
        | inl set_bit ↦
            let regs = below_regs t apart s in
            let same_clear =
              IsMask-bic (s.regs eq) w (agrees imm (suc b))
                (λ r. agrees imm (suc b) r && (bit w r == 0)) w_lt mask.1 (λ r r_lt. refl) in
            rw (set_bit) (
              subst (λ w. IsMask w (below imm b)) (sym regs.0)
                  (IsMask-or (s.regs dest) (bit_and (s.regs eq) (2 ^ 64 - 1 - w))
                    (below imm (suc b)) (λ r. agrees imm (suc b) r && (bit w r == 0)) (below imm b)
                    mask.0 same_clear
                    (λ r r_lt.
                      below-suc imm b r h
                      ∙ less_zero (below imm (suc b) r) (agrees imm (suc b) r) (imm / 2 ^ b % 2)
                          (bit (words b) r) (bit w r) set_bit (plane r))),
              subst (λ w. IsMask w (agrees imm b)) (sym regs.1)
                  (IsMask-and (s.regs eq) w (agrees imm (suc b)) (agrees imm b) mask.1
                    (λ r r_lt. ground (arith, agrees-suc imm b r h, plane r, set_bit))),
            )
        | inr clear ↦
            let regs = one_regs t apart s in
            rw (clear) (
              subst (λ w. IsMask w (below imm b)) (sym regs.1)
                  (λ r r_lt.
                    mask.0 r r_lt
                    ∙ ap (λ (p : Bool). if p then 1 else 0)
                        (ground (arith, below-suc imm b r h, plane r, clear, bit-le w r))),
              subst (λ w. IsMask w (agrees imm b)) (sym (bic_regs t s))
                  (IsMask-bic (s.regs eq) w (agrees imm (suc b)) (agrees imm b) w_lt mask.1
                    (λ r r_lt. ground (arith, agrees-suc imm b r h, plane r, clear))),
            )
      ]

  no_planes : (imm r : ℕ) → (low_value words n r / 2 ^ n ≡ 0) × (imm % 2 ^ n / 2 ^ n ≡ 0)
  no_planes imm r = (
    div-eq_of_lt (low_value-lt words n r),
    div-eq_of_lt {n = imm % 2 ^ n} {m = 2 ^ n} (omega (arith, one-le-pow n 2)),
  )

  -- The loop of a comparison of order, from the two masks that start it.
  order_loop :
      (emit_bit : ℕ → ℕ → List Instr) (imm : ℕ) (decided : ℕ → ℕ → Bool)
      → ((b t : ℕ) (s : Machine)
          → b < n
          → acc t ≡ false
          → s.regs t ≡ words b
          → Holds decided imm (suc b) s.regs
          → Holds decided imm b (exec_all (emit_bit b t) s).regs)
      → ((b t : ℕ) (s : Machine) → IsFramed acc s (exec_all (emit_bit b t) s))
      → ((r : ℕ) → r < 64 → decided n r ≡ false)
      → (s : Machine) → IsLoaded words n tile s
      → let s' =
          exec_all
            (mov_imm dest 0 ∷ mov_imm eq (2 ^ 64 - 1) ∷ emit_pairs emit_bit tile t0 t1 n)
            s in
        IsFramed (order_own dest eq tmp t0 t1) s s' × IsMask (s'.regs dest) (decided 0)
  unfolding exec_all exec
  order_loop emit_bit imm decided step framed none s loaded =
      let s₁ = exec (mov_imm dest 0) s in
      let s₂ = exec (mov_imm eq (2 ^ 64 - 1)) s₁ in
      let f₁ : IsFramed (order_own dest eq tmp t0 t1) s s₁ =
        (λ u hu. write_other dest 0 s.regs u (ground (arith, hu)), refl) in
      let f₂ : IsFramed (order_own dest eq tmp t0 t1) s₁ s₂ =
        (λ u hu. write_other eq (2 ^ 64 - 1) s₁.regs u (ground (arith, hu)), refl) in
      let f = IsFramed-trans (order_own dest eq tmp t0 t1) s s₁ s₂ f₁ f₂ in
      let tile_kept : (order_own dest eq tmp t0 t1) tile ≡ false =
        ground (arith, tile_apart.0, eq_apart.1.0, tmp_apart.1.0, t0_apart.1.0, t1_apart.1.0) in
      let zero_mask : s₂.regs dest ≡ 0 =
        write_other eq (2 ^ 64 - 1) s₁.regs dest eq_apart.0 ∙ write_self dest 0 s.regs in
      let started : Holds decided imm n s₂.regs = (
        subst (λ w. IsMask w (decided n)) (sym zero_mask) (IsMask-zero (decided n) none),
        subst (λ w. IsMask w (agrees imm n)) (sym (write_self eq (2 ^ 64 - 1) s₁.regs))
            (IsMask-ones (agrees imm n)
              (λ r r_lt. ground (arith, (no_planes imm r).0, (no_planes imm r).1))),
      ) in
      let reached =
        pairs_reach emit_bit acc (order_own dest eq tmp t0 t1) words n tile tile_kept
          (λ u hu. ground (arith, hu)) (Holds decided imm)
          (λ k regs regs' same q. (
            subst (λ w. IsMask w (decided k)) (sym (same dest (ground arith))) q.0,
            subst (λ w. IsMask w (agrees imm k)) (sym (same eq (ground arith))) q.1,
          ))
          step framed t0 t1 n s₂
          (ground arith, ground (arith, t0_apart.0, t0_apart.1.1.0, t0_apart.1.1.1.0))
          (ground arith, ground (arith, t1_apart.0, t1_apart.1.1.0, t1_apart.1.1.1.0))
          t1_apart.1.1.1.1.0 (omega arith)
          (framed-IsLoaded (order_own dest eq tmp t0 t1) words n tile s s₂ tile_kept f loaded)
          started in
      let s' = exec_all (emit_pairs emit_bit tile t0 t1 n) s₂ in
      (IsFramed-trans (order_own dest eq tmp t0 t1) s s₂ s' f reached.0, reached.1.0)

  pub gt_code :
      (imm : ℕ) (s : Machine)
      → IsLoaded words n tile s
      → let s' =
          exec_all
            (mov_imm dest 0
              ∷ mov_imm eq (2 ^ 64 - 1)
              ∷ emit_pairs (gt_bit dest eq tmp imm) tile t0 t1 n)
            s in
        IsFramed (order_own dest eq tmp t0 t1) s s'
        × IsMask (s'.regs dest) (λ r. ltb (imm % 2 ^ n) (low_value words n r))
  gt_code imm s loaded =
      let ran =
        order_loop (gt_bit dest eq tmp imm) imm (above imm) (gt_bit-step imm) (gt_bit-IsFramed imm)
          (λ r r_lt. ground (arith, (no_planes imm r).0, (no_planes imm r).1)) s loaded in
      (ran.0, λ r r_lt. ran.1 r r_lt ∙ ground arith)

  pub lt_code :
      (imm : ℕ) (s : Machine)
      → IsLoaded words n tile s
      → let s' =
          exec_all
            (mov_imm dest 0
              ∷ mov_imm eq (2 ^ 64 - 1)
              ∷ emit_pairs (lt_bit dest eq tmp imm) tile t0 t1 n)
            s in
        IsFramed (order_own dest eq tmp t0 t1) s s'
        × IsMask (s'.regs dest) (λ r. ltb (low_value words n r) (imm % 2 ^ n))
  lt_code imm s loaded =
      let ran =
        order_loop (lt_bit dest eq tmp imm) imm (below imm) (lt_bit-step imm) (lt_bit-IsFramed imm)
          (λ r r_lt. ground (arith, (no_planes imm r).0, (no_planes imm r).1)) s loaded in
      (ran.0, λ r r_lt. ran.1 r r_lt ∙ ground arith)
