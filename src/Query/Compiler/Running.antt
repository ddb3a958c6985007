-- ===== src/Query/Compiler/Running.antt =====
-- The states between operations, and how code that changes few registers keeps them.
use green_gate.Base.{
  ℕ, ◌+◌, ◌*◌, ◌%◌, ◌^◌, ◌≡◌, ◌≢◌, refl, sym, ap, ◌∙◌, inl, inr, Bool, false, ◌||◌, some, arith,
  ◌==◌, if◌then◌else◌, Bool-cases,
}
use green_gate.Base.Assoc.{lookup, nat_eq}
use green_gate.Query.Machine.{Machine, write}
use green_gate.Query.Compiler.{Alloc}
use green_gate.Query.Compiler.Loops.{IsFramed}
use green_gate.Query.Compiler.Registers.{Maps, IsAlloc, IsPooled, Extends}

-- The virtual registers that are mapped have their values.
abbrev pub HasValues : (ℕ → ℕ) → Alloc → Machine → Type 0
HasValues env m s = (v q : ℕ) → Maps m v q → s.regs q ≡ env v

-- A state between operations: x19 has the address of the tiles.
abbrev pub IsRunning : (ℕ → ℕ) → ℕ → (ℕ → ℕ) → Alloc → Machine → Type 0
IsRunning mem base env m s = IsAlloc m × HasValues env m s × (s.regs 19 ≡ base) × (s.mem ≡ mem)

pub IsPooled-no19 : (r : ℕ) → IsPooled r → (19 == r) ≡ false
IsPooled-no19 r h = elim h.2 [ inl low ↦ ground (arith, h.0) | inr high ↦ ground (arith, h.1) ]

some_same : (a b : ℕ) → some a ≡ some b → a ≡ b
some_same a b h = cc h

-- A register of another virtual register is not that of the destination.
pub other_register :
    (d r u q : ℕ) (m m' : Alloc) → Extends d r m m' → u ≢ d → Maps m' u q → (q == r) ≡ false
other_register d r u q m m' ext apart h = elim (Bool-cases (q == r)) [
  | inl same ↦
      let e : q ≡ r = ground arith in absurd (apart (ext.0.1 u d q h (ext.1 ∙ ap some (sym e))))
  | inr other ↦ other
]

-- Code that changes only the destination and registers of no other virtual register.
pub finish :
    (mem : ℕ → ℕ) (base : ℕ) (env : ℕ → ℕ) (d r : ℕ) (own : ℕ → Bool) (m m' : Alloc)
    (s s' : Machine)
    → IsRunning mem base env m s
    → Extends d r m m'
    → IsFramed own s s'
    → own 19 ≡ false
    → ((u q : ℕ) → u ≢ d → Maps m' u q → own q ≡ false)
    → IsRunning mem base (write d (s'.regs r) env) m' s'
unfolding write
finish mem base env d r own m m' s s' run ext framed no19 free =
    (ext.0, values, framed.0 19 no19 ∙ run.2, ap (λ p. p.0) framed.1 ∙ run.3)
  where
    values : (u q : ℕ) → Maps m' u q → s'.regs q ≡ (if u == d then s'.regs r else env u)
    values u q h = elim (Bool-cases (u == d)) [
      | inl same ↦
          let e : u ≡ d = ground arith in
          let q_eq : q ≡ r = some_same q r (sym h ∙ ap (λ v. lookup v m'.reg_map) e ∙ ext.1) in
          rw (same) (ap s'.regs q_eq)
      | inr other ↦
          let apart : u ≢ d = λ e. ground (arith, e) in
          rw (other) (framed.0 q (free u q apart h) ∙ run.1 u q (ext.3 u q apart h))
    ]

pub all_false :
    {a b c d e : Bool}
    → a ≡ false
    → b ≡ false
    → c ≡ false
    → d ≡ false
    → e ≡ false
    → (a || b || c || d || e) ≡ false
all_false ha hb hc hd he = rw (ha, hb, hc, hd, he) refl

pub differ_sym : (a b : ℕ) → (a == b) ≡ false → (b == a) ≡ false
differ_sym a b h = ground (arith, h)

-- What the code of an operation has done: `w` is the new value of its destination.
abbrev pub Did :
    (ℕ → ℕ) → ℕ → (ℕ → ℕ) → ℕ → Alloc → Alloc → Machine → Machine → (ℕ → Type 0) → Type 0
Did mem base env d m m' s s' value =
    (w : ℕ) × value w
    × IsRunning mem base (write d w env) m' s'
    × (s'.stack ≡ s.stack)
    × ((u q : ℕ) → Maps m u q → Maps m' u q)
    × ((r : ℕ) × Maps m' d r)

abbrev pub planes_at : (ℕ → ℕ) → ℕ → ℕ → ℕ
planes_at mem a b = mem ((a + b * 8) % 2 ^ 64)
