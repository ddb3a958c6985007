-- ===== src/Query/Compiler/Registers.antt =====
-- Register allocation: virtual registers have registers of their own, and scratch registers are
-- free ones.
use green_gate.Base.{
  ℕ, ◌+◌, ◌≤◌, ◌<◌, ◌≡◌, ◌≢◌, ◌⊎◌, refl, sym, ap, subst, ◌∙◌, inl, inr, true, false, ◌||◌, none,
  some, Option-cases, List, [], ◌∷◌, arith, ltb, leb, ◌==◌, ==_self, if◌then◌else◌, Bool-cases,
  get_or,
}
use green_gate.Base.Assoc.{lookup, nat_eq}
use green_gate.Base.Loops.{all_below, all_below_sound}
use green_gate.Query.Compiler.{
  Compiled, done, out_of_registers, out_of_scratch, ◌>>=◌, Alloc, gp_pool, get_reg, is_mapped,
  is_listed, get_scratch,
}
use green_gate.Query.Compiler.Match.{IsApart}

pub bind-done {ℓ κ} :
    {A : Type ℓ} {B : Type κ} (x : Compiled A) (f : A → Compiled B) (b : B)
    → (x >>= f) ≡ done b
    → (a : A) × (x ≡ done a) × (f a ≡ done b)
bind-done (done a) f b h = (a, refl, h)
bind-done out_of_registers f b h = absurd (cc h)
bind-done out_of_scratch f b h = absurd (cc h)

pub bind-known {ℓ κ} :
    {A : Type ℓ} {B : Type κ} (x : Compiled A) (a : A) (f : A → Compiled B) (b : B)
    → x ≡ done a
    → (x >>= f) ≡ done b
    → f a ≡ done b
bind-known x a f b e h = sym (ap (λ y. y >>= f) e) ∙ h

abbrev pub Maps : Alloc → ℕ → ℕ → Type 0
Maps m v r = lookup v m.reg_map ≡ some r

-- Each register handed out is one of the first of the pool, and has one virtual register.
abbrev pub IsAlloc : Alloc → Type 0
IsAlloc m =
    ((v r : ℕ) → Maps m v r → (i : ℕ) × (i < m.next_gp) × (r ≡ get_or gp_pool i 0))
    × ((v v' r : ℕ) → Maps m v r → Maps m v' r → v ≡ v')
    × (m.next_gp ≤ 14)

pool-value : (i : ℕ) → i < 14 → get_or gp_pool i 0 ≡ (if ltb i 7 then 22 + i else 2 + i)
unfolding all_below
pool-value i h =
    let checked =
      all_below_sound 14 (λ i. get_or gp_pool i 0 == (if ltb i 7 then 22 + i else 2 + i)) i refl
        h in
    ground (arith, checked)

pool-injective : (i j : ℕ) → i < 14 → j < 14 → get_or gp_pool i 0 ≡ get_or gp_pool j 0 → i ≡ j
pool-injective i j hi hj e = ground (arith, pool-value i hi, pool-value j hj, e)

-- Registers of the pool are those from 9 to 15 and from 22 to 28.
abbrev pub IsPooled : ℕ → Type 0
IsPooled r = (9 ≤ r) × (r ≤ 28) × ((r ≤ 15) ⊎ (22 ≤ r))

pool-IsPooled : (i : ℕ) → i < 14 → IsPooled (get_or gp_pool i 0)
pool-IsPooled i h = elim (Bool-cases (ltb i 7)) [
  | inl high ↦ (
    ground (arith, pool-value i h, high),
    ground (arith, pool-value i h, high),
    inr (ground (arith, pool-value i h, high)),
  )
  | inr low ↦ (
    ground (arith, pool-value i h, low),
    ground (arith, pool-value i h, low),
    inl (ground (arith, pool-value i h, low)),
  )
]

pub mapped-IsPooled : (m : Alloc) (v r : ℕ) → IsAlloc m → Maps m v r → IsPooled r
mapped-IsPooled m v r h e =
    let (i, i_lt, r_eq) = h.0 v r e in
    subst IsPooled (sym r_eq) (pool-IsPooled i (omega (arith, h.2)))

-- What a call of `get_reg` gives.
abbrev pub Extends : ℕ → ℕ → Alloc → Alloc → Type 0
Extends v r m m' =
    IsAlloc m'
    × Maps m' v r
    × ((u q : ℕ) → Maps m u q → Maps m' u q)
    × ((u q : ℕ) → u ≢ v → Maps m' u q → Maps m u q)

pub done_value {ℓ} : {A : Type ℓ} (a b : A) → done a ≡ done b → a ≡ b
done_value {A = A} a b h = ap value h
  where
    value : Compiled A → A
    value (done c) = c
    value out_of_registers = a
    value out_of_scratch = a

pub get_reg_old : (v q : ℕ) (m : Alloc) → Maps m v q → get_reg v m ≡ done (q, m)
unfolding get_reg
get_reg_old v q m e = rw (e, get_reg) refl

-- The map with one more register.
abbrev with_reg : ℕ → Alloc → Alloc
with_reg v m = record {
  reg_map = (v, get_or gp_pool m.next_gp 0) ∷ m.reg_map;
  next_gp = m.next_gp + 1;
}

get_reg_new :
    (v : ℕ) (m : Alloc)
    → lookup v m.reg_map ≡ none
    → get_reg v m ≡ (
        if leb 14 m.next_gp
        then out_of_registers
        else done (get_or gp_pool m.next_gp 0, with_reg v m))
unfolding get_reg
get_reg_new v m e = rw (e, get_reg) refl

maps-with_reg :
    (v u q : ℕ) (m : Alloc)
    → Maps (with_reg v m) u q
    → ((v ≡ u) × (q ≡ get_or gp_pool m.next_gp 0)) ⊎ Maps m u q
unfolding lookup
maps-with_reg v u q m h = elim (Bool-cases (v == u)) [
  | inl same ↦ inl (ground arith, some_value (get_or gp_pool m.next_gp 0) q (here same))
  | inr other ↦ inr (later other)
]
  where
    some_value : (a b : ℕ) → some a ≡ some b → b ≡ a
    some_value a b e = cc e

    here : (v == u) ≡ true → some (get_or gp_pool m.next_gp 0) ≡ some q
    here same = sym (rw (same) refl) ∙ h

    later : (v == u) ≡ false → Maps m u q
    later other = sym (rw (other) refl) ∙ h

with_reg-Extends :
    (v : ℕ) (m : Alloc)
    → IsAlloc m
    → lookup v m.reg_map ≡ none
    → leb 14 m.next_gp ≡ false
    → Extends v (get_or gp_pool m.next_gp 0) m (with_reg v m)
unfolding lookup
with_reg-Extends v m h new room = (
  (
    λ u q e. elim (maps-with_reg v u q m e) [
      | inl (same, q_eq) ↦ (m.next_gp, omega arith, q_eq)
      | inr old ↦ let (i, i_lt, q_eq) = h.0 u q old in (i, omega arith, q_eq)
    ],
    λ u u' q e e'. elim (maps-with_reg v u q m e) [
      | inl (same, q_eq) ↦ elim (maps-with_reg v u' q m e') [
        | inl (same', q_eq') ↦ sym same ∙ same'
        | inr old ↦ absurd (not_new u' q old q_eq)
      ]
      | inr old ↦ elim (maps-with_reg v u' q m e') [
        | inl (same', q_eq') ↦ absurd (not_new u q old q_eq')
        | inr old' ↦ h.1 u u' q old old'
      ]
    ],
    ground arith,
  ),
  rw (==_self v) refl,
  λ u q e. kept u q e,
  λ u q apart e. elim (maps-with_reg v u q m e) [
    | inl (same, q_eq) ↦ absurd (apart (sym same))
    | inr old ↦ old
  ],
)
  where
    not_new : (u q : ℕ) → Maps m u q → q ≢ get_or gp_pool m.next_gp 0
    not_new u q old q_eq =
        let (i, i_lt, e) = h.0 u q old in
        absurd
          (omega (arith, pool-injective i m.next_gp (ground arith) (ground arith) (sym e ∙ q_eq)))

    kept : (u q : ℕ) → Maps m u q → Maps (with_reg v m) u q
    kept u q e = elim (Bool-cases (v == u)) [
      | inl same ↦
          let same' : v ≡ u = ground arith in
          absurd (cc (new, e, ap (λ w. lookup w m.reg_map) same'))
      | inr other ↦ rw (other) e
    ]

pub get_reg-Extends :
    (v r : ℕ) (m m' : Alloc) → IsAlloc m → get_reg v m ≡ done (r, m') → Extends v r m m'
get_reg-Extends v r m m' h e = elim (Option-cases (lookup v m.reg_map)) [
  | inl new ↦ elim (Bool-cases (leb 14 m.next_gp)) [
    | inl full ↦
        let stuck : out_of_registers ≡ done (r, m') =
          sym (get_reg_new v m new ∙ rw (full) refl) ∙ e in
        absurd (cc stuck)
    | inr room ↦
        let same =
          done_value (get_or gp_pool m.next_gp 0, with_reg v m) (r, m')
            (sym (get_reg_new v m new ∙ rw (room) refl) ∙ e) in
        subst (λ p. Extends v p.0 m p.1) same (with_reg-Extends v m h new room)
  ]
  | inr (q, old) ↦
      let same = done_value (q, m) (r, m') (sym (get_reg_old v q m old) ∙ e) in
      subst (λ p. Extends v p.0 m p.1) same (h, old, λ u p e. e, λ u p apart e. e)
]

-- A scratch register is in the pool, is no register of the map, and is none of those excluded.
pub get_scratch-IsApart :
    (pool : List ℕ) (map : List (ℕ × ℕ)) (exclude : List ℕ) (r : ℕ)
    → get_scratch pool map exclude ≡ done r
    → (is_listed r pool ≡ true) × (is_mapped r map ≡ false) × IsApart r exclude
unfolding get_scratch is_listed
get_scratch-IsApart [] map exclude r e = absurd (cc e)
get_scratch-IsApart (p ∷ pool) map exclude r e =
    elim (Bool-cases (is_mapped p map || is_listed p exclude)) [
      | inl used ↦
          let later = get_scratch-IsApart pool map exclude r (sym (rw (used) refl) ∙ e) in
          (ground (arith, later.0), later.1, later.2)
      | inr free ↦
          let same : p ≡ r = done_value p r (sym (rw (free) refl) ∙ e) in
          (
            ground (arith, same),
            subst (λ q. is_mapped q map ≡ false) same (ground arith),
            subst (λ q. IsApart q exclude) same (listed p exclude (ground arith)),
          )
    ]
  where
    listed : (q : ℕ) (qs : List ℕ) → is_listed q qs ≡ false → IsApart q qs
    listed q [] h = tt
    listed q (x ∷ xs) h = (ground arith, listed q xs (ground arith))

pub mapped-apart :
    (map : List (ℕ × ℕ)) (r v q : ℕ)
    → is_mapped r map ≡ false
    → lookup v map ≡ some q
    → (q == r) ≡ false
unfolding is_mapped lookup
mapped-apart [] r v q free e = absurd (cc e)
mapped-apart ((u, p) ∷ map) r v q free e = elim (Bool-cases (u == v)) [
  | inl same ↦
      let here : some p ≡ some q = sym (rw (same) refl) ∙ e in
      let p_eq : p ≡ q = cc here in ground (arith, p_eq)
  | inr other ↦ mapped-apart map r v q (ground arith) (sym (rw (other) refl) ∙ e)
]

pub listed-IsPooled : (r : ℕ) → is_listed r gp_pool ≡ true → IsPooled r
unfolding is_listed
listed-IsPooled r h = elim (Bool-cases (ltb 15 r)) [
  | inl high ↦ (ground arith, ground arith, inr (ground arith))
  | inr low ↦ (ground arith, ground arith, inl (ground arith))
]

-- What `get_scratch_reg` may answer: a register of the pool that is neither in use nor excluded, or
-- its exception, if every register of the pool is in use or excluded.
abbrev pub IsAnswer : List ℕ → List (ℕ × ℕ) → List ℕ → Compiled ℕ → Type 0
IsAnswer pool map exclude (done r) =
    (is_listed r pool ≡ true) × (is_mapped r map ≡ false) × (is_listed r exclude ≡ false)
IsAnswer pool map exclude out_of_scratch =
    (r : ℕ) → is_listed r pool ≡ true → (is_mapped r map || is_listed r exclude) ≡ true
IsAnswer pool map exclude out_of_registers = ⊥

module _ (map : List (ℕ × ℕ)) (exclude : List ℕ) (p : ℕ) (pool : List ℕ) where
  -- A register that may not be taken changes nothing.
  IsAnswer-more :
      (answer : Compiled ℕ)
      → (is_mapped p map || is_listed p exclude) ≡ true
      → IsAnswer pool map exclude answer
      → IsAnswer (p ∷ pool) map exclude answer
  unfolding is_listed
  IsAnswer-more (done r) used (listed, unmapped, free) = (ground arith, unmapped, free)
  IsAnswer-more out_of_registers used h = h
  IsAnswer-more out_of_scratch used h = λ r listed. elim (Bool-cases (p == r)) [
    | inl same ↦
        let p_eq : p ≡ r = ground arith in
        ap (λ q. is_mapped q map || is_listed q exclude) (sym p_eq) ∙ used
    | inr other ↦ h r (sym (rw (other) refl) ∙ listed)
  ]

-- `get_scratch_reg` returns a register of the pool that holds no virtual register and is not
-- excluded, and throws only if every register of the pool is in use or excluded.
pub get_scratch-IsAnswer :
    (pool : List ℕ) (map : List (ℕ × ℕ)) (exclude : List ℕ)
    → IsAnswer pool map exclude (get_scratch pool map exclude)
unfolding get_scratch is_listed
get_scratch-IsAnswer [] map exclude = λ r listed. absurd (cc listed)
get_scratch-IsAnswer (p ∷ pool) map exclude =
    elim (Bool-cases (is_mapped p map || is_listed p exclude)) [
      | inl used ↦ rw used (
          IsAnswer-more map exclude p pool (get_scratch pool map exclude) used
            (get_scratch-IsAnswer pool map exclude))
      | inr free ↦ rw free (ground arith, ground (arith, free), ground (arith, free))
    ]
