-- ===== src/Sql/Parser/Sound.antt =====
-- What the parser accepts: the tokens of a tree of the grammar. The fuel of `parse` always suffices,
-- and no read goes behind the end token.
use green_gate.Base.{
  ℕ, zero, suc, ◌+◌, ◌*◌, ◌^◌, ◌<◌, ◌≤◌, ◌≡◌, refl, ap, Option, none, some, List, [], ◌∷◌, ◌++◌,
  append_assoc, arith, length, length-append, ltb, Bool-cases, ltb→lt, inl, inr,
}
use green_gate.Base.Bytes.{Bytes}
use green_gate.Sql.Result.{Result, Ensures, holds, rejected, Ensures-bind, Ensures-map}
use green_gate.Sql.Tokenizer.{
  Token, identifier, number, and, gt, lt, ge, le, eq, lparen, rparen, end,
}
use green_gate.Sql.Tokenizer.Laws.{IsClosed, closed_end, closed_more}
use green_gate.Sql.Parser.{
  Builder, decimal, stoll, comparison, close_group, parse_expression, and_loop, parse_term,
  compare_rest, parse_primary, compare_by, finish, parse_tokens,
}
use green_gate.Sql.Parser.Syntax.{
  Comparison, greater, less, greater_equal, less_equal, equals, Expression, Primary, expression,
  no_more, and_also, alone, compare, column, literal, group, operator, emit, emit_terms, emit_term,
  emit_primary, InRange, TermsInRange, TermInRange, PrimaryInRange, node_of, build, build_terms,
  build_term, build_primary,
}

length_rest : {ts : List Token} (xs us : List Token) → ts ≡ xs ++ us → length us ≤ length ts
length_rest xs us e = omega (arith, length-append xs us, ap length e)

stoll-Ensures : (num : Bytes) → Ensures (λ v. (v ≡ decimal 0 num) × (v < 2 ^ 63)) (stoll num)
unfolding stoll
stoll-Ensures num = elim (Bool-cases (ltb (decimal 0 num) (2 ^ 63))) [
  | inl h ↦ rw h (holds (refl, ltb→lt _ _ h))
  | inr h ↦ rw h (rejected cc)
]

IsClosed-operator :
    (t : Token) (op : Comparison) (ts : List Token)
    → t ≡ operator op
    → IsClosed (t ∷ ts)
    → IsClosed ts
unfolding operator
IsClosed-operator _ greater _ e closed_end = cc
IsClosed-operator _ less _ e closed_end = cc
IsClosed-operator _ greater_equal _ e closed_end = cc
IsClosed-operator _ less_equal _ e closed_end = cc
IsClosed-operator _ equals _ e closed_end = cc
IsClosed-operator t op ts e (closed_more _ closed) = closed

module _ {ℓ} {Node : Type ℓ} (b : Builder Node) where
  -- From `ts`, what is left is closed, and what was taken is a tree.
  abbrev pub Reads {κ} :
      {T : Type κ}
      → (T → List Token)
      → (T → Node)
      → (T → Type 0)
      → List Token
      → Node × List Token
      → Type (ℓ ⊔ κ)
  Reads {T = T} tokens_of build_of InRangeOf ts read =
      IsClosed read.1 × (e : T) × (ts ≡ tokens_of e ++ read.1) × InRangeOf e × (read.0 ≡ build_of e)

  comparison→operator :
      (t : Token) {f : Node → Node → Node}
      → comparison b t ≡ some f
      → (op : Comparison) × (t ≡ operator op) × (f ≡ node_of b op)
  unfolding comparison operator node_of
  comparison→operator gt h = (greater, refl, cc)
  comparison→operator lt h = (less, refl, cc)
  comparison→operator ge h = (greater_equal, refl, cc)
  comparison→operator le h = (less_equal, refl, cc)
  comparison→operator eq h = (equals, refl, cc)
  comparison→operator _ h = cc

  compare_by-Ensures :
      (primary : List Token → Result (Node × List Token)) (ts : List Token) (left : Node)
      (o : Option (Node → Node → Node)) (t : Token) (us : List Token) (p : Primary)
      → ts ≡ emit_primary p ++ t ∷ us
      → PrimaryInRange p
      → left ≡ build_primary b p
      → comparison b t ≡ o
      → IsClosed (t ∷ us)
      → (IsClosed us
          → Ensures (Reads emit_primary (build_primary b) PrimaryInRange us) (primary us))
      → Ensures (Reads emit_term (build_term b) TermInRange ts) (compare_by b primary left o t us)
  unfolding compare_by emit InRange build
  compare_by-Ensures primary ts left none t us p e fits q found closed reads =
      holds {a = (left, t ∷ us)} (closed, alone p, e, fits, q)
  compare_by-Ensures primary ts left (some compare_with) t us p e fits q found closed reads =
      let (op, op_is, fun_is) = comparison→operator t found in
      Ensures-bind (reads (IsClosed-operator t op us op_is closed))
        λ (n, vs) (shut, p', e', fits', q'). holds {a = (compare_with left n, vs)} (
          shut,
          compare op p p',
          simp (e, e', op_is, append_assoc),
          (fits, fits'),
          rw (q, q', fun_is),
        )

  close_group-Ensures :
      (node : Node) (ts : List Token)
      → IsClosed ts
      → Ensures
          (λ (n, rest). IsClosed rest × (ts ≡ rparen ∷ rest) × (n ≡ node))
          (close_group b node ts)
  unfolding close_group
  close_group-Ensures node _ closed_end = rejected cc
  close_group-Ensures node (rparen ∷ _) (closed_more _ closed) = holds (closed, refl, refl)
  close_group-Ensures node (_ ∷ _) (closed_more _ closed) = rejected cc

  -- One induction on the fuel: what is left is no longer, so the fuel stays above its bound.
  mutual
    unfolding parse_expression emit InRange build

    parse_expression-Ensures :
        (f : ℕ) (ts : List Token)
        → IsClosed ts
        → 4 * length ts + 2 < f
        → Ensures (Reads emit (build b) InRange ts) (parse_expression b f ts)
    parse_expression-Ensures zero ts closed h = absurd (omega arith)
    parse_expression-Ensures (suc f) ts closed h =
        Ensures-bind (parse_term-Ensures f ts closed (omega arith)) λ (n, us) (shut, t, p, fits, q).
          Ensures-map (and_loop-Ensures f n us shut (omega (arith, length_rest (emit_term t) us p)))
            λ (n', vs) (shut', more, p', fits', q').
              (shut', expression t more, simp (p, p', append_assoc), (fits, fits'), rw (q', q))

    and_loop-Ensures :
        (f : ℕ) (node : Node) (ts : List Token)
        → IsClosed ts
        → 4 * length ts < f
        → Ensures (Reads emit_terms (build_terms b node) TermsInRange ts) (and_loop b f node ts)
    and_loop-Ensures zero node ts closed h = absurd (omega arith)
    and_loop-Ensures (suc f) node (and ∷ ts) (closed_more _ closed) h =
        Ensures-bind (parse_term-Ensures f ts closed (omega arith)) λ (n, us) (shut, t, p, fits, q).
          Ensures-map
            (and_loop-Ensures f (b.conjunction node n) us shut
              (omega (arith, length_rest (emit_term t) us p)))
            λ (n', vs) (shut', more, p', fits', q').
              (shut', and_also t more, simp (p, p', append_assoc), (fits, fits'), rw (q', q))
    and_loop-Ensures (suc f) node [] closed h = elim closed [ ]
    and_loop-Ensures (suc f) node (t ∷ ts) closed h = holds (closed, no_more, refl, tt, refl)

    parse_term-Ensures :
        (f : ℕ) (ts : List Token)
        → IsClosed ts
        → 4 * length ts + 1 < f
        → Ensures (Reads emit_term (build_term b) TermInRange ts) (parse_term b f ts)
    parse_term-Ensures zero ts closed h = absurd (omega arith)
    parse_term-Ensures (suc f) ts closed h =
        Ensures-bind (parse_primary-Ensures f ts closed (omega arith))
          λ (n, us) (shut, p, e, fits, q).
            compare_rest-Ensures f ts n us p e fits q shut
              (omega (arith, length_rest (emit_primary p) us e))

    compare_rest-Ensures :
        (f : ℕ) (ts : List Token) (left : Node) (us : List Token) (p : Primary)
        → ts ≡ emit_primary p ++ us
        → PrimaryInRange p
        → left ≡ build_primary b p
        → IsClosed us
        → 4 * length us < f
        → Ensures (Reads emit_term (build_term b) TermInRange ts) (compare_rest b f left us)
    compare_rest-Ensures zero ts left us p e fits q closed h = absurd (omega arith)
    compare_rest-Ensures (suc f) ts left [] p e fits q closed h = elim closed [ ]
    compare_rest-Ensures (suc f) ts left (t ∷ us) p e fits q closed h =
        compare_by-Ensures (parse_primary b f) ts left (comparison b t) t us p e fits q refl closed
          (λ shut. parse_primary-Ensures f us shut (omega arith))

    parse_primary-Ensures :
        (f : ℕ) (ts : List Token)
        → IsClosed ts
        → 4 * length ts < f
        → Ensures (Reads emit_primary (build_primary b) PrimaryInRange ts) (parse_primary b f ts)
    parse_primary-Ensures zero ts closed h = absurd (omega arith)
    parse_primary-Ensures (suc f) (lparen ∷ ts) (closed_more _ closed) h =
        Ensures-bind (parse_expression-Ensures f ts closed (omega arith))
          λ (n, us) (shut, e, p, fits, q).
            Ensures-map (close_group-Ensures n us shut) λ (n', vs) (shut', p', q').
              (shut', group e, simp (p, p', append_assoc), fits, rw (q', q))
    parse_primary-Ensures (suc f) (identifier word ∷ ts) (closed_more _ closed) h =
        holds (closed, column word, refl, tt, refl)
    parse_primary-Ensures (suc f) (number num ∷ ts) (closed_more _ closed) h =
        Ensures-bind (stoll-Ensures num) λ v (is, fits).
          holds {a = (b.constant v, ts)} (closed, literal num, refl, rw is at fits, rw is)
    parse_primary-Ensures (suc f) [] closed h = elim closed [ ]
    parse_primary-Ensures (suc f) (t ∷ ts) closed h = rejected cc

  -- The tokens of a tree with the end behind, and the tree's node.
  abbrev pub IsParseOf : List Token → Node → Type ℓ
  IsParseOf ts root = (e : Expression) × (ts ≡ emit e ++ end ∷ []) × InRange e × (root ≡ build b e)

  finish-Ensures :
      (size : ℕ) (root : Node) (rest : List Token)
      → IsClosed rest
      → Ensures (λ n. (rest ≡ end ∷ []) × (n ≡ root)) (finish b size root rest)
  unfolding finish
  finish-Ensures size root _ closed_end = holds (refl, refl)
  finish-Ensures size root (end ∷ rest) (closed_more ne closed) = absurd (ne refl)
  finish-Ensures size root (t ∷ rest) (closed_more ne closed) = rejected cc

  pub parse_tokens-Ensures :
      (ts : List Token) → IsClosed ts → Ensures (IsParseOf ts) (parse_tokens b ts)
  unfolding parse_tokens
  parse_tokens-Ensures ts closed =
      Ensures-bind (parse_expression-Ensures (4 * length ts + 3) ts closed (omega arith))
        λ (n, us) (shut, e, p, fits, q).
          Ensures-map (finish-Ensures (length ts) n us shut)
            λ n' (at_end, same). (e, simp (p, at_end), fits, rw (same, q))
