-- ===== src/Sql/Parser/Complete.antt =====
-- The tokens of a tree of the grammar are read as that tree: `parse` accepts exactly the grammar.
use green_gate.Base.{
  ℕ, zero, suc, ◌+◌, ◌*◌, ◌^◌, ◌<◌, ◌≡◌, ◌≢◌, ◌↔◌, refl, Option, none, some, List, [], ◌∷◌, ◌++◌,
  append_assoc, arith, length, length-append, lt→ltb,
}
use green_gate.Base.Bytes.{Bytes}
use green_gate.Sql.Result.{
  Result, ok, undefined, out_of_fuel, failed, unexpected_end, Ensures, rejected, Ensures-map,
  Ensures-ok, Ensures-out_of_fuel, Ensures-undefined, Ensures-unexpected_end, ◌>>=◌,
}
use green_gate.Sql.Tokenizer.{Token, and, rparen, end, tokenize}
use green_gate.Sql.Tokenizer.Laws.{Answers, first_refused, tokenize-Answers}
use green_gate.Sql.Parser.Sound.{IsParseOf, parse_tokens-Ensures}
use green_gate.Sql.Parser.{
  Builder, decimal, stoll, comparison, close_group, compare_by, parse_expression, and_loop,
  parse_term, compare_rest, parse_primary, finish, parse_tokens, parse,
}
use green_gate.Sql.Parser.Syntax.{
  Comparison, greater, less, greater_equal, less_equal, equals, Expression, Terms, Term, Primary,
  expression, no_more, and_also, alone, compare, column, literal, group, operator, emit, emit_terms,
  emit_term, emit_primary, InRange, TermsInRange, TermInRange, PrimaryInRange, node_of, build,
  build_terms, build_term, build_primary,
}

-- What stands behind an expression.
pub data IsFollow : Token → Type 0 where
  follow_rparen : IsFollow rparen
  follow_end : IsFollow end

stoll_in_range : (num : Bytes) → decimal 0 num < 2 ^ 63 → stoll num ≡ ok (decimal 0 num)
unfolding stoll
stoll_in_range num h = rw (lt→ltb (decimal 0 num) (2 ^ 63) h)

module _ {ℓ} {Node : Type ℓ} (b : Builder Node) where
  -- No comparison stands at the front.
  abbrev StopsTerm : List Token → Type ℓ
  StopsTerm us = (t : Token) × (rest : List Token) × (us ≡ t ∷ rest) × (comparison b t ≡ none)

  comparison-operator : (op : Comparison) → comparison b (operator op) ≡ some (node_of b op)
  unfolding comparison operator node_of
  comparison-operator greater = refl
  comparison-operator less = refl
  comparison-operator greater_equal = refl
  comparison-operator less_equal = refl
  comparison-operator equals = refl

  comparison-IsFollow : (t : Token) → IsFollow t → comparison b t ≡ none
  unfolding comparison
  comparison-IsFollow _ follow_rparen = refl
  comparison-IsFollow _ follow_end = refl

  emit_terms-StopsTerm :
      (ts : Terms) (t : Token) (us : List Token) → IsFollow t → StopsTerm (emit_terms ts ++ t ∷ us)
  unfolding emit comparison
  emit_terms-StopsTerm no_more t us follow = (t, us, refl, comparison-IsFollow t follow)
  emit_terms-StopsTerm (and_also x ts) t us follow =
      (and, (emit_term x ++ emit_terms ts) ++ t ∷ us, refl, refl)

  compare_rest_stops :
      (f : ℕ) (left : Node) (us : List Token)
      → 0 < f
      → StopsTerm us
      → compare_rest b f left us ≡ ok (left, us)
  unfolding parse_expression compare_by
  compare_rest_stops zero left us h stops = absurd (omega arith)
  compare_rest_stops (suc f) left us h (t, rest, e, none_here) = rw (e, none_here)

  compare_rest_compares :
      (f : ℕ) (left : Node) (op : Comparison) (us : List Token) {right : Node} {rest : List Token}
      → parse_primary b f us ≡ ok (right, rest)
      → compare_rest b (suc f) left (operator op ∷ us) ≡ ok (node_of b op left right, rest)
  unfolding parse_expression compare_by
  compare_rest_compares f left op us found = rw (comparison-operator op, found)

  and_loop_stops :
      (f : ℕ) (node : Node) (t : Token) (us : List Token)
      → 0 < f
      → IsFollow t
      → and_loop b f node (t ∷ us) ≡ ok (node, t ∷ us)
  unfolding parse_expression
  and_loop_stops zero node t us h follow = absurd (omega arith)
  and_loop_stops (suc f) node _ us h follow_rparen = refl
  and_loop_stops (suc f) node _ us h follow_end = refl

  -- One induction on the tree, with fuel above four times the number of its tokens.
  mutual
    unfolding parse_expression emit InRange build close_group

    parse_expression-emit :
        (e : Expression) (f : ℕ) (t : Token) (us : List Token)
        → IsFollow t
        → InRange e
        → 4 * length (emit e) + 2 < f
        → parse_expression b f (emit e ++ t ∷ us) ≡ ok (build b e, t ∷ us)
    parse_expression-emit e zero t us follow fits h = absurd (omega arith)
    parse_expression-emit (expression x ts) (suc f) t us follow (fits, fits') h =
        let size = length-append (emit_term x) (emit_terms ts) in
        simp (
          append_assoc,
          parse_term-emit x f (emit_terms ts ++ t ∷ us) (emit_terms-StopsTerm ts t us follow) fits
              (omega (arith, size)),
          and_loop-emit ts f (build_term b x) t us follow fits' (omega (arith, size)),
        )

    and_loop-emit :
        (ts : Terms) (f : ℕ) (node : Node) (t : Token) (us : List Token)
        → IsFollow t
        → TermsInRange ts
        → 4 * length (emit_terms ts) < f
        → and_loop b f node (emit_terms ts ++ t ∷ us) ≡ ok (build_terms b node ts, t ∷ us)
    and_loop-emit ts zero node t us follow fits h = absurd (omega arith)
    and_loop-emit no_more (suc f) node t us follow fits h =
        and_loop_stops (suc f) node t us (omega arith) follow
    and_loop-emit (and_also x ts) (suc f) node t us follow (fits, fits') h =
        let size = length-append (emit_term x) (emit_terms ts) in
        simp (
          append_assoc,
          parse_term-emit x f (emit_terms ts ++ t ∷ us) (emit_terms-StopsTerm ts t us follow) fits
              (omega (arith, size)),
          and_loop-emit ts f (b.conjunction node (build_term b x)) t us follow fits'
              (omega (arith, size)),
        )

    parse_term-emit :
        (x : Term) (f : ℕ) (us : List Token)
        → StopsTerm us
        → TermInRange x
        → 4 * length (emit_term x) + 1 < f
        → parse_term b f (emit_term x ++ us) ≡ ok (build_term b x, us)
    parse_term-emit x zero us stops fits h = absurd (omega arith)
    parse_term-emit (alone p) (suc f) us stops fits h = simp (
      parse_primary-emit p f us fits (omega arith),
      compare_rest_stops f (build_primary b p) us (omega arith) stops,
    )
    parse_term-emit (compare op p q) (suc zero) us stops fits h =
        absurd (omega (arith, length-append (emit_primary p) (operator op ∷ emit_primary q)))
    parse_term-emit (compare op p q) (suc (suc f)) us stops (fits, fits') h =
        let size = length-append (emit_primary p) (operator op ∷ emit_primary q) in
        simp (
          append_assoc,
          parse_primary-emit p (suc f) (operator op ∷ (emit_primary q ++ us)) fits
              (omega (arith, size)),
          compare_rest_compares f (build_primary b p) op (emit_primary q ++ us)
              (parse_primary-emit q f us fits' (omega (arith, size))),
        )

    parse_primary-emit :
        (p : Primary) (f : ℕ) (us : List Token)
        → PrimaryInRange p
        → 4 * length (emit_primary p) < f
        → parse_primary b f (emit_primary p ++ us) ≡ ok (build_primary b p, us)
    parse_primary-emit p zero us fits h = absurd (omega arith)
    parse_primary-emit (column word) (suc f) us fits h = refl
    parse_primary-emit (literal num) (suc f) us fits h = rw (stoll_in_range num fits)
    parse_primary-emit (group e) (suc f) us fits h = simp (
      append_assoc,
      parse_expression-emit e f rparen us follow_rparen fits
          (omega (arith, length-append (emit e) (rparen ∷ []))),
    )

  pub parse_tokens-emit :
      (e : Expression) → InRange e → parse_tokens b (emit e ++ end ∷ []) ≡ ok (build b e)
  unfolding parse_tokens finish
  parse_tokens-emit e fits = rw (
      parse_expression-emit e (4 * length (emit e ++ end ∷ []) + 3) end [] follow_end fits
        (omega (arith, length-append (emit e) (end ∷ []))))

  Answers-Ensures :
      (found : Option ℕ) (r : Result (List Token))
      → Answers found r
      → Ensures (λ n. (ts : List Token) × (r ≡ ok ts) × IsParseOf b ts n) (r >>= parse_tokens b)
  Answers-Ensures none r (ts, e, closed) =
      rw e (Ensures-map (parse_tokens-Ensures b ts closed) λ n parsed. (ts, refl, parsed))
  Answers-Ensures (some c) r e = rw e (rejected cc)

  -- The nodes of a text: those of the tree whose tokens the text has.
  abbrev pub IsNodeOf : Bytes → Node → Type ℓ
  IsNodeOf src root = (ts : List Token) × (tokenize src ≡ ok ts) × IsParseOf b ts root

  parse-Ensures : (src : Bytes) → Ensures (IsNodeOf src) (parse b src)
  unfolding parse
  parse-Ensures src = Answers-Ensures (first_refused src) (tokenize src) (tokenize-Answers src)

  parse_complete : (src : Bytes) (root : Node) → IsNodeOf src root → parse b src ≡ ok root
  unfolding parse
  parse_complete src root (ts, lexes, (e, is, fits, same)) =
      rw (lexes, is, same) (parse_tokens-emit e fits)

  -- `Parse` returns a node exactly for the texts of the grammar: the tokens of the text are those of
  -- an expression whose numbers are below 2 ^ 63, with the end behind, and the node is that of the
  -- expression, its conjunctions nested to the left.
  pub parse-eq-ok_iff : (src : Bytes) (root : Node) → (parse b src ≡ ok root) ↔ IsNodeOf src root
  parse-eq-ok_iff src root =
      (λ e. Ensures-ok (parse-Ensures src) e, λ node. parse_complete src root node)

  -- `Parse` always ends, with a node or one of its exceptions: it never reads behind the tokens, and
  -- it never finds that they are at an end without an end token.
  pub parse-Returns :
      (src : Bytes)
      → (parse b src ≢ out_of_fuel)
        × (parse b src ≢ undefined)
        × (parse b src ≢ failed unexpected_end)
  parse-Returns src = (
    Ensures-out_of_fuel (parse-Ensures src),
    Ensures-undefined (parse-Ensures src),
    Ensures-unexpected_end (parse-Ensures src),
  )
