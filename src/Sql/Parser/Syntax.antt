-- ===== src/Sql/Parser/Syntax.antt =====
-- The grammar in the comments of src/sql_parser.cpp as trees, the tokens that a tree stands for, and
-- the node that the JIT library gets for it.
use green_gate.Base.{◌^◌, ◌<◌, List, [], ◌∷◌, ◌++◌}
use green_gate.Base.Bytes.{Bytes}
use green_gate.Sql.Tokenizer.{Token, identifier, number, and, gt, lt, ge, le, eq, lparen, rparen}
use green_gate.Sql.Parser.{Builder, decimal}

pub data Comparison : Type 0 where
  greater less greater_equal less_equal equals : Comparison

-- Expression ::= Term { "AND" Term }, Term ::= Primary [ Comparison Primary ],
-- Primary ::= Identifier | Number | "(" Expression ")"
mutual
  pub data Expression : Type 0 where
    expression : Term → Terms → Expression

  pub data Terms : Type 0 where
    no_more : Terms
    and_also : Term → Terms → Terms

  pub data Term : Type 0 where
    alone : Primary → Term
    compare : Comparison → Primary → Primary → Term

  pub data Primary : Type 0 where
    column literal : Bytes → Primary
    group : Expression → Primary

unfoldable pub operator : Comparison → Token
operator greater = gt
operator less = lt
operator greater_equal = ge
operator less_equal = le
operator equals = eq

unfoldable mutual
  unfolding operator

  pub emit : Expression → List Token
  emit (expression t ts) = emit_term t ++ emit_terms ts

  pub emit_terms : Terms → List Token
  emit_terms no_more = []
  emit_terms (and_also t ts) = and ∷ (emit_term t ++ emit_terms ts)

  pub emit_term : Term → List Token
  emit_term (alone p) = emit_primary p
  emit_term (compare op p q) = emit_primary p ++ operator op ∷ emit_primary q

  pub emit_primary : Primary → List Token
  emit_primary (column word) = identifier word ∷ []
  emit_primary (literal num) = number num ∷ []
  emit_primary (group e) = lparen ∷ (emit e ++ rparen ∷ [])

-- All numbers are below 2 ^ 63.
unfoldable mutual
  pub InRange : Expression → Type 0
  InRange (expression t ts) = TermInRange t × TermsInRange ts

  pub TermsInRange : Terms → Type 0
  TermsInRange no_more = Unit
  TermsInRange (and_also t ts) = TermInRange t × TermsInRange ts

  pub TermInRange : Term → Type 0
  TermInRange (alone p) = PrimaryInRange p
  TermInRange (compare op p q) = PrimaryInRange p × PrimaryInRange q

  pub PrimaryInRange : Primary → Type 0
  PrimaryInRange (column word) = Unit
  PrimaryInRange (literal num) = decimal 0 num < 2 ^ 63
  PrimaryInRange (group e) = InRange e

module _ {ℓ} {Node : Type ℓ} (b : Builder Node) where
  unfoldable pub node_of : Comparison → Node → Node → Node
  node_of greater = b.greater
  node_of less = b.less
  node_of greater_equal = b.greater_equal
  node_of less_equal = b.less_equal
  node_of equals = b.equals

  -- The conjunctions are nested to the left.
  unfoldable mutual
    unfolding node_of

    pub build : Expression → Node
    build (expression t ts) = build_terms (build_term t) ts

    pub build_terms : Node → Terms → Node
    build_terms node no_more = node
    build_terms node (and_also t ts) = build_terms (b.conjunction node (build_term t)) ts

    pub build_term : Term → Node
    build_term (alone p) = build_primary p
    build_term (compare op p q) = node_of op (build_primary p) (build_primary q)

    pub build_primary : Primary → Node
    build_primary (column word) = b.load word
    build_primary (literal num) = b.constant (decimal 0 num)
    build_primary (group e) = build e
