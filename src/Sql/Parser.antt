-- ===== src/Sql/Parser.antt =====
-- `SqlParser::Parse` of src/sql_parser.cpp and the functions of its grammar. The position is the list
-- of tokens from there on. The nodes are those of the JIT library's `apex::builder`, a parameter.
pub mod Syntax
pub mod Sound
pub mod Complete
pub mod RoundTrip
use green_gate.Base.{
  ℕ, zero, suc, ◌+◌, ◌-◌, ◌*◌, ◌^◌, Option, none, some, List, [], ◌∷◌, length, ltb, if◌then◌else◌,
}
use green_gate.Base.Bytes.{Bytes}
use green_gate.Sql.Result.{
  Result, ok, failed, undefined, out_of_fuel, ◌>>=◌, trailing_tokens, unexpected_end,
  mismatched_parentheses, unexpected_token, out_of_range,
}
use green_gate.Sql.Tokenizer.{
  Token, identifier, number, and, gt, lt, ge, le, eq, lparen, rparen, end, text, tokenize,
}

-- What the parser calls of `apex::builder`. `constant` takes an `int64_t` that is not negative.
pub record Builder {ℓ} (Node : Type ℓ) : Type ℓ where
  pub load : Bytes → Node
  pub constant : ℕ → Node
  pub conjunction : Node → Node → Node
  pub greater : Node → Node → Node
  pub less : Node → Node → Node
  pub greater_equal : Node → Node → Node
  pub less_equal : Node → Node → Node
  pub equals : Node → Node → Node

-- The number that digits spell behind `n`.
unfoldable pub decimal : ℕ → Bytes → ℕ
decimal n [] = n
decimal n (c ∷ s) = decimal (n * 10 + (c - b'0')) s

-- `std::stoll` of digits.
unfoldable pub stoll : Bytes → Result ℕ
unfolding decimal
stoll num = if ltb (decimal 0 num) (2 ^ 63) then ok (decimal 0 num) else failed out_of_range

module _ {ℓ} {Node : Type ℓ} (b : Builder Node) where
  -- The comparisons and their nodes.
  unfoldable pub comparison : Token → Option (Node → Node → Node)
  comparison gt = some b.greater
  comparison lt = some b.less
  comparison ge = some b.greater_equal
  comparison le = some b.less_equal
  comparison eq = some b.equals
  comparison _ = none

  -- The right side of a comparison, if the token is one.
  unfoldable pub compare_by :
      (List Token → Result (Node × List Token))
      → Node
      → Option (Node → Node → Node)
      → Token
      → List Token
      → Result (Node × List Token)
  compare_by primary left none t tokens = ok (left, t ∷ tokens)
  compare_by primary left (some compare) t tokens = do
    (right, rest) ← primary tokens
    ok (compare left right, rest)

  -- The check for `)` behind an expression.
  unfoldable pub close_group : Node → List Token → Result (Node × List Token)
  close_group node [] = undefined
  close_group node (rparen ∷ rest) = ok (node, rest)
  close_group node (_ ∷ rest) = failed mismatched_parentheses

  -- What a call leaves of the tokens is not a structural part of them, so each call and each round
  -- of the loop costs a unit of fuel.
  unfoldable mutual
    unfolding comparison compare_by close_group stoll text

    -- `ParseExpression`, up to its loop.
    pub parse_expression : ℕ → List Token → Result (Node × List Token)
    parse_expression zero tokens = out_of_fuel
    parse_expression (suc f) tokens = do (node, rest) ← parse_term f tokens; and_loop f node rest

    -- The loop of `ParseExpression`.
    pub and_loop : ℕ → Node → List Token → Result (Node × List Token)
    and_loop zero node tokens = out_of_fuel
    and_loop (suc f) node [] = undefined
    and_loop (suc f) node (and ∷ tokens) = do
      (right, rest) ← parse_term f tokens
      and_loop f (b.conjunction node right) rest
    and_loop (suc f) node (t ∷ tokens) = ok (node, t ∷ tokens)

    -- `ParseTerm`, up to its left side.
    pub parse_term : ℕ → List Token → Result (Node × List Token)
    parse_term zero tokens = out_of_fuel
    parse_term (suc f) tokens = do (left, rest) ← parse_primary f tokens; compare_rest f left rest

    -- The comparison of `ParseTerm`, if there is one.
    pub compare_rest : ℕ → Node → List Token → Result (Node × List Token)
    compare_rest zero left tokens = out_of_fuel
    compare_rest (suc f) left [] = undefined
    compare_rest (suc f) left (t ∷ tokens) =
        compare_by (parse_primary f) left (comparison t) t tokens

    -- `ParsePrimary`.
    pub parse_primary : ℕ → List Token → Result (Node × List Token)
    parse_primary zero tokens = out_of_fuel
    parse_primary (suc f) [] = failed unexpected_end
    parse_primary (suc f) (lparen ∷ tokens) = do
      (node, rest) ← parse_expression f tokens
      close_group node rest
    parse_primary (suc f) (identifier word ∷ tokens) = ok (b.load word, tokens)
    parse_primary (suc f) (number num ∷ tokens) = do val ← stoll num; ok (b.constant val, tokens)
    parse_primary (suc f) (t ∷ tokens) = failed (unexpected_token (text t))

  -- The check for the end; `size` is the number of all tokens.
  unfoldable pub finish : ℕ → Node → List Token → Result Node
  finish size root [] = undefined
  finish size root (end ∷ rest) = ok root
  finish size root (t ∷ rest) = failed (trailing_tokens (size - length (t ∷ rest)))

  -- `Parse`, behind `Tokenize`.
  unfoldable pub parse_tokens : List Token → Result Node
  unfolding parse_expression finish
  parse_tokens tokens = do
    (root, rest) ← parse_expression (4 * length tokens + 3) tokens
    finish (length tokens) root rest

  -- `SqlParser::Parse`.
  unfoldable pub parse : Bytes → Result Node
  unfolding tokenize parse_tokens
  parse sql_predicate = do tokens ← tokenize sql_predicate; parse_tokens tokens
