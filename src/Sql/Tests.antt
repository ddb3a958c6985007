-- ===== src/Sql/Tests.antt =====
-- `price >= 10 AND (name=x and y)` and its kin, through the tokenizer and the parser.
use green_gate.Base.{arith, ℕ, ◌≡◌, ◌≢◌, ◌↔◌, refl, []}
use green_gate.Base.Bytes.{Bytes, codes}
use green_gate.Sql.Result.{
  ok, failed, out_of_fuel, undefined, unexpected_character, unexpected_end, unexpected_token,
  trailing_tokens, mismatched_parentheses, out_of_range,
}
use green_gate.Sql.Tokenizer.{tokenize, is_alpha, is_word, word_token}
use green_gate.Sql.Tokenizer.Laws.{Answers, first_refused, tokenize-Answers}
use green_gate.Sql.Tokenizer.Spelling.{IsSpelled}
use green_gate.Sql.Parser.{Builder, parse, decimal}
use green_gate.Sql.Parser.Syntax.{
  Comparison, Expression, expression, no_more, and_also, alone, compare, column, literal, group,
  emit, build, InRange,
}
use green_gate.Sql.Parser.Complete.{IsNodeOf, parse-eq-ok_iff, parse-Returns}
use green_gate.Sql.Parser.RoundTrip.{print, parse-print}

-- Nodes as terms.
data Node : Type 0 where
  load : Bytes → Node
  constant : ℕ → Node
  conjunction greater less greater_equal less_equal equals : Node → Node → Node

abbrev nodes : Builder Node
nodes = record {
  load = load;
  constant = constant;
  conjunction = conjunction;
  greater = greater;
  less = less;
  greater_equal = greater_equal;
  less_equal = less_equal;
  equals = equals;
}

-- price >= 10 AND ( name = x AND y )
abbrev sample : Expression
sample =
    expression (compare Comparison.greater_equal (column (codes "price")) (literal (codes "10"))) (
      and_also
        (alone (
          group (
            expression (compare Comparison.equals (column (codes "name")) (column (codes "x")))
              (and_also (alone (column (codes "y"))) no_more))))
        no_more)

parse-print_example : parse nodes (print sample) ≡ ok (build nodes sample)
parse-print_example =
    parse-print nodes sample
      (unfold emit IsSpelled is_word is_alpha word_token in
        (
          (refl, (refl, (refl, (refl, (refl, tt)))), refl),
          (
            tt,
            (
              (refl, (refl, tt)),
              (
                tt,
                (
                  tt,
                  (
                    (refl, (refl, (refl, (refl, tt))), refl),
                    (tt, ((refl, tt, refl), (tt, ((refl, tt, refl), (tt, tt))))),
                  ),
                ),
              ),
            ),
          ),
        ))
      (unfold InRange decimal in ((tt, omega arith), (((tt, tt), (tt, tt)), tt)))

tokenize-Answers_example : Answers (first_refused (codes "a > 1;")) (tokenize (codes "a > 1;"))
tokenize-Answers_example = tokenize-Answers (codes "a > 1;")

parse-eq-ok_iff_example :
    (parse nodes (codes "a<=7") ≡ ok (less_equal (load (codes "a")) (constant 7)))
    ↔ IsNodeOf nodes (codes "a<=7") (less_equal (load (codes "a")) (constant 7))
parse-eq-ok_iff_example =
    parse-eq-ok_iff nodes (codes "a<=7") (less_equal (load (codes "a")) (constant 7))

parse-Returns_example :
    (parse nodes (codes "(a and") ≢ out_of_fuel)
    × (parse nodes (codes "(a and") ≢ undefined)
    × (parse nodes (codes "(a and") ≢ failed unexpected_end)
parse-Returns_example = parse-Returns nodes (codes "(a and")

parse_keyword :
    parse nodes (codes "a=1 aNd(b>2)")
    ≡ ok (
        conjunction
          (equals (load (codes "a")) (constant 1))
          (greater (load (codes "b")) (constant 2)))
unfolding parse
parse_keyword = refl

parse_trailing : parse nodes (codes "a=1=2") ≡ failed (trailing_tokens 3)
unfolding parse
parse_trailing = refl

parse_open : parse nodes (codes "(a") ≡ failed mismatched_parentheses
unfolding parse
parse_open = refl

parse_missing : parse nodes (codes "a >") ≡ failed (unexpected_token [])
unfolding parse
parse_missing = refl

parse_large : parse nodes (codes "9223372036854775808") ≡ failed out_of_range
unfolding parse
parse_large = refl

parse_foreign : parse nodes (codes "a ! b") ≡ failed (unexpected_character b'!')
unfolding parse
parse_foreign = refl
