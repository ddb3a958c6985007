-- ===== src/Sql/Parser/RoundTrip.antt =====
-- An expression written as text is parsed back.
use green_gate.Base.{◌≡◌, All}
use green_gate.Base.Bytes.{Bytes}
use green_gate.Sql.Result.{ok}
use green_gate.Sql.Tokenizer.Spelling.{IsSpelled, spell, tokenize-spell}
use green_gate.Sql.Parser.{Builder, parse}
use green_gate.Sql.Parser.Complete.{parse_tokens-emit}
use green_gate.Sql.Parser.Syntax.{Expression, emit, InRange, build}

-- The text of an expression: its tokens, with a blank behind each.
abbrev pub print : Expression → Bytes
print e = spell (emit e)

-- `Parse` gives the node of an expression back from its text, if its identifiers and numbers are
-- spelled as `Tokenize` takes them and its numbers are below 2 ^ 63.
pub parse-print {ℓ} :
    {Node : Type ℓ} (b : Builder Node) (e : Expression)
    → All IsSpelled (emit e)
    → InRange e
    → parse b (print e) ≡ ok (build b e)
unfolding parse
parse-print b e spelled fits = rw (tokenize-spell (emit e) spelled, parse_tokens-emit b e fits)
