-- ===== src/Sql/Tokenizer.antt =====
-- `SqlParser::Tokenize` of src/sql_parser.cpp. The position in the text is the rest of it. The tests
-- of <cctype> are those of the C locale.
pub mod Laws
pub mod Spelling
use green_gate.Base.{
  ℕ, zero, suc, ◌-◌, Bool, true, false, ◌&&◌, ◌||◌, List, [], ◌∷◌, leb, ◌==◌, if◌then◌else◌, map,
  length,
}
use green_gate.Base.Bytes.{Bytes, codes, bytes_eq}
use green_gate.Sql.Result.{Result, ok, failed, out_of_fuel, ◌>>=◌, unexpected_character}

-- `Token`. The text of a token other than an identifier or a number is that of its type.
pub data Token : Type 0 where
  identifier number : Bytes → Token
  and gt lt ge le eq lparen rparen end : Token

-- `Token::text`.
unfoldable pub text : Token → Bytes
text (identifier word) = word
text (number num) = num
text and = codes "AND"
text gt = codes ">"
text lt = codes "<"
text ge = codes ">="
text le = codes "<="
text eq = codes "="
text lparen = codes "("
text rparen = codes ")"
text end = []

-- `std::isspace`.
unfoldable pub is_space : ℕ → Bool
is_space c = c == 32 || leb 9 c && leb c 13

-- `std::isdigit`.
unfoldable pub is_digit : ℕ → Bool
is_digit c = leb b'0' c && leb c b'9'

-- `std::isalpha`.
unfoldable pub is_alpha : ℕ → Bool
is_alpha c = leb b'A' c && leb c b'Z' || leb b'a' c && leb c b'z'

-- `std::isalnum(c) || c == '_'`
unfoldable pub is_word : ℕ → Bool
unfolding is_digit is_alpha
is_word c = (is_alpha c || is_digit c) || c == b'_'

-- `::toupper`.
unfoldable pub to_upper : ℕ → ℕ
to_upper c = if leb b'a' c && leb c b'z' then c - 32 else c

-- The bytes that a loop collects, and what it leaves.
unfoldable pub take_while : (ℕ → Bool) → Bytes → Bytes
take_while test [] = []
take_while test (c ∷ s) = if test c then c ∷ take_while test s else []

unfoldable pub drop_while : (ℕ → Bool) → Bytes → Bytes
drop_while test [] = []
drop_while test (c ∷ s) = if test c then drop_while test s else c ∷ s

-- An identifier, or the keyword in any case.
unfoldable pub word_token : Bytes → Token
unfolding to_upper bytes_eq
word_token word = if bytes_eq (map to_upper word) (codes "AND") then and else identifier word

-- What a round of the loop does: skip, take a token, or throw.
pub data Lexed : Type 0 where
  skipped : Bytes → Lexed
  lexed : Token → Bytes → Lexed
  refused : ℕ → Lexed

-- `>` and `<`, with an `=` behind them or not.
unfoldable pub operator : Token → Token → Bytes → Lexed
operator with_eq alone [] = lexed alone []
operator with_eq alone (c ∷ s) = if c == b'=' then lexed with_eq s else lexed alone (c ∷ s)

-- The body of the loop, at a character and the rest of the text.
unfoldable pub next_token : ℕ → Bytes → Lexed
unfolding is_space is_digit is_alpha is_word take_while drop_while word_token operator
next_token c s =
    if is_space c
    then skipped s
    else if c == b'('
    then lexed lparen s
    else if c == b')'
    then lexed rparen s
    else if c == b'>'
    then operator ge gt s
    else if c == b'<'
    then operator le lt s
    else if c == b'='
    then lexed eq s
    else if is_digit c
    then lexed (number (take_while is_digit (c ∷ s))) (drop_while is_digit (c ∷ s))
    else if is_alpha c || c == b'_'
    then lexed (word_token (take_while is_word (c ∷ s))) (drop_while is_word (c ∷ s))
    else refused c

-- The loop goes on behind a round.
unfoldable pub go_on : (Bytes → Result (List Token)) → Lexed → Result (List Token)
go_on loop (skipped s) = loop s
go_on loop (lexed t s) = do ts ← loop s; ok (t ∷ ts)
go_on loop (refused c) = failed (unexpected_character c)

-- The loop, a unit of fuel for each round.
unfoldable pub tokenize_from : ℕ → Bytes → Result (List Token)
unfolding next_token go_on
tokenize_from fuel [] = ok (end ∷ [])
tokenize_from zero (c ∷ s) = out_of_fuel
tokenize_from (suc fuel) (c ∷ s) = go_on (tokenize_from fuel) (next_token c s)

-- `SqlParser::Tokenize`.
unfoldable pub tokenize : Bytes → Result (List Token)
unfolding tokenize_from
tokenize src = tokenize_from (length src) src
