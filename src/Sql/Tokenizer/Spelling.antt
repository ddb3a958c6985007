-- ===== src/Sql/Tokenizer/Spelling.antt =====
-- Tokens written as text with a blank behind each, and the tokens that `Tokenize` reads there.
use green_gate.Base.{
  ℕ, zero, suc, ◌≤◌, ◌≡◌, refl, Bool, true, false, ◌||◌, List, [], ◌∷◌, ◌++◌, All, arith, length,
  length-append, ◌==◌, map,
}
use green_gate.Base.Bytes.{Bytes, codes, bytes_eq}
use green_gate.Sql.Result.{ok, ◌>>=◌}
use green_gate.Sql.Tokenizer.Laws.{is_word_first}
use green_gate.Sql.Tokenizer.{
  Token, identifier, number, end, text, is_space, is_digit, is_alpha, is_word, to_upper, take_while,
  drop_while, word_token, lexed, next_token, go_on, tokenize_from, tokenize,
}

-- What `Tokenize` can give a token's text: an identifier is a letter or an underscore with letters,
-- digits and underscores behind it, and not the keyword; a number is one or more digits.
unfoldable pub IsSpelled : Token → Type 0
IsSpelled (identifier []) = ⊥
IsSpelled (identifier (c ∷ word)) =
    ((is_alpha c || c == b'_') ≡ true)
    × All (λ d. is_word d ≡ true) word
    × (bytes_eq (map to_upper (c ∷ word)) (codes "AND") ≡ false)
IsSpelled (number []) = ⊥
IsSpelled (number (c ∷ num)) = (is_digit c ≡ true) × All (λ d. is_digit d ≡ true) num
IsSpelled end = ⊥
IsSpelled _ = Unit

-- The tokens as a text.
unfoldable pub spell : List Token → Bytes
unfolding text
spell [] = []
spell (t ∷ ts) = text t ++ b' ' ∷ spell ts

take_while-append :
    (test : ℕ → Bool) (xs : Bytes) (d : ℕ) (s : Bytes)
    → All (λ x. test x ≡ true) xs
    → test d ≡ false
    → take_while test (xs ++ d ∷ s) ≡ xs
unfolding take_while
take_while-append test [] d s h stop = rw stop
take_while-append test (x ∷ xs) d s (here, later) stop =
    rw (here, take_while-append test xs d s later stop)

drop_while-append :
    (test : ℕ → Bool) (xs : Bytes) (d : ℕ) (s : Bytes)
    → All (λ x. test x ≡ true) xs
    → test d ≡ false
    → drop_while test (xs ++ d ∷ s) ≡ d ∷ s
unfolding drop_while
drop_while-append test [] d s h stop = rw stop
drop_while-append test (x ∷ xs) d s (here, later) stop =
    rw (here, drop_while-append test xs d s later stop)

next_token_digit :
    (c : ℕ) (s : Bytes)
    → is_digit c ≡ true
    → next_token c s ≡ lexed (number (take_while is_digit (c ∷ s))) (drop_while is_digit (c ∷ s))
unfolding next_token
next_token_digit c s h = ground arith

next_token_word :
    (c : ℕ) (s : Bytes)
    → (is_alpha c || c == b'_') ≡ true
    → next_token c s ≡ lexed (word_token (take_while is_word (c ∷ s))) (drop_while is_word (c ∷ s))
unfolding next_token
next_token_word c s h = ground arith

word_token_ne_keyword :
    (word : Bytes)
    → bytes_eq (map to_upper word) (codes "AND") ≡ false
    → word_token word ≡ identifier word
unfolding word_token
word_token_ne_keyword word h = rw h

-- One token of the text, read.
tokenize_from-text :
    (t : Token) (s : Bytes) (f : ℕ)
    → IsSpelled t
    → tokenize_from (suc f) (text t ++ b' ' ∷ s)
      ≡ (tokenize_from f (b' ' ∷ s) >>= λ ts. ok (t ∷ ts))
unfolding tokenize_from text IsSpelled go_on bytes_eq
tokenize_from-text (number (c ∷ num)) s f (first, later) = rw (
  next_token_digit c (num ++ b' ' ∷ s) first,
  take_while-append is_digit (c ∷ num) b' ' s (first, later) refl,
  drop_while-append is_digit (c ∷ num) b' ' s (first, later) refl,
)
tokenize_from-text (identifier (c ∷ word)) s f (first, later, not_keyword) =
    let in_word = is_word_first c first in
    rw (
      next_token_word c (word ++ b' ' ∷ s) first,
      take_while-append is_word (c ∷ word) b' ' s (in_word, later) refl,
      drop_while-append is_word (c ∷ word) b' ' s (in_word, later) refl,
      word_token_ne_keyword (c ∷ word) not_keyword,
    )
tokenize_from-text (number []) s f h = absurd h
tokenize_from-text (identifier []) s f h = absurd h
tokenize_from-text end s f h = absurd h
tokenize_from-text _ s f h = refl

tokenize_from-blank : (s : Bytes) (f : ℕ) → tokenize_from (suc f) (b' ' ∷ s) ≡ tokenize_from f s
unfolding tokenize_from next_token go_on is_space
tokenize_from-blank s f = refl

tokenize_from-nil : (f : ℕ) → tokenize_from f [] ≡ ok (end ∷ [])
unfolding tokenize_from
tokenize_from-nil zero = refl
tokenize_from-nil (suc f) = refl

length-text : (t : Token) → IsSpelled t → 1 ≤ length (text t)
unfolding text IsSpelled
length-text (number (c ∷ num)) h = omega arith
length-text (identifier (c ∷ word)) h = omega arith
length-text (number []) h = absurd h
length-text (identifier []) h = absurd h
length-text end h = absurd h
length-text _ h = omega arith

tokenize_from-spell :
    (ts : List Token) (f : ℕ)
    → All IsSpelled ts
    → length (spell ts) ≤ f
    → tokenize_from f (spell ts) ≡ ok (ts ++ end ∷ [])
unfolding spell
tokenize_from-spell [] f spelled h = tokenize_from-nil f
tokenize_from-spell (t ∷ ts) zero (here, later) h =
    absurd (omega (arith, length-append (text t) (b' ' ∷ spell ts)))
tokenize_from-spell (t ∷ ts) (suc zero) (here, later) h =
    absurd (omega (arith, length-text t here, length-append (text t) (b' ' ∷ spell ts)))
tokenize_from-spell (t ∷ ts) (suc (suc f)) (here, later) h = rw (
  tokenize_from-text t (spell ts) (suc f) here,
  tokenize_from-blank (spell ts) f,
  tokenize_from-spell ts f later
      (omega (arith, length-text t here, length-append (text t) (b' ' ∷ spell ts))),
)

-- `Tokenize` reads back the tokens that are written with a blank behind each.
pub tokenize-spell :
    (ts : List Token) → All IsSpelled ts → tokenize (spell ts) ≡ ok (ts ++ end ∷ [])
unfolding tokenize
tokenize-spell ts spelled = tokenize_from-spell ts (length (spell ts)) spelled (omega arith)
