-- ===== src/Sql/Tokenizer/Laws.antt =====
-- `Tokenize` ends within its fuel. It throws for the first character that no token has, and for
-- nothing else.
use green_gate.Base.{
  ℕ, zero, suc, ◌≤◌, ◌≡◌, ◌≢◌, refl, ◌∙◌, subst, Bool, true, false, ◌||◌, Option, none, some, List,
  [], ◌∷◌, arith, length, ◌==◌, if◌then◌else◌, ◌⊎◌, inl, inr,
}
use green_gate.Base.Bytes.{Bytes}
use green_gate.Sql.Result.{Result, ok, failed, unexpected_character, ◌>>=◌}
use green_gate.Sql.Tokenizer.{
  Token, number, gt, lt, ge, le, end, is_space, is_digit, is_alpha, is_word, take_while, drop_while,
  word_token, Lexed, skipped, lexed, refused, operator, next_token, go_on, tokenize_from, tokenize,
}

-- The characters of blanks and tokens.
unfoldable pub is_accepted : ℕ → Bool
unfolding is_space is_word
is_accepted c =
    ((is_space c || is_word c) || (c == b'(' || c == b')'))
    || ((c == b'>' || c == b'<') || c == b'=')

unfoldable pub first_refused : Bytes → Option ℕ
unfolding is_accepted
first_refused [] = none
first_refused (c ∷ s) = if is_accepted c then first_refused s else some c

-- The one end token is the last.
pub data IsClosed : List Token → Type 0 where
  closed_end : IsClosed (end ∷ [])
  closed_more : {t : Token} {ts : List Token} → t ≢ end → IsClosed ts → IsClosed (t ∷ ts)

-- The answer to a text: its tokens, if there is no character to refuse.
abbrev pub Answers : Option ℕ → Result (List Token) → Type 0
Answers none r = (ts : List Token) × (r ≡ ok ts) × IsClosed ts
Answers (some c) r = r ≡ failed (unexpected_character c)

-- A round leaves no more than what stands behind its character, and passes over no refused one.
abbrev IsRound : Bytes → Lexed → Type 0
IsRound src (skipped s) = (suc (length s) ≤ length src) × (first_refused s ≡ first_refused src)
IsRound src (lexed t s) =
    (suc (length s) ≤ length src) × (first_refused s ≡ first_refused src) × (t ≢ end)
IsRound src (refused c) = first_refused src ≡ some c

IsRound-if :
    (src : Bytes) (test : Bool) (x y : Lexed)
    → (test ≡ true → IsRound src x)
    → (test ≡ false → IsRound src y)
    → IsRound src (if test then x else y)
IsRound-if src true x y hx hy = hx refl
IsRound-if src false x y hx hy = hy refl

length-drop_while : (test : ℕ → Bool) (s : Bytes) → length (drop_while test s) ≤ length s
unfolding drop_while
length-drop_while test [] = omega arith
length-drop_while test (c ∷ s) = ground (arith, length-drop_while test s)

first_refused-drop_digits : (s : Bytes) → first_refused (drop_while is_digit s) ≡ first_refused s
unfolding drop_while first_refused is_digit is_alpha
first_refused-drop_digits [] = refl
first_refused-drop_digits (c ∷ s) = ground (arith, first_refused-drop_digits s)

first_refused-drop_word : (s : Bytes) → first_refused (drop_while is_word s) ≡ first_refused s
unfolding drop_while first_refused
first_refused-drop_word [] = refl
first_refused-drop_word (c ∷ s) = ground (arith, first_refused-drop_word s)

first_refused_here : (c : ℕ) (s : Bytes) → is_accepted c ≡ false → first_refused (c ∷ s) ≡ some c
unfolding first_refused
first_refused_here c s h = rw h

pub is_word_first : (c : ℕ) → (is_alpha c || c == b'_') ≡ true → is_word c ≡ true
unfolding is_word
is_word_first c h = ground arith

first_refused-accepted :
    (c : ℕ) (s : Bytes) → is_accepted c ≡ true → first_refused s ≡ first_refused (c ∷ s)
unfolding first_refused
first_refused-accepted c s h = rw h

accepted_symbol : (c d : ℕ) → (c == d) ≡ true → is_accepted d ≡ true → is_accepted c ≡ true
accepted_symbol c d e h = subst (λ x. is_accepted x ≡ true) (ground arith) h

operator-IsRound :
    (c : ℕ) (s : Bytes) (with_eq alone : Token)
    → is_accepted c ≡ true
    → with_eq ≢ end
    → alone ≢ end
    → IsRound (c ∷ s) (operator with_eq alone s)
unfolding operator is_accepted is_word is_space is_alpha is_digit
operator-IsRound c [] with_eq alone h hw ha = (omega arith, first_refused-accepted c [] h, ha)
operator-IsRound c (d ∷ s) with_eq alone h hw ha =
    IsRound-if (c ∷ d ∷ s) (d == b'=') _ _
      (λ e. (
        omega arith,
        first_refused-accepted d s (accepted_symbol d b'=' e refl)
            ∙ first_refused-accepted c (d ∷ s) h,
        hw,
      ))
      (λ e. (omega arith, first_refused-accepted c (d ∷ s) h, ha))

word_token-ne-end : (word : Bytes) → word_token word ≢ end
unfolding word_token
word_token-ne-end word = ground arith

accepted_self :
    (c : ℕ)
    → ((is_space c ≡ true) ⊎ (is_digit c ≡ true)) ⊎ ((is_alpha c || c == b'_') ≡ true)
    → is_accepted c ≡ true
unfolding is_accepted is_word
accepted_self c (inl (inl h)) = rw h
accepted_self c (inl (inr h)) = ground arith
accepted_self c (inr h) = ground arith

not_accepted :
    (c : ℕ)
    → is_space c ≡ false
    → (c == b'(') ≡ false
    → (c == b')') ≡ false
    → (c == b'>') ≡ false
    → (c == b'<') ≡ false
    → (c == b'=') ≡ false
    → is_digit c ≡ false
    → (is_alpha c || c == b'_') ≡ false
    → is_accepted c ≡ false
unfolding is_accepted is_word
not_accepted c n1 n2 n3 n4 n5 n6 n7 n8 = ground arith

module _ (c : ℕ) (s : Bytes) where
  abbrev at_char :
      (test : Bool) (x y : Lexed)
      → (test ≡ true → IsRound (c ∷ s) x)
      → (test ≡ false → IsRound (c ∷ s) y)
      → IsRound (c ∷ s) (if test then x else y)
  at_char = IsRound-if (c ∷ s)

  kept : is_accepted c ≡ true → first_refused s ≡ first_refused (c ∷ s)
  kept = first_refused-accepted c s

  digits-IsRound :
      is_digit c ≡ true
      → IsRound (c ∷ s) (lexed (number (take_while is_digit (c ∷ s))) (drop_while is_digit (c ∷ s)))
  unfolding drop_while
  digits-IsRound h = rw h (
    omega (arith, length-drop_while is_digit s),
    first_refused-drop_digits s ∙ kept (accepted_self c (inl (inr h))),
    cc,
  )

  word-IsRound :
      (is_alpha c || c == b'_') ≡ true
      → IsRound
          (c ∷ s)
          (lexed (word_token (take_while is_word (c ∷ s))) (drop_while is_word (c ∷ s)))
  unfolding drop_while
  word-IsRound h = rw (is_word_first c h) (
    omega (arith, length-drop_while is_word s),
    first_refused-drop_word s ∙ kept (accepted_self c (inr h)),
    word_token-ne-end (take_while is_word (c ∷ s)),
  )

  next_token-IsRound : IsRound (c ∷ s) (next_token c s)
  unfolding next_token is_accepted is_space is_word is_alpha is_digit
  next_token-IsRound =
      at_char (is_space c) _ _ (λ e. (omega arith, kept (accepted_self c (inl (inl e)))))
        λ n1.
          at_char (c == b'(') _ _ (λ e. (omega arith, kept (accepted_symbol c b'(' e refl), cc))
            λ n2.
              at_char (c == b')') _ _ (λ e. (omega arith, kept (accepted_symbol c b')' e refl), cc))
                λ n3.
                  at_char (c == b'>') _ _
                    (λ e. operator-IsRound c s ge gt (accepted_symbol c b'>' e refl) (cc) (cc))
                    λ n4.
                      at_char (c == b'<') _ _
                        (λ e. operator-IsRound c s le lt (accepted_symbol c b'<' e refl) (cc) (cc))
                        λ n5.
                          at_char (c == b'=') _ _
                            (λ e. (omega arith, kept (accepted_symbol c b'=' e refl), cc))
                            λ n6. at_char (is_digit c) _ _ digits-IsRound λ n7.
                              at_char (is_alpha c || c == b'_') _ _ word-IsRound λ n8.
                                first_refused_here c s (not_accepted c n1 n2 n3 n4 n5 n6 n7 n8)

Answers-cons :
    (t : Token) (found : Option ℕ) (r : Result (List Token))
    → t ≢ end
    → Answers found r
    → Answers found (r >>= λ ts. ok (t ∷ ts))
Answers-cons t none r ne (ts, e, closed) = (t ∷ ts, rw e, closed_more ne closed)
Answers-cons t (some c) r ne e = rw e

go_on-Answers :
    (src : Bytes) (step : Lexed) (loop : Bytes → Result (List Token))
    → IsRound src step
    → ((s : Bytes) → suc (length s) ≤ length src → Answers (first_refused s) (loop s))
    → Answers (first_refused src) (go_on loop step)
unfolding go_on
go_on-Answers src (skipped s) loop (shorter, same) rest = rw same at (rest s shorter)
go_on-Answers src (lexed t s) loop (shorter, same, ne) rest =
    rw (← same) (Answers-cons t (first_refused s) (loop s) ne (rest s shorter))
go_on-Answers src (refused c) loop found rest = rw found refl

tokenize_from-Answers :
    (f : ℕ) (s : Bytes) → length s ≤ f → Answers (first_refused s) (tokenize_from f s)
unfolding tokenize_from first_refused
tokenize_from-Answers f [] h = (end ∷ [], refl, closed_end)
tokenize_from-Answers zero (c ∷ s) h = absurd (omega arith)
tokenize_from-Answers (suc f) (c ∷ s) h =
    go_on-Answers (c ∷ s) (next_token c s) (tokenize_from f) (next_token-IsRound c s)
      (λ rest shorter. tokenize_from-Answers f rest (omega arith))

-- `Tokenize` throws "Unexpected character" for the first character that is no blank, letter, digit,
-- underscore, parenthesis or comparison sign. If there is none, it returns tokens of which the last
-- and no other is the end.
pub tokenize-Answers : (src : Bytes) → Answers (first_refused src) (tokenize src)
unfolding tokenize
tokenize-Answers src = tokenize_from-Answers (length src) src (omega arith)
