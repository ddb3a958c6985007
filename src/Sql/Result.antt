-- ===== src/Sql/Result.antt =====
-- The outcome of the parser of src/sql_parser.cpp, and postconditions on it.
use green_gate.Base.{ℕ, ◌≡◌, ◌≢◌, subst}
use green_gate.Base.Bytes.{Bytes}

-- What the parser throws: the `runtime_error`s by their texts, and `out_of_range` of `stoll`.
pub data SqlError : Type 0 where
  unexpected_character : ℕ → SqlError
  trailing_tokens : ℕ → SqlError
  unexpected_end mismatched_parentheses : SqlError
  unexpected_token : Bytes → SqlError
  out_of_range : SqlError

-- `undefined` is a read behind the last token; `out_of_fuel` has no counterpart in the program.
pub data Result {ℓ} (A : Type ℓ) : Type ℓ where
  ok : A → Result A
  failed : SqlError → Result A
  undefined out_of_fuel : Result A

module _ {ℓ κ} {A : Type ℓ} {B : Type κ} where
  infixl 5 ◌>>=◌
  abbrev pub ◌>>=◌ : Result A → (A → Result B) → Result B
  ok a >>= f = f a
  failed e >>= f = failed e
  undefined >>= f = undefined
  out_of_fuel >>= f = out_of_fuel

-- The run kept within its fuel and its tokens. Its value, if it has one, satisfies `P`; its error,
-- if it has one, is not that of an end without a token.
pub data Ensures {ℓ κ} {A : Type ℓ} (P : A → Type κ) : Result A → Type (ℓ ⊔ κ) where
  holds : {a : A} → P a → Ensures P (ok a)
  rejected : {e : SqlError} → e ≢ unexpected_end → Ensures P (failed e)

module _ {ℓ κ} {A : Type ℓ} {P : A → Type κ} where
  pub Ensures-ok : {r : Result A} {a : A} → Ensures P r → r ≡ ok a → P a
  Ensures-ok (holds h) e = subst P (cc) h
  Ensures-ok (rejected _) e = cc

  pub Ensures-out_of_fuel : {r : Result A} → Ensures P r → r ≢ out_of_fuel
  Ensures-out_of_fuel (holds h) = cc
  Ensures-out_of_fuel (rejected _) = cc

  pub Ensures-undefined : {r : Result A} → Ensures P r → r ≢ undefined
  Ensures-undefined (holds h) = cc
  Ensures-undefined (rejected _) = cc

  pub Ensures-unexpected_end : {r : Result A} → Ensures P r → r ≢ failed unexpected_end
  Ensures-unexpected_end (holds h) = cc
  Ensures-unexpected_end (rejected ne) = λ e. ne (cc)

  pub Ensures-bind {ℓ' κ'} :
      {B : Type ℓ'} {Q : B → Type κ'} {r : Result A} {f : A → Result B}
      → Ensures P r
      → ((a : A) → P a → Ensures Q (f a))
      → Ensures Q (r >>= f)
  Ensures-bind (holds {a} h) k = k a h
  Ensures-bind (rejected ne) k = rejected ne

  pub Ensures-map {κ'} :
      {Q : A → Type κ'} {r : Result A} → Ensures P r → ((a : A) → P a → Q a) → Ensures Q r
  Ensures-map (holds {a} h) k = holds (k a h)
  Ensures-map (rejected ne) k = rejected ne
