-- ===== src/Base/Options.antt =====
-- Steps that may have no result, one after the other.
use mathlib.Core.Path.{ap, ◌≡◌, refl}
use mathlib.Core.Option.{Option, none, some}

infixl 5 ◌>>=◌
abbrev pub ◌>>=◌ {ℓ κ} : {A : Type ℓ} {B : Type κ} → Option A → (A → Option B) → Option B
none >>= f = none
some a >>= f = f a

module _ {ℓ κ} {A : Type ℓ} {B : Type κ} where
  pub bind_ext : (o : Option A) (f g : A → Option B) → ((a : A) → f a ≡ g a) → (o >>= f) ≡ (o >>= g)
  bind_ext none f g h = refl
  bind_ext (some a) f g h = h a

  pub bind_assoc {ℓ'} :
      {C : Type ℓ'} (o : Option A) (f : A → Option B) (g : B → Option C)
      → (o >>= f >>= g) ≡ (o >>= λ a. f a >>= g)
  bind_assoc none f g = refl
  bind_assoc (some a) f g = refl

  pub bind-some :
      (o : Option A) (f : A → Option B) (b : B)
      → (o >>= f) ≡ some b
      → (a : A) × (o ≡ some a) × (f a ≡ some b)
  bind-some none f b h = absurd (cc h)
  bind-some (some a) f b h = (a, refl, h)

pub some_value {ℓ} : {A : Type ℓ} (a b : A) → some a ≡ some b → a ≡ b
some_value {A = A} a b e = ap value e
  where
    value : Option A → A
    value none = a
    value (some x) = x
