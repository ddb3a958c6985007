-- ===== src/Query/Text.antt =====
-- The string tests that predicates use: cleaned patterns, prefixes and substrings.
use green_gate.Base.{
  ◌≡◌, refl, Bool, true, false, ◌&&◌, ◌||◌, [], ◌∷◌, ◌++◌, arith, ◌==◌, if◌then◌else◌, Bool-cases,
  inl, inr, ap,
}
use green_gate.Base.Bytes.{Bytes}
use green_gate.Query.{PredicateOp, eq, like_prefix, like_contains, gt, lt}

-- `if (!s.empty() && s.back() == '%') s.pop_back();`
unfoldable pub pop_percent : Bytes → Bytes
pop_percent [] = []
pop_percent (c ∷ []) = if c == b'%' then [] else c ∷ []
pop_percent (c ∷ d ∷ s) = c ∷ pop_percent (d ∷ s)

-- `if (!s.empty() && s.front() == '%') s.erase(0, 1);`
unfoldable pub erase_percent : Bytes → Bytes
erase_percent [] = []
erase_percent (c ∷ s) = if c == b'%' then s else c ∷ s

-- The pattern that a predicate compares with, its `%` taken off.
unfoldable pub clean_pattern : PredicateOp → Bytes → Bytes
unfolding pop_percent erase_percent
clean_pattern like_prefix value = pop_percent value
clean_pattern like_contains value = pop_percent (erase_percent value)
clean_pattern eq value = value
clean_pattern gt value = value
clean_pattern lt value = value

-- `val.size() >= pat.size() && val.compare(0, pat.size(), pat) == 0`
unfoldable pub starts_with : Bytes → Bytes → Bool
starts_with [] val = true
starts_with (p ∷ pat) [] = false
starts_with (p ∷ pat) (v ∷ val) = p == v && starts_with pat val

-- `val.find(pat) != npos`
unfoldable pub contains : Bytes → Bytes → Bool
unfolding starts_with
contains pat [] = starts_with pat []
contains pat (v ∷ val) = starts_with pat (v ∷ val) || contains pat val

-- The prefix test accepts exactly the continuations of the pattern.
pub starts_with-append : (pat rest : Bytes) → starts_with pat (pat ++ rest) ≡ true
unfolding starts_with
starts_with-append [] rest = refl
starts_with-append (p ∷ pat) rest = ground (arith, starts_with-append pat rest)

pub starts_with→append :
    (pat val : Bytes) → starts_with pat val ≡ true → (rest : Bytes) × (val ≡ pat ++ rest)
unfolding starts_with
starts_with→append [] val h = (val, refl)
starts_with→append (p ∷ pat) [] h = absurd (ground arith)
starts_with→append (p ∷ pat) (v ∷ val) h =
    let (rest, e) = starts_with→append pat val (ground arith) in (rest, ground arith)

pub contains-append : (front pat back : Bytes) → contains pat (front ++ (pat ++ back)) ≡ true
unfolding contains
contains-append [] [] [] = refl
contains-append [] [] (b ∷ back) = refl
contains-append [] (p ∷ pat) back = ground (arith, starts_with-append (p ∷ pat) back)
contains-append (f ∷ front) pat back = ground (arith, contains-append front pat back)

pub contains→append :
    (pat val : Bytes)
    → contains pat val ≡ true
    → (front : Bytes) × (back : Bytes) × (val ≡ front ++ (pat ++ back))
unfolding contains
contains→append pat [] h = let (back, e) = starts_with→append pat [] h in ([], back, e)
contains→append pat (v ∷ val) h = elim (Bool-cases (starts_with pat (v ∷ val))) [
  | inl here ↦ let (back, e) = starts_with→append pat (v ∷ val) here in ([], back, e)
  | inr later ↦
      let (front, back, e) = contains→append pat val (ground arith) in
      (v ∷ front, back, ap (λ (s : Bytes). v ∷ s) e)
]
