-- ===== src/Storage/Codec.antt =====
-- The bytes of integers and tiles in memory, as `memcpy` moves them on a little-endian machine.
use green_gate.Base.{
  ℕ, zero, suc, ◌+◌, ◌*◌, ◌/◌, ◌%◌, ◌^◌, ◌<◌, ◌≡◌, refl, sym, append_assoc, ap, ap₂, ◌∙◌, List, [],
  ◌∷◌, ◌++◌, arith, length, length-append, take, drop, All,
}
use native.Mathlib.Nat.{pow-suc}
use green_gate.Base.Bytes.{Bytes}
use green_gate.Storage.{CbstTile}

-- The low `n` bytes of a number, the lowest first.
unfoldable pub le_bytes : ℕ → ℕ → Bytes
le_bytes zero v = []
le_bytes (suc n) v = (v % 256) ∷ le_bytes n (v / 256)

-- The number that bytes stand for.
unfoldable pub from_le : Bytes → ℕ
from_le [] = 0
from_le (b ∷ bs) = b + 256 * from_le bs

unfoldable pub word_bytes : List ℕ → Bytes
word_bytes [] = []
word_bytes (w ∷ ws) = le_bytes 8 w ++ word_bytes ws

unfoldable pub words_of : ℕ → Bytes → List ℕ
words_of zero bs = []
words_of (suc n) bs = from_le (take 8 bs) ∷ words_of n (drop 8 bs)

-- `sizeof(CbstTile)`.
abbrev pub tile_size : ℕ
tile_size = 576

unfoldable pub tile_bytes : CbstTile → Bytes
tile_bytes t = word_bytes t.planes ++ (le_bytes 8 t.validity ++ word_bytes t.padding)

unfoldable pub tile_of : Bytes → CbstTile
tile_of bs = record {
  planes = words_of 64 (take 512 bs);
  validity = from_le (take 8 (drop 512 bs));
  padding = words_of 7 (drop 520 bs);
}

pub length-le_bytes : (n v : ℕ) → length (le_bytes n v) ≡ n
unfolding le_bytes
length-le_bytes zero v = refl
length-le_bytes (suc n) v = ap suc (length-le_bytes n (v / 256))

pub from_le-le_bytes : (n v : ℕ) → v < 256 ^ n → from_le (le_bytes n v) ≡ v
unfolding le_bytes from_le
from_le-le_bytes zero v h = omega arith
from_le-le_bytes (suc n) v h =
    omega (arith, pow-suc 256 n, from_le-le_bytes n (v / 256) (omega (arith, pow-suc 256 n)))

module _ {ℓ} {A : Type ℓ} where
  -- The front and the back of a list of known front.
  pub take-append : (n : ℕ) (xs ys : List A) → length xs ≡ n → take n (xs ++ ys) ≡ xs
  take-append zero [] ys e = refl
  take-append zero (x ∷ xs) ys e = absurd (omega arith)
  take-append (suc n) [] ys e = absurd (omega arith)
  take-append (suc n) (x ∷ xs) ys e = ap (λ zs. x ∷ zs) (take-append n xs ys (omega arith))

  pub drop-append : (n : ℕ) (xs ys : List A) → length xs ≡ n → drop n (xs ++ ys) ≡ ys
  drop-append zero [] ys e = refl
  drop-append zero (x ∷ xs) ys e = absurd (omega arith)
  drop-append (suc n) [] ys e = absurd (omega arith)
  drop-append (suc n) (x ∷ xs) ys e = drop-append n xs ys (omega arith)

pub length-word_bytes : (ws : List ℕ) → length (word_bytes ws) ≡ 8 * length ws
unfolding word_bytes
length-word_bytes [] = refl
length-word_bytes (w ∷ ws) =
    omega (
      arith,
      length-append (le_bytes 8 w) (word_bytes ws),
      length-le_bytes 8 w,
      length-word_bytes ws,
    )

words_of-word_bytes :
    (n : ℕ) (ws : List ℕ)
    → length ws ≡ n
    → All (λ w. w < 2 ^ 64) ws
    → words_of n (word_bytes ws) ≡ ws
unfolding word_bytes words_of
words_of-word_bytes zero [] e h = refl
words_of-word_bytes zero (w ∷ ws) e h = absurd (omega arith)
words_of-word_bytes (suc n) [] e h = absurd (omega arith)
words_of-word_bytes (suc n) (w ∷ ws) e h =
    ap₂ ◌∷◌
      (ap from_le (take-append 8 (le_bytes 8 w) (word_bytes ws) (length-le_bytes 8 w))
        ∙ from_le-le_bytes 8 w h.0)
      (ap (words_of n) (drop-append 8 (le_bytes 8 w) (word_bytes ws) (length-le_bytes 8 w))
        ∙ words_of-word_bytes n ws (omega arith) h.1)

-- The sizes and ranges of a tile's fields.
pub record IsTile (t : CbstTile) : Type 0 where
  pub planes_length : length t.planes ≡ 64
  pub planes_words : All (λ w. w < 2 ^ 64) t.planes
  pub validity_word : t.validity < 2 ^ 64
  pub padding_length : length t.padding ≡ 7
  pub padding_words : All (λ w. w < 2 ^ 64) t.padding

module _ (t : CbstTile) (h : IsTile t) where
  length-planes : length (word_bytes t.planes) ≡ 512
  length-planes = omega (arith, length-word_bytes t.planes, h.planes_length)

  length-padding : length (word_bytes t.padding) ≡ 56
  length-padding = omega (arith, length-word_bytes t.padding, h.padding_length)

  pub length-tile_bytes : length (tile_bytes t) ≡ tile_size
  unfolding tile_bytes
  length-tile_bytes = omega (
    arith,
    length-append (word_bytes t.planes) (le_bytes 8 t.validity ++ word_bytes t.padding),
    length-append (le_bytes 8 t.validity) (word_bytes t.padding),
    length-le_bytes 8 t.validity,
    length-planes,
    length-padding,
  )

  back_part : drop 512 (tile_bytes t) ≡ le_bytes 8 t.validity ++ word_bytes t.padding
  unfolding tile_bytes
  back_part = drop-append 512 (word_bytes t.planes) _ length-planes

  padding_part : drop 520 (tile_bytes t) ≡ word_bytes t.padding
  unfolding tile_bytes
  padding_part =
      ap (drop 520) (sym (append_assoc (word_bytes t.planes) (le_bytes 8 t.validity) _))
      ∙ drop-append 520 (word_bytes t.planes ++ le_bytes 8 t.validity) _ (
          omega (
            arith,
            length-append (word_bytes t.planes) (le_bytes 8 t.validity),
            length-le_bytes 8 t.validity,
            length-planes,
          ))

  planes_read : words_of 64 (take 512 (tile_bytes t)) ≡ t.planes
  unfolding tile_bytes
  planes_read =
      ap (words_of 64) (take-append 512 (word_bytes t.planes) _ length-planes)
      ∙ words_of-word_bytes 64 t.planes h.planes_length h.planes_words

  validity_read : from_le (take 8 (drop 512 (tile_bytes t))) ≡ t.validity
  validity_read =
      ap (λ (bs : Bytes). from_le (take 8 bs)) back_part
      ∙ ap from_le (take-append 8 (le_bytes 8 t.validity) _ (length-le_bytes 8 t.validity))
      ∙ from_le-le_bytes 8 t.validity h.validity_word

  padding_read : words_of 7 (drop 520 (tile_bytes t)) ≡ t.padding
  padding_read =
      ap (words_of 7) padding_part
      ∙ words_of-word_bytes 7 t.padding h.padding_length h.padding_words

  -- A tile is read back from its bytes.
  pub tile_of-tile_bytes : tile_of (tile_bytes t) ≡ t
  unfolding tile_of
  tile_of-tile_bytes =
      λ i. record { planes = planes_read i; validity = validity_read i; padding = padding_read i }
