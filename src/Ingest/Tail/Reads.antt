-- ===== src/Ingest/Tail/Reads.antt =====
-- Bytes and words of a payload, read in the memory that it stands in.
use green_gate.Base.{
  ℕ, zero, suc, ◌+◌, ◌*◌, ◌^◌, ◌<◌, ◌≡◌, refl, sym, ap, ap₂, ◌∙◌, subst, List, [], ◌∷◌, ◌++◌,
  append_assoc, arith, lt→ltb, length, length-append, get_or, All,
}
use green_gate.Base.Bytes.{Bytes}
use green_gate.Storage.Codec.{le_bytes, word_bytes, from_le, length-le_bytes, from_le-le_bytes}
use green_gate.Query.Tail.{Memory, memory_of, bytes_at, word_at}

get_or-append {ℓ} :
    {A : Type ℓ} (front : List A) (x : A) (rest : List A) (d : A)
    → get_or (front ++ x ∷ rest) (length front) d ≡ x
get_or-append [] x rest d = refl
get_or-append (y ∷ front) x rest d = get_or-append front x rest d

module _ (outside : Memory) where
  pub memory_of-append :
      (front : Bytes) (x : ℕ) (rest : Bytes)
      → memory_of outside (front ++ x ∷ rest) (length front) ≡ x
  unfolding memory_of
  memory_of-append front x rest =
      rw
        (lt→ltb (length front) (length (front ++ x ∷ rest))
          (omega (arith, length-append front (x ∷ rest))))
        (get_or-append front x rest 0)

  -- Bytes of a payload, read at their place.
  pub bytes_at-memory_of :
      (front mid back : Bytes) (payload : Bytes) (p : ℕ)
      → payload ≡ front ++ (mid ++ back)
      → p ≡ length front
      → bytes_at (memory_of outside payload) p (length mid) ≡ mid
  unfolding bytes_at
  bytes_at-memory_of front [] back payload p e h = refl
  bytes_at-memory_of front (x ∷ mid) back payload p e h =
      ap₂ ◌∷◌ (rw (e, h) (memory_of-append front x (mid ++ back))) (
        bytes_at-memory_of (front ++ x ∷ []) mid back payload (p + 1)
          (e ∙ sym (append_assoc front (x ∷ []) (mid ++ back)))
          (omega (arith, length-append front (x ∷ []))))

  pub word_at-memory_of :
      (front : Bytes) (v : ℕ) (back payload : Bytes) (p : ℕ)
      → payload ≡ front ++ (le_bytes 8 v ++ back)
      → p ≡ length front
      → v < 2 ^ 64
      → word_at (memory_of outside payload) p ≡ v
  unfolding word_at
  word_at-memory_of front v back payload p e h fits =
      ap from_le (
        subst (λ n. bytes_at (memory_of outside payload) p n ≡ le_bytes 8 v) (length-le_bytes 8 v)
          (bytes_at-memory_of front (le_bytes 8 v) back payload p e h))
      ∙ from_le-le_bytes 8 v fits

  pub word_at-word_bytes :
      (front : Bytes) (ws : List ℕ) (back payload : Bytes) (p k : ℕ)
      → payload ≡ front ++ (word_bytes ws ++ back)
      → p ≡ length front + k * 8
      → k < length ws
      → All (λ w. w < 2 ^ 64) ws
      → word_at (memory_of outside payload) p ≡ get_or ws k 0
  unfolding word_bytes
  word_at-word_bytes front [] back payload p k e h small fits = elim small [ ]
  word_at-word_bytes front (w ∷ ws) back payload p zero e h small fits =
      word_at-memory_of front w (word_bytes ws ++ back) payload p
        (e ∙ ap (λ bs. front ++ bs) (append_assoc (le_bytes 8 w) (word_bytes ws) back))
        (omega arith) fits.0
  word_at-word_bytes front (w ∷ ws) back payload p (suc k) e h small fits =
      word_at-word_bytes (front ++ le_bytes 8 w) ws back payload p k
        (e
          ∙ ap (λ bs. front ++ bs) (append_assoc (le_bytes 8 w) (word_bytes ws) back)
          ∙ sym (append_assoc front (le_bytes 8 w) (word_bytes ws ++ back)))
        (omega (arith, length-append front (le_bytes 8 w), length-le_bytes 8 w)) (omega arith)
        fits.1
