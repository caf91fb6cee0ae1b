-- ===== src/Charset/Range.antt =====
-- src/encoded_char.h and src/encoded_char.cpp: the iterator over the characters of a range, which keeps the
-- character that it has decoded. `decode` is the charset or the encoding, or `iso8859_1_to_ascii` if there
-- is none; positions are the bytes from there to the end of the range.
use swishxx.Common.{
  ℕ, ◌≡◌, refl, Bool, true, false, List, [], ◌∷◌, Option, none, some, Option-cases, inl, inr,
}
use swishxx.Token.Latin1.{iso8859_1_to_ascii}
use swishxx.Posting.{◌>>=◌}
use swishxx.Charset.{Decoder}

-- `ch_ = iso8859_1_to_ascii( *c++ )`
unfoldable pub plain : Decoder
plain [] = none
plain (b ∷ bs) = some (iso8859_1_to_ascii b, bs)

-- `cached` is `ch_` and `pos_ + delta_`, if `decoded_` is set.
pub record Iterator : Type 0 where
  pub pos : List ℕ
  pub cached : Option (ℕ × List ℕ)

unfoldable pub begin : List ℕ → Iterator
begin bs = record { pos = bs; cached = none }

abbrev pub at_end : Iterator → Bool
at_end it = elim it.pos [ [] ↦ true | b ∷ bs ↦ false ]

module _ (decode : Decoder) where
  -- `operator*`: the character, and the iterator that has kept it.
  unfoldable pub deref_at : List ℕ → Option (ℕ × List ℕ) → Option (ℕ × Iterator)
  deref_at pos (some p) = some (p.0, record { pos = pos; cached = some p })
  deref_at pos none = decode pos >>= λ p. some (p.0, record { pos = pos; cached = some p })

  unfoldable pub deref : Iterator → Option (ℕ × Iterator)
  unfolding deref_at
  deref it = deref_at it.pos it.cached

  -- `operator++`
  unfoldable pub increment_at : List ℕ → Option (ℕ × List ℕ) → Option Iterator
  unfolding begin
  increment_at pos (some p) = some (begin p.1)
  increment_at pos none = decode pos >>= λ p. some (begin p.1)

  unfoldable pub increment : Iterator → Option Iterator
  unfolding increment_at
  increment it = increment_at it.pos it.cached

  -- `*c++`: the copy from before the increment is read.
  unfoldable pub read_post : Iterator → Option (ℕ × Iterator)
  unfolding deref increment
  read_post it = do next ← increment it; p ← deref it; some (p.0, next)

  -- `*c`, and `++c`.
  unfoldable pub read_pre : Iterator → Option (ℕ × Iterator)
  unfolding deref increment
  read_pre it = do p ← deref it; next ← increment p.1; some (p.0, next)

  -- What has been kept is what decoding gives.
  abbrev pub IsKept : List ℕ → Option (ℕ × List ℕ) → Type 0
  IsKept pos none = Unit
  IsKept pos (some p) = decode pos ≡ some p

  -- A character, and where it leaves the iterator.
  abbrev pub read : List ℕ → Option (ℕ × Iterator)
  read pos = decode pos >>= λ p. some (p.0, begin p.1)

  read_post-at :
      (pos : List ℕ) (cached : Option (ℕ × List ℕ))
      → IsKept pos cached
      → read_post (record { pos = pos; cached = cached }) ≡ read pos
  unfolding read_post deref_at increment_at
  read_post-at pos (some p) k = rw k refl
  read_post-at pos none k = elim (Option-cases (decode pos)) [
    | inl e ↦ rw e refl
    | inr (p, e) ↦ rw e refl
  ]

  read_pre-at :
      (pos : List ℕ) (cached : Option (ℕ × List ℕ))
      → IsKept pos cached
      → read_pre (record { pos = pos; cached = cached }) ≡ read pos
  unfolding read_pre deref_at increment_at
  read_pre-at pos (some p) k = rw k refl
  read_pre-at pos none k = elim (Option-cases (decode pos)) [
    | inl e ↦ rw e refl
    | inr (p, e) ↦ rw e refl
  ]

  -- On an iterator that has kept the right character, or none, `*c++`, and `*c` with `++c` behind it, both give
  -- the character that decoding gives, and leave the iterator behind it.
  pub read_post-read_pre :
      (it : Iterator)
      → IsKept it.pos it.cached
      → (read_post it ≡ read it.pos) × (read_pre it ≡ read it.pos)
  read_post-read_pre it k = (read_post-at it.pos it.cached k, read_pre-at it.pos it.cached k)
