-- ===== src/IndexFile/Stream.antt =====
-- What the writers of an index file leave in the stream: at its end they append, and the arrays of offsets are
-- overwritten in place.
use swishxx.Common.Places.{take_all, drop_all, drop_further}
use swishxx.Common.{
  ℕ, ◌+◌, ◌≡◌, refl, sym, ◌∙◌, arith, true, List, [], ◌∷◌, ◌++◌, map, some, ◌==◌, Bool-cases, inl,
  inr, length, take, drop, All, append-nil, append_assoc, length-append, take-length,
}
use swishxx.IndexFile.{Memory}
use swishxx.IndexFile.Layout.{concat, placed, longs, length-longs, head, heads, heads-append}
use swishxx.IndexFile.Entries.{Codec}
use swishxx.IndexFile.Write.{
  Ostream, my_write, write_entries, write_part, write_part_if, rewrite_part,
}

-- A stream at the end of what is written.
unfoldable pub at_end : List ℕ → Ostream
at_end xs = record { written = xs; pos = length xs }

pub at_end_pos : (xs : List ℕ) → (at_end xs).pos ≡ length xs
unfolding at_end
at_end_pos xs = refl

pub my_write-end : (xs bs : List ℕ) → my_write (at_end xs) bs ≡ at_end (xs ++ bs)
unfolding my_write at_end
my_write-end xs bs =
    rw
      (
        take_all xs,
        drop_all xs (length xs + length bs) (omega arith),
        append-nil bs,
        length-append xs bs,
      )
      refl

-- What is as long is replaced in place.
overwrite :
    (a b b' c : List ℕ)
    → length b ≡ length b'
    → take (length a) (a ++ (b ++ c)) ++ (b' ++ drop (length a + length b') (a ++ (b ++ c)))
      ≡ a ++ (b' ++ c)
overwrite a b b' c e =
    rw
      (
        take-length a (b ++ c),
        drop_further a (b ++ c) (length a + length b') (length b') refl,
        drop_further b c (length b') 0 (omega (arith, e)),
      )
      refl

pub write_entries-end :
    {E : Type 0} (C : Codec E) (es : List E) (xs : List ℕ)
    → All C.IsEntry es
    → write_entries C.write es (at_end xs)
      ≡ some (at_end (xs ++ concat (map C.bytes es)), placed (length xs) (map C.bytes es))
unfolding write_entries concat placed
write_entries-end C [] xs h = rw (append-nil xs) refl
write_entries-end C (e ∷ es) xs (h, hs) =
    rw (C.is_written e h, my_write-end xs (C.bytes e), write_entries-end C es (xs ++ C.bytes e) hs)
      (rw
        (
          length-append xs (C.bytes e),
          append_assoc xs (C.bytes e) (concat (map C.bytes es)),
          at_end_pos xs,
        )
        refl)

pub empty_array : (n : ℕ) (os : List ℕ) → length os ≡ n → (n == 0) ≡ true → os ≡ []
empty_array n [] h z = refl
empty_array n (o ∷ os) h z = ground arith

module _ (M : Memory) where
  heads_snoc :
      (front : List (List ℕ)) (os : List ℕ)
      → heads M (front ++ (os ∷ [])) ≡ (heads M front ++ M.bytes_of (length os)) ++ longs M os
  unfolding heads head
  heads_snoc front os = rw (heads-append M front (os ∷ [])) (simp (append_assoc, append-nil) refl)

  pub write_part-heads :
      (front : List (List ℕ)) (os : List ℕ) (n : ℕ)
      → length os ≡ n
      → write_part M n os (at_end (heads M front))
        ≡ (at_end (heads M (front ++ (os ∷ []))), length (heads M front) + 8)
  unfolding write_part
  write_part-heads front os n e =
      let counted = heads M front ++ M.bytes_of n in
      let place : length counted ≡ length (heads M front) + 8 =
        omega (arith, M.bytes_are_eight n, length-append (heads M front) (M.bytes_of n)) in
      rw
        (
          my_write-end (heads M front) (M.bytes_of n),
          my_write-end counted (longs M os),
          at_end_pos counted,
          place,
          heads_snoc front os,
          e,
        )
        refl

  -- Nothing is written of an empty array.
  write_part_if-part :
      (xs os : List ℕ) (n : ℕ)
      → length os ≡ n
      → write_part_if M n os (at_end xs) ≡ write_part M n os (at_end xs)
  unfolding write_part_if write_part longs
  write_part_if-part xs os n e = elim (Bool-cases (n == 0)) [
    | inl z ↦
        rw (z, empty_array n os e z, my_write-end xs (M.bytes_of n))
          (rw (my_write-end (xs ++ M.bytes_of n) [], append-nil (xs ++ M.bytes_of n)) refl)
    | inr z ↦ rw z refl
  ]

  pub write_part_if-heads :
      (front : List (List ℕ)) (os : List ℕ) (n : ℕ)
      → length os ≡ n
      → write_part_if M n os (at_end (heads M front))
        ≡ (at_end (heads M (front ++ (os ∷ []))), length (heads M front) + 8)
  write_part_if-heads front os n e =
      write_part_if-part (heads M front) os n e ∙ write_part-heads front os n e

  laid_out :
      (front : List (List ℕ)) (os : List ℕ) (back : List (List ℕ)) (body : List ℕ)
      → heads M (front ++ (os ∷ back)) ++ body
        ≡ (heads M front ++ M.bytes_of (length os)) ++ (longs M os ++ (heads M back ++ body))
  unfolding heads head
  laid_out front os back body = rw (heads-append M front (os ∷ back)) (simp append_assoc refl)

  -- An array is overwritten by one of the same length.
  pub rewrite_part-heads :
      (front : List (List ℕ)) (os os' : List ℕ) (back : List (List ℕ)) (body : List ℕ) (o : Ostream)
      (p : ℕ)
      → length os ≡ length os'
      → p ≡ length (heads M front) + 8
      → o.written ≡ heads M (front ++ (os ∷ back)) ++ body
      → (rewrite_part M p os' o).written ≡ heads M (front ++ (os' ∷ back)) ++ body
  unfolding rewrite_part my_write
  rewrite_part-heads front os os' back body o p e h w =
      let before = heads M front ++ M.bytes_of (length os) in
      let place : length before ≡ length (heads M front) + 8 =
        omega (arith, M.bytes_are_eight (length os), length-append (heads M front) _) in
      let eights : length (longs M os) ≡ length (longs M os') =
        omega (arith, e, length-longs M os, length-longs M os') in
      rw (w, h, ← place, laid_out front os back body)
        (overwrite before (longs M os) (longs M os') (heads M back ++ body) eights
          ∙ rw e (sym (laid_out front os' back body)))
