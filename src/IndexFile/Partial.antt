-- ===== src/IndexFile/Partial.antt =====
-- The partial index of a round, from which `merge_indicies` reads the words again.
use swishxx.Common.Places.{length-map}
use swishxx.Common.{
  ℕ, ◌^◌, ◌<◌, ◌≡◌, refl, sym, ap, ◌∙◌, arith, List, [], ◌∷◌, ◌++◌, map, some, length, All,
  append-nil,
}
use mathlib.Core.Path.{subst}
use swishxx.Posting.{File}
use swishxx.IndexFile.{Memory, isi_word, read_segment}
use swishxx.IndexFile.Layout.{concat, placed, length-placed, heads}
use swishxx.IndexFile.Entries.{read_segment-entries}
use swishxx.IndexFile.Write.{Ostream, write_partial_index}
use swishxx.IndexFile.Stream.{at_end, write_part-heads, rewrite_part-heads}
use swishxx.IndexFile.Header.{length-heads}
use swishxx.IndexFile.Read.{read_word}
use swishxx.IndexFile.Codecs.{word_codec, word_bytes, IsWordEntry}
use swishxx.IndexFile.Bodies.{write_word_index-end}
use swishxx.IndexFile.RoundTrip.{size_of}

module _ (M : Memory) (words : List (List ℕ × List File)) (h : All IsWordEntry words) where
  abbrev new : List ℕ
  new = M.new_array (length words)

  abbrev ws : List (List ℕ)
  ws = map word_bytes words

  offsets : List ℕ
  offsets = placed (length (heads M (new ∷ []))) ws

  offsets_counted : length new ≡ length offsets
  unfolding offsets
  offsets_counted =
      M.array_is_new (length words) ∙ sym (length-placed _ ws ∙ length-map word_bytes words)

  start : Path Ostream (record { written = []; pos = 0 }) (at_end (heads M []))
  unfolding at_end heads
  start = refl

  body_written :
      (at_end (heads M (new ∷ []) ++ concat ws)).written ≡ heads M (new ∷ []) ++ concat ws
  unfolding at_end
  body_written = refl

  write_partial_index-bytes :
      write_partial_index M words ≡ some (heads M (offsets ∷ []) ++ concat ws)
  unfolding write_partial_index offsets
  write_partial_index-bytes =
      rw
        (
          start,
          write_part-heads M [] new (length words) (M.array_is_new (length words)),
          write_word_index-end words (heads M (new ∷ [])) h,
        )
        (ap some (
          rewrite_part-heads M [] new offsets [] (concat ws) _ _ offsets_counted refl body_written))

  as_long : length (heads M (new ∷ [])) ≡ length (heads M (offsets ∷ []))
  as_long = omega (arith, length-heads M (new ∷ []), length-heads M (offsets ∷ []), offsets_counted)

-- A partial index, not larger than an `off_t` can tell, of words without a null, each with one file or more, is
-- written, and a loop over its words reads them again, in order, with all of their files; with no words too.
pub read_segment-write_partial_index :
    (M : Memory) (words : List (List ℕ × List File))
    → All IsWordEntry words
    → size_of (write_partial_index M words) < 2 ^ 63
    → (bs : List ℕ) × (write_partial_index M words ≡ some bs)
      × (read_segment M read_word bs isi_word ≡ some words)
unfolding word_codec offsets
read_segment-write_partial_index M words h small =
    let bs = heads M (offsets M words h ∷ []) ++ concat (map word_bytes words) in
    let e : write_partial_index M words ≡ some bs = write_partial_index-bytes M words h in
    let fits : length bs < 2 ^ 63 = subst (λ o. size_of o < 2 ^ 63) e small in
    (
      bs,
      e,
      read_segment-entries M bs fits word_codec words [] [] (concat (map word_bytes words))
          (heads M (offsets M words h ∷ [])) [] _ (as_long M words h) refl
          (ap (λ xs. heads M (offsets M words h ∷ []) ++ xs)
            (sym (append-nil (concat (map word_bytes words)))))
          h,
    )
