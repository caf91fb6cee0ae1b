-- ===== src/IndexFile/Header.antt =====
-- The header of an index file: written with the arrays as they are at first, and written again with the offsets.
use swishxx.Common.{
  ℕ, ◌+◌, ◌*◌, ◌≡◌, refl, sym, ◌∙◌, arith, List, [], ◌∷◌, ◌++◌, ◌==◌, if◌then◌else◌, Bool-cases,
  inl, inr, length, length-append,
}
use swishxx.IndexFile.{Memory}
use swishxx.IndexFile.Layout.{heads, head, length-head}
use swishxx.IndexFile.Write.{
  Ostream, rewrite_part, Counts, Offsets, Places, write_header, rewrite_header,
}
use swishxx.IndexFile.Stream.{
  at_end, empty_array, write_part-heads, write_part_if-heads, rewrite_part-heads,
}

abbrev pub arrays_of : Offsets → List (List ℕ)
arrays_of a =
    a.word_offset ∷ a.stop_word_offset ∷ a.dir_offset ∷ a.file_offset ∷ a.meta_name_offset ∷ []

-- Each array has one offset for each entry.
pub record AreCounted (n : Counts) (a : Offsets) : Type 0 where
  pub words_counted : length a.word_offset ≡ n.num_unique_words
  pub stop_words_counted : length a.stop_word_offset ≡ n.num_stop_words
  pub dirs_counted : length a.dir_offset ≡ n.num_dirs
  pub files_counted : length a.file_offset ≡ n.num_files
  pub meta_names_counted : length a.meta_name_offset ≡ n.num_meta_names

abbrev pub places_of : Counts → Places
places_of n = record {
  word_offset_pos = 8;
  stop_word_offset_pos = n.num_unique_words * 8 + 16;
  dir_offset_pos = n.num_unique_words * 8 + n.num_stop_words * 8 + 24;
  file_offset_pos = n.num_unique_words * 8 + n.num_stop_words * 8 + n.num_dirs * 8 + 32;
  meta_name_offset_pos =
      n.num_unique_words * 8 + n.num_stop_words * 8 + n.num_dirs * 8 + n.num_files * 8 + 40;
}

abbrev sizes : List (List ℕ) → ℕ
sizes [] = 0
sizes (os ∷ oss) = 8 + length os * 8 + sizes oss

module _ (M : Memory) where
  pub length-heads : (oss : List (List ℕ)) → length (heads M oss) ≡ sizes oss
  unfolding heads
  length-heads [] = refl
  length-heads (os ∷ oss) =
      omega (arith, length-append (head M os) (heads M oss), length-head M os, length-heads oss)

  -- The places are those behind the counts.
  module _ (n : Counts) (a : Offsets) (h : AreCounted n a) where
    abbrev w : List ℕ
    w = a.word_offset

    abbrev s : List ℕ
    s = a.stop_word_offset

    abbrev d : List ℕ
    d = a.dir_offset

    abbrev f : List ℕ
    f = a.file_offset

    word_place : 8 ≡ length (heads M []) + 8
    word_place = omega (arith, length-heads [])

    stop_word_place : n.num_unique_words * 8 + 16 ≡ length (heads M (w ∷ [])) + 8
    stop_word_place = omega (arith, h.words_counted, length-heads (w ∷ []))

    dir_place :
        n.num_unique_words * 8 + n.num_stop_words * 8 + 24 ≡ length (heads M (w ∷ s ∷ [])) + 8
    dir_place = omega (arith, h.words_counted, h.stop_words_counted, length-heads (w ∷ s ∷ []))

    file_place :
        n.num_unique_words * 8 + n.num_stop_words * 8 + n.num_dirs * 8 + 32
        ≡ length (heads M (w ∷ s ∷ d ∷ [])) + 8
    file_place = omega (
      arith,
      h.words_counted,
      h.stop_words_counted,
      h.dirs_counted,
      length-heads (w ∷ s ∷ d ∷ []),
    )

    meta_name_place :
        n.num_unique_words * 8 + n.num_stop_words * 8 + n.num_dirs * 8 + n.num_files * 8 + 40
        ≡ length (heads M (w ∷ s ∷ d ∷ f ∷ [])) + 8
    meta_name_place = omega (
      arith,
      h.words_counted,
      h.stop_words_counted,
      h.dirs_counted,
      h.files_counted,
      length-heads (w ∷ s ∷ d ∷ f ∷ []),
    )

    pub write_header-heads :
        write_header M n a (at_end (heads M [])) ≡ (at_end (heads M (arrays_of a)), places_of n)
    unfolding write_header
    write_header-heads =
        rw
          (
            write_part-heads M [] w _ h.words_counted,
            write_part_if-heads M (w ∷ []) s _ h.stop_words_counted,
            write_part-heads M (w ∷ s ∷ []) d _ h.dirs_counted,
            write_part-heads M (w ∷ s ∷ d ∷ []) f _ h.files_counted,
            write_part_if-heads M (w ∷ s ∷ d ∷ f ∷ []) a.meta_name_offset _ h.meta_names_counted,
          )
          (rw (← word_place, ← stop_word_place, ← dir_place, ← file_place, ← meta_name_place) refl)

  -- A part is rewritten, or left out because it is empty.
  rewrite_if :
      (front : List (List ℕ)) (os os' : List ℕ) (back : List (List ℕ)) (body : List ℕ) (o : Ostream)
      (n place : ℕ)
      → length os ≡ n
      → length os' ≡ n
      → place ≡ length (heads M front) + 8
      → o.written ≡ heads M (front ++ (os ∷ back)) ++ body
      → (if n == 0 then o else rewrite_part M place os' o).written
        ≡ heads M (front ++ (os' ∷ back)) ++ body
  rewrite_if front os os' back body o n place e e' p w = elim (Bool-cases (n == 0)) [
    | inl z ↦ rw (z, empty_array n os' e' z) (w ∙ rw (empty_array n os e z) refl)
    | inr z ↦ rw z (rewrite_part-heads M front os os' back body o place (e ∙ sym e') p w)
  ]

  pub rewrite_header-heads :
      (n : Counts) (a a' : Offsets) (body : List ℕ) (o : Ostream)
      → AreCounted n a
      → AreCounted n a'
      → o.written ≡ heads M (arrays_of a) ++ body
      → (rewrite_header M n (places_of n) a' o).written ≡ heads M (arrays_of a') ++ body
  unfolding rewrite_header
  rewrite_header-heads n a a' body o h h' e =
      let w = a'.word_offset in
      let s = a'.stop_word_offset in
      let d = a'.dir_offset in
      let f = a'.file_offset in
      let words =
        rewrite_part-heads M [] a.word_offset w
          (a.stop_word_offset ∷ a.dir_offset ∷ a.file_offset ∷ a.meta_name_offset ∷ []) body o 8
          (h.words_counted ∙ sym h'.words_counted) (word_place n a' h') e in
      let stops =
        rewrite_if (w ∷ []) a.stop_word_offset s
          (a.dir_offset ∷ a.file_offset ∷ a.meta_name_offset ∷ []) body _ n.num_stop_words _
          h.stop_words_counted h'.stop_words_counted (stop_word_place n a' h') words in
      let dirs =
        rewrite_part-heads M (w ∷ s ∷ []) a.dir_offset d (a.file_offset ∷ a.meta_name_offset ∷ [])
          body _ _ (h.dirs_counted ∙ sym h'.dirs_counted) (dir_place n a' h') stops in
      let infos =
        rewrite_part-heads M (w ∷ s ∷ d ∷ []) a.file_offset f (a.meta_name_offset ∷ []) body _ _
          (h.files_counted ∙ sym h'.files_counted) (file_place n a' h') dirs in
      (rewrite_if (w ∷ s ∷ d ∷ f ∷ []) a.meta_name_offset a'.meta_name_offset [] body _
        n.num_meta_names _ h.meta_names_counted h'.meta_names_counted (meta_name_place n a' h')
        infos)
