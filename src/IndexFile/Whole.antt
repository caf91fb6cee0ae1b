-- ===== src/IndexFile/Whole.antt =====
-- The bytes that `write_full_index` writes: the heads of the segments with their offsets, and the bodies.
use swishxx.Common.Places.{length-map}
use swishxx.Common.{
  ℕ, ◌≡◌, refl, sym, ap, ◌∙◌, arith, false, List, [], ◌++◌, map, some, ◌==◌, ==_iff, Bool-cases,
  inl, inr, if◌then◌else◌, length, All, append_assoc, length-append,
}
use swishxx.FileInfo.RoundTrip.{IsText, IsInfo}
use swishxx.IndexFile.{Memory}
use swishxx.IndexFile.Layout.{concat, placed, length-placed, heads}
use swishxx.IndexFile.Write.{
  Ostream, Counts, Offsets, Contents, counts_of, new_offsets, write_header, write_full_index,
}
use swishxx.IndexFile.Stream.{at_end}
use swishxx.IndexFile.Header.{
  arrays_of, AreCounted, places_of, length-heads, write_header-heads, rewrite_header-heads,
}
use swishxx.IndexFile.Codecs.{text_bytes, word_bytes, IsWordEntry, meta_bytes, IsMetaName}
use swishxx.IndexFile.Dirs.{IsDirSet}
use swishxx.IndexFile.Bodies.{
  bytes_of_info, write_word_index-end, write_stop_word_index-end, write_dir_index-end,
  write_infos-end, write_meta_name_index-end,
}

-- What the indexer guarantees of what it writes; `names` are the directories in the order of their numbers.
pub record IsContents (c : Contents) (names : List (List ℕ)) : Type 0 where
  pub words_there : (length c.words == 0) ≡ false
  pub words_are : All IsWordEntry c.words
  pub stop_words_are : All IsText c.stop_words
  pub dirs_are : IsDirSet c.dir_set names
  pub names_are : All IsText names
  pub infos_are : All IsInfo c.infos
  pub meta_names_are : All IsMetaName c.meta_names

module _ (M : Memory) (c : Contents) (names : List (List ℕ)) (h : IsContents c names) where
  abbrev n : Counts
  n = counts_of c

  abbrev new : Offsets
  new = new_offsets M n

  -- What stands in front of each body, as it is written first.
  unfoldable pub header : List ℕ
  header = heads M (arrays_of new)

  abbrev pub ws : List (List ℕ)
  ws = map word_bytes c.words

  abbrev pub ss : List (List ℕ)
  ss = map text_bytes c.stop_words

  abbrev pub ds : List (List ℕ)
  ds = map text_bytes names

  abbrev pub fs : List (List ℕ)
  fs = map bytes_of_info c.infos

  abbrev pub ms : List (List ℕ)
  ms = map meta_bytes c.meta_names

  unfoldable pub final : Offsets
  final = record {
    word_offset = placed (length header) ws;
    stop_word_offset = placed (length (header ++ concat ws)) ss;
    dir_offset = placed (length ((header ++ concat ws) ++ concat ss)) ds;
    file_offset = placed (length (((header ++ concat ws) ++ concat ss) ++ concat ds)) fs;
    meta_name_offset =
        placed (length ((((header ++ concat ws) ++ concat ss) ++ concat ds) ++ concat fs)) ms;
  }

  unfoldable pub bodies : List ℕ
  bodies = concat ws ++ (concat ss ++ (concat ds ++ (concat fs ++ concat ms)))

  new_if : (k : ℕ) → length (if k == 0 then [] else M.new_array k) ≡ k
  new_if k = elim (Bool-cases (k == 0)) [
    | inl z ↦ rw z (sym ((==_iff k 0).0 z))
    | inr z ↦ rw z (M.array_is_new k)
  ]

  new_counted : AreCounted n new
  new_counted = record {
    words_counted = M.array_is_new n.num_unique_words;
    stop_words_counted = new_if n.num_stop_words;
    dirs_counted = M.array_is_new n.num_dirs;
    files_counted = M.array_is_new n.num_files;
    meta_names_counted = new_if n.num_meta_names;
  }

  final_counted : AreCounted n final
  unfolding final
  final_counted = record {
    words_counted = length-placed _ ws ∙ length-map word_bytes c.words;
    stop_words_counted = length-placed _ ss ∙ length-map text_bytes c.stop_words;
    dirs_counted = length-placed _ ds ∙ length-map text_bytes names ∙ sym h.dirs_are.all_counted;
    files_counted = length-placed _ fs ∙ length-map bytes_of_info c.infos;
    meta_names_counted = length-placed _ ms ∙ length-map meta_bytes c.meta_names;
  }

  start : Path Ostream (record { written = []; pos = 0 }) (at_end (heads M []))
  unfolding at_end heads
  start = refl

  header_written :
      write_header M n new (record { written = []; pos = 0 }) ≡ (at_end header, places_of n)
  unfolding header
  header_written = rw start (write_header-heads M n new new_counted)

  last : List ℕ
  last = ((((header ++ concat ws) ++ concat ss) ++ concat ds) ++ concat fs) ++ concat ms

  last_written : (at_end last).written ≡ heads M (arrays_of new) ++ bodies
  unfolding at_end last header bodies
  last_written = simp append_assoc refl

  write_full_index-bytes : write_full_index M c ≡ some (heads M (arrays_of final) ++ bodies)
  unfolding write_full_index final last
  write_full_index-bytes =
      rw
        (
          h.words_there,
          header_written,
          write_word_index-end c.words header h.words_are,
          write_stop_word_index-end c.stop_words (header ++ concat ws) h.stop_words_are,
          write_dir_index-end c.dir_set names ((header ++ concat ws) ++ concat ss) h.dirs_are
              h.names_are,
          write_infos-end c.infos (((header ++ concat ws) ++ concat ss) ++ concat ds) h.infos_are,
          write_meta_name_index-end c.meta_names
              ((((header ++ concat ws) ++ concat ss) ++ concat ds) ++ concat fs) h.meta_names_are,
        )
        (ap some (
          rewrite_header-heads M n new final bodies (at_end last) new_counted final_counted
            last_written))

  unfoldable pub file : List ℕ
  file = heads M (arrays_of final) ++ bodies

  pub written : write_full_index M c ≡ some file
  unfolding file
  written = write_full_index-bytes

  -- The header is as long as it was.
  pub as_long : (xs : List ℕ) → length (header ++ xs) ≡ length (heads M (arrays_of final) ++ xs)
  unfolding header
  as_long xs = omega (
    arith,
    length-append header xs,
    length-append (heads M (arrays_of final)) xs,
    length-heads M (arrays_of new),
    length-heads M (arrays_of final),
    new_counted.words_counted,
    new_counted.stop_words_counted,
    new_counted.dirs_counted,
    new_counted.files_counted,
    new_counted.meta_names_counted,
    final_counted.words_counted,
    final_counted.stop_words_counted,
    final_counted.dirs_counted,
    final_counted.files_counted,
    final_counted.meta_names_counted,
  )
