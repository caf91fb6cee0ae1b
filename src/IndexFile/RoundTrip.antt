-- ===== src/IndexFile/RoundTrip.antt =====
-- The whole index file, read through `index_segment`.
use swishxx.Common.{
  ℕ, ◌^◌, ◌<◌, ◌≡◌, refl, sym, ap, ◌∙◌, List, [], ◌∷◌, ◌++◌, Option, none, some, length, append-nil,
  append_assoc,
}
use mathlib.Core.Path.{subst}
use swishxx.FileInfo.{read_info}
use swishxx.IndexFile.{
  Memory, isi_word, isi_stop_word, isi_dir, isi_file, isi_meta_name, read_segment,
}
use swishxx.IndexFile.Layout.{concat, heads}
use swishxx.IndexFile.Entries.{read_segment-entries}
use swishxx.IndexFile.Write.{Offsets, Contents, write_full_index}
use swishxx.IndexFile.Header.{arrays_of}
use swishxx.IndexFile.Read.{read_word, read_text, read_meta_name}
use swishxx.IndexFile.Codecs.{word_codec, text_codec, info_codec, meta_name_codec}
use swishxx.IndexFile.Whole
use swishxx.IndexFile.Whole.{IsContents}

module _ (M : Memory) (c : Contents) (names : List (List ℕ)) (h : IsContents c names)
    (fits : length (Whole.file M c names h) < 2 ^ 63) where
  abbrev header : List ℕ
  header = Whole.header M c names h

  abbrev final : Offsets
  final = Whole.final M c names h

  abbrev bodies : List ℕ
  bodies = Whole.bodies M c names h

  abbrev file : List ℕ
  file = Whole.file M c names h

  abbrev ws : List (List ℕ)
  ws = Whole.ws M c names h

  abbrev ss : List (List ℕ)
  ss = Whole.ss M c names h

  abbrev ds : List (List ℕ)
  ds = Whole.ds M c names h

  abbrev fs : List (List ℕ)
  fs = Whole.fs M c names h

  abbrev ms : List (List ℕ)
  ms = Whole.ms M c names h

  abbrev head : List ℕ
  head = heads M (arrays_of final)

  words_read : read_segment M read_word file isi_word ≡ some c.words
  unfolding word_codec Whole.file Whole.bodies Whole.final
  words_read =
      read_segment-entries M file fits word_codec c.words [] _ bodies (head ++ [])
        (concat ss ++ (concat ds ++ (concat fs ++ concat ms))) (length header)
        (ap length (sym (append-nil header)) ∙ Whole.as_long M c names h []) refl
        (simp append_assoc refl) h.words_are

  stop_words_read : read_segment M read_text file isi_stop_word ≡ some c.stop_words
  unfolding text_codec Whole.file Whole.bodies Whole.final
  stop_words_read =
      read_segment-entries M file fits text_codec c.stop_words (final.word_offset ∷ []) _ bodies
        (head ++ concat ws) (concat ds ++ (concat fs ++ concat ms)) (length (header ++ concat ws))
        (Whole.as_long M c names h (concat ws)) refl (simp append_assoc refl) h.stop_words_are

  dirs_read : read_segment M read_text file isi_dir ≡ some names
  unfolding text_codec Whole.file Whole.bodies Whole.final
  dirs_read =
      read_segment-entries M file fits text_codec names
        (final.word_offset ∷ final.stop_word_offset ∷ []) _ bodies
        (head ++ (concat ws ++ concat ss)) (concat fs ++ concat ms)
        (length ((header ++ concat ws) ++ concat ss))
        (ap length (append_assoc header (concat ws) (concat ss))
          ∙ Whole.as_long M c names h (concat ws ++ concat ss))
        refl (simp append_assoc refl) h.names_are

  infos_read : read_segment M read_info file isi_file ≡ some c.infos
  unfolding info_codec Whole.file Whole.bodies Whole.final
  infos_read =
      let front = concat ws ++ (concat ss ++ concat ds) in
      let assoc : ((header ++ concat ws) ++ concat ss) ++ concat ds ≡ header ++ front =
        simp append_assoc refl in
      read_segment-entries M file fits info_codec c.infos
        (final.word_offset ∷ final.stop_word_offset ∷ final.dir_offset ∷ []) _ bodies
        (head ++ front) (concat ms) (length (((header ++ concat ws) ++ concat ss) ++ concat ds))
        (ap length assoc ∙ Whole.as_long M c names h front) refl (simp append_assoc refl)
        h.infos_are

  meta_names_read : read_segment M read_meta_name file isi_meta_name ≡ some c.meta_names
  unfolding meta_name_codec Whole.file Whole.bodies Whole.final
  meta_names_read =
      let front = concat ws ++ (concat ss ++ (concat ds ++ concat fs)) in
      let assoc : (((header ++ concat ws) ++ concat ss) ++ concat ds) ++ concat fs
          ≡ header ++ front =
        simp append_assoc refl in
      read_segment-entries M file fits meta_name_codec c.meta_names
        (final.word_offset ∷ final.stop_word_offset ∷ final.dir_offset ∷ final.file_offset ∷ []) _
        bodies (head ++ front) []
        (length ((((header ++ concat ws) ++ concat ss) ++ concat ds) ++ concat fs))
        (ap length assoc ∙ Whole.as_long M c names h front) refl
        (simp (append_assoc, append-nil) refl) h.meta_names_are

-- The size of a file, once it is written.
abbrev pub size_of : Option (List ℕ) → ℕ
size_of none = 0
size_of (some bs) = length bs

-- If there is a word, what is written can be written in an index, and the file is not larger than an `off_t`
-- can tell, then `write_full_index` writes a file from whose segments, whatever the new arrays of offsets held at
-- first, loops over `index_segment` read the words with all of their files, the stop words, the directories in the
-- order of their numbers, the files and the meta names with their IDs, each in order.
pub read_segment-write_full_index :
    (M : Memory) (c : Contents) (names : List (List ℕ))
    → IsContents c names
    → size_of (write_full_index M c) < 2 ^ 63
    → (bs : List ℕ) × (write_full_index M c ≡ some bs)
      × (read_segment M read_word bs isi_word ≡ some c.words)
      × (read_segment M read_text bs isi_stop_word ≡ some c.stop_words)
      × (read_segment M read_text bs isi_dir ≡ some names)
      × (read_segment M read_info bs isi_file ≡ some c.infos)
      × (read_segment M read_meta_name bs isi_meta_name ≡ some c.meta_names)
read_segment-write_full_index M c names h small =
    let fits : length (Whole.file M c names h) < 2 ^ 63 =
      subst (λ o. size_of o < 2 ^ 63) (Whole.written M c names h) small in
    (
      Whole.file M c names h,
      Whole.written M c names h,
      words_read M c names h fits,
      stop_words_read M c names h fits,
      dirs_read M c names h fits,
      infos_read M c names h fits,
      meta_names_read M c names h fits,
    )
