-- ===== src/IndexFile/Bodies.antt =====
-- What each of the five writers appends to the stream, and the offsets that it records.
use swishxx.Common.{ℕ, ◌+◌, ◌≡◌, refl, ◌∙◌, List, [], ◌∷◌, ◌++◌, map, Option, some, length, All}
use swishxx.Posting.{File}
use swishxx.FileInfo.{FileInfo, write_file_index}
use swishxx.FileInfo.RoundTrip.{IsText, IsInfo, info_bytes, write_info-bytes}
use swishxx.IndexFile.Layout.{concat, placed}
use swishxx.IndexFile.Write.{
  Ostream, my_write, write_entries, write_text, write_dir, write_word_index, write_stop_word_index,
  write_dir_index, write_infos, write_meta_name_index, DirSet,
}
use swishxx.IndexFile.Stream.{at_end, at_end_pos, my_write-end, write_entries-end}
use swishxx.IndexFile.Codecs.{
  text_codec, text_bytes, word_codec, word_bytes, IsWordEntry, meta_name_codec, meta_bytes,
  IsMetaName,
}
use swishxx.IndexFile.Dirs.{IsDirSet, fill_dirs-IsDirSet}

-- The stream behind some entries, and their offsets.
abbrev pub appended : List ℕ → List (List ℕ) → Option (Ostream × List ℕ)
appended xs bss = some (at_end (xs ++ concat bss), placed (length xs) bss)

pub write_word_index-end :
    (ws : List (List ℕ × List File)) (xs : List ℕ)
    → All IsWordEntry ws
    → write_word_index ws (at_end xs) ≡ appended xs (map word_bytes ws)
unfolding write_word_index word_codec
write_word_index-end = write_entries-end word_codec

pub write_stop_word_index-end :
    (ws : List (List ℕ)) (xs : List ℕ)
    → All IsText ws
    → write_stop_word_index ws (at_end xs) ≡ appended xs (map text_bytes ws)
unfolding write_stop_word_index text_codec
write_stop_word_index-end = write_entries-end text_codec

pub write_meta_name_index-end :
    (ms : List (List ℕ × ℕ)) (xs : List ℕ)
    → All IsMetaName ms
    → write_meta_name_index ms (at_end xs) ≡ appended xs (map meta_bytes ms)
unfolding write_meta_name_index meta_name_codec
write_meta_name_index-end = write_entries-end meta_name_codec

write_entries-dirs :
    (names : List (List ℕ)) (o : Ostream)
    → write_entries write_dir (map some names) o ≡ write_entries write_text names o
unfolding write_entries
write_entries-dirs [] o = refl
write_entries-dirs (name ∷ names) o =
    rw (write_entries-dirs names (my_write o (name ++ (0 ∷ [])))) refl

pub write_dir_index-end :
    (dirs : DirSet) (names : List (List ℕ)) (xs : List ℕ)
    → IsDirSet dirs names
    → All IsText names
    → write_dir_index dirs (at_end xs) ≡ appended xs (map text_bytes names)
unfolding write_dir_index text_codec
write_dir_index-end dirs names xs h t =
    rw (fill_dirs-IsDirSet dirs names h)
      (write_entries-dirs names (at_end xs) ∙ write_entries-end text_codec names xs t)

abbrev pub bytes_of_info : FileInfo → List ℕ
bytes_of_info fi = info_bytes fi []

write_file_index-bytes :
    (infos : List FileInfo) (pos : ℕ)
    → All IsInfo infos
    → write_file_index infos pos
      ≡ some (concat (map bytes_of_info infos), placed pos (map bytes_of_info infos))
unfolding write_file_index concat placed
write_file_index-bytes [] pos h = refl
write_file_index-bytes (fi ∷ infos) pos (h, hs) =
    rw (write_info-bytes fi h, write_file_index-bytes infos (pos + length (info_bytes fi [])) hs)
      refl

pub write_infos-end :
    (infos : List FileInfo) (xs : List ℕ)
    → All IsInfo infos
    → write_infos infos (at_end xs) ≡ appended xs (map bytes_of_info infos)
unfolding write_infos
write_infos-end infos xs h =
    rw
      (
        write_file_index-bytes infos (at_end xs).pos h,
        my_write-end xs (concat (map bytes_of_info infos)),
        at_end_pos xs,
      )
      refl
