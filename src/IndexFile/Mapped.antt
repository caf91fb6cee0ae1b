-- ===== src/IndexFile/Mapped.antt =====
-- The mapped index as the parser of queries sees it, over the bytes of the file, and the one that the contents of the
-- index stand for.
use swishxx.Common.{
  ℕ, ◌^◌, ◌<◌, ◌≡◌, ap, sym, ◌∙◌, false, List, [], map, Option, none, some, length, take,
}
use swishxx.Query.{Index}
use swishxx.FileInfo.{read_info}
use swishxx.Merge.Strings.{str_less}
use swishxx.IndexFile.{Memory, IndexSegment, isi_file, set_index_file}
use swishxx.IndexFile.Write.{Contents, write_full_index}
use swishxx.IndexFile.Whole.{IsContents}
use swishxx.IndexFile.RoundTrip.{size_of, read_segment-write_full_index}
use swishxx.IndexFile.Loops.{read_segment-opened, length-read_from}
use swishxx.IndexFile.Search.{BinarySearch, less_n, find_words, is_stop_word, find_meta_id}
use swishxx.IndexFile.Sorted.{IsAscending}
use swishxx.IndexFile.Lookup.{entries_of, find_words-written}
use swishxx.IndexFile.Names.{is_member, value_of, is_stop_word-member, find_meta_id-value}

-- What there is, or something else.
abbrev or_else : {A : Type 0} → A → Option A → A
or_else d none = d
or_else d (some a) = a

abbrev entries_in : Option IndexSegment → ℕ
entries_in none = 0
entries_in (some s) = s.num_entries

-- `words`, `stop_words`, `files` and `meta_names` of src/search.cpp, with the searches of src/query.cpp in the
-- order of `strcmp`, that is for words that are not stemmed; in a file that is no index nothing is found. The
-- other two numbers are settings.
unfoldable pub mapped_index : Memory → BinarySearch → ℕ → ℕ → List ℕ → Index
mapped_index M B files_max percent_max file = record {
  find_word = λ w. or_else [] (find_words M B str_less file w);
  find_prefix = λ w. or_else [] (find_words M B (less_n (length w)) file w);
  is_stop_word = λ w. or_else false (is_stop_word M B str_less file w);
  find_meta = λ w. or_else none (find_meta_id M B str_less file w);
  num_files = entries_in (set_index_file M file isi_file);
  word_files_max = files_max;
  word_percent_max = percent_max;
}

-- The same, of the contents.
unfoldable pub contents_index : ℕ → ℕ → Contents → Index
contents_index files_max percent_max c = record {
  find_word = λ w. map (λ e. e.1) (entries_of (λ v. v) w c.words);
  find_prefix = λ w. map (λ e. e.1) (entries_of (take (length w)) w c.words);
  is_stop_word = λ w. is_member w c.stop_words;
  find_meta = λ w. value_of w c.meta_names;
  num_files = length c.infos;
  word_files_max = files_max;
  word_percent_max = percent_max;
}

-- If what is written can be written in an index that is not too large, and its words, stop words and meta names
-- are ascending, then the file is written, and the parser of queries sees in it, for words that are not stemmed,
-- by binary searches over the bytes, the same index as in the contents: the files of each word, and of each word
-- that begins with one, the stop words, the IDs of the meta names, and the number of files.
pub mapped_index-write_full_index :
    (M : Memory) (B : BinarySearch) (c : Contents) (names : List (List ℕ))
    (files_max percent_max : ℕ)
    → IsContents c names
    → IsAscending (λ e. e.0) c.words
    → IsAscending (λ t. t) c.stop_words
    → IsAscending (λ m. m.0) c.meta_names
    → size_of (write_full_index M c) < 2 ^ 63
    → (bs : List ℕ) × (write_full_index M c ≡ some bs)
      × (mapped_index M B files_max percent_max bs ≡ contents_index files_max percent_max c)
unfolding mapped_index contents_index
mapped_index-write_full_index M B c names files_max percent_max h ascend stops_ascend metas_ascend
      small =
    let (bs, written, words, stops, dirs, infos, metas) =
      read_segment-write_full_index M c names h small in
    let (s, found, loop) = read_segment-opened M read_info bs isi_file c.infos infos in
    let files : entries_in (set_index_file M bs isi_file) ≡ length c.infos =
      ap entries_in found ∙ sym (length-read_from M read_info s s.num_entries 0 c.infos loop) in
    (
      bs,
      written,
      λ i. record {
        find_word = λ w. ap (or_else []) ((find_words-written M B c bs words ascend w 0).0) i;
        find_prefix =
            λ w. ap (or_else []) ((find_words-written M B c bs words ascend w (length w)).1) i;
        is_stop_word = λ w.
            ap (or_else false) (is_stop_word-member M B bs c.stop_words w stops stops_ascend) i;
        find_meta =
            λ w. ap (or_else none) (find_meta_id-value M B bs c.meta_names w metas metas_ascend) i;
        num_files = files i;
        word_files_max = files_max;
        word_percent_max = percent_max;
      },
    )
