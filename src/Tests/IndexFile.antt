-- ===== src/Tests/IndexFile.antt =====
-- An index of two words, in the memory of a little-endian machine.
use swishxx.Common.{
  ◌^◌, ℕ, zero, suc, ◌<◌, ◌≡◌, refl, true, map, arith, List, [], ◌∷◌, some, codes, All, get_elem?,
}
use swishxx.Tests.Machine.{le_bytes, garbage, little_endian, linear}
use swishxx.Posting.{File}
use swishxx.Filter.{rfind}
use swishxx.Stem.{list_eq}
use swishxx.Merge.Strings.{str_less}
use swishxx.FileInfo.{read_info}
use swishxx.IndexFile.{isi_word, isi_stop_word, isi_dir, isi_file, isi_meta_name, read_segment}
use swishxx.IndexFile.Read.{read_word, read_text, read_meta_name}
use swishxx.IndexFile.Load.{Loaded, load_old_index, check_add_directory, lookup, store}
use swishxx.IndexFile.Numbers.{AreUnlike, check_add_directory-IsDirSet}
use swishxx.IndexFile.Reload.{IsReloadable, load_old_index-write_full_index}
use swishxx.IndexFile.Lookup.{entries_of}
use swishxx.IndexFile.Mapped.{mapped_index, contents_index, mapped_index-write_full_index}
use swishxx.IndexFile.Partial.{read_segment-write_partial_index}
use swishxx.IndexFile.Write.{Contents, write_full_index, write_partial_index}
use swishxx.Posting.{
  IsFile, write_entry, write_files, write_file, write_meta_ids, write_word_pos, write_shorts,
}
use swishxx.Vlq.{encode, encode_loop, clear_last}
use swishxx.FileInfo.{write_info, write_file_index}
use swishxx.FileInfo.RoundTrip.{IsInfo}
use swishxx.IndexFile.Layout.{longs}
use swishxx.IndexFile.Codecs.{IsWordEntry}
use swishxx.IndexFile.Write.{
  write_header, write_part, write_part_if, my_write, write_word_index, write_stop_word_index,
  write_dir_index, write_infos, write_meta_name_index, write_entries, nulls, fill_dirs, set_at,
  write_meta_name, rewrite_header, rewrite_part,
}
use swishxx.IndexFile.Dirs.{has_number, IsDirSet}
use swishxx.IndexFile.Whole.{IsContents}
use swishxx.IndexFile.RoundTrip.{size_of, read_segment-write_full_index}

abbrev posting : File
posting = record { index = 1; occurrences = 300; rank = 5; meta_ids = 2 ∷ []; pos_deltas = 3 ∷ [] }

abbrev words : List (List ℕ × List File)
words = (codes "ant", posting ∷ []) ∷ (codes "bee", posting ∷ posting ∷ []) ∷ []

abbrev names : List (List ℕ)
names = codes "." ∷ codes "doc" ∷ codes "a" ∷ []

abbrev contents : Contents
contents = record {
  words = words;
  stop_words = codes "of" ∷ codes "the" ∷ [];
  dir_set = (codes ".", 0) ∷ (codes "a", 2) ∷ (codes "doc", 1) ∷ [];
  infos =
      record {
        dir_index = 1;
        file_name = codes "f";
        file_size = 70000;
        num_words = 9;
        title = codes "T";
      }
      ∷ [];
  meta_names = (codes "author", 1) ∷ (codes "title", 0) ∷ [];
}

dirs-IsDirSet : IsDirSet contents.dir_set names
dirs-IsDirSet = record {
  all_counted = refl;
  all_named = (refl, (refl, (refl, tt)));
  all_there = there;
}
  where
    there : (i : ℕ) → i < 3 → has_number i contents.dir_set ≡ true
    there zero h = refl
    there (suc zero) h = refl
    there (suc (suc zero)) h = refl
    there (suc (suc (suc i))) h = absurd (omega arith)

posting-IsFile : IsFile posting
posting-IsFile = record {
  index_fits = omega arith;
  occurrences_fits = omega arith;
  rank_fits = omega arith;
  meta_ids_fit = (omega arith, tt);
  meta_ids_differ = (refl, tt);
  pos_deltas_fit = (omega arith, tt);
}

infos_fit : All IsInfo contents.infos
infos_fit = (
  record {
    dir_fits = omega arith;
    size_fits = omega arith;
    words_fit = omega arith;
    name_is = (refl, tt);
    title_is = (refl, tt);
  },
  tt,
)

words_are : All IsWordEntry words
words_are = (
  ((refl, (refl, (refl, tt))), (posting-IsFile, tt)),
  (((refl, (refl, (refl, tt))), (posting-IsFile, (posting-IsFile, tt))), tt),
)

contents-IsContents : IsContents contents names
contents-IsContents = record {
  words_there = refl;
  words_are = words_are;
  stop_words_are = ((refl, (refl, tt)), ((refl, (refl, (refl, tt))), tt));
  dirs_are = dirs-IsDirSet;
  names_are = ((refl, tt), ((refl, (refl, (refl, tt))), ((refl, tt), tt)));
  infos_are = infos_fit;
  meta_names_are = (
    ((refl, (refl, (refl, (refl, (refl, (refl, tt)))))), omega arith),
    (((refl, (refl, (refl, (refl, (refl, tt))))), omega arith), tt),
  );
}

index_size : size_of (write_full_index little_endian contents) ≡ 200
unfolding write_full_index write_header write_part write_part_if my_write longs write_word_index
    write_stop_word_index write_dir_index write_infos write_meta_name_index write_entries
    write_entry write_files write_file write_meta_ids write_word_pos write_shorts encode encode_loop
    clear_last nulls fill_dirs set_at write_file_index write_info write_meta_name rewrite_header
    rewrite_part le_bytes garbage little_endian
index_size = refl

read_segment-write_full_index_example :
    (bs : List ℕ) × (write_full_index little_endian contents ≡ some bs)
    × (read_segment little_endian read_word bs isi_word ≡ some words)
    × (read_segment little_endian read_text bs isi_stop_word ≡ some contents.stop_words)
    × (read_segment little_endian read_text bs isi_dir ≡ some names)
    × (read_segment little_endian read_info bs isi_file ≡ some contents.infos)
    × (read_segment little_endian read_meta_name bs isi_meta_name ≡ some contents.meta_names)
read_segment-write_full_index_example =
    read_segment-write_full_index little_endian contents names contents-IsContents
      (omega (arith, index_size))

names_unlike : AreUnlike names
names_unlike zero zero name h k = refl
names_unlike zero (suc zero) name h k = cc (h, k)
names_unlike zero (suc (suc zero)) name h k = cc (h, k)
names_unlike zero (suc (suc (suc j))) name h k = cc k
names_unlike (suc zero) zero name h k = cc (h, k)
names_unlike (suc zero) (suc zero) name h k = refl
names_unlike (suc zero) (suc (suc zero)) name h k = cc (h, k)
names_unlike (suc zero) (suc (suc (suc j))) name h k = cc k
names_unlike (suc (suc zero)) zero name h k = cc (h, k)
names_unlike (suc (suc zero)) (suc zero) name h k = cc (h, k)
names_unlike (suc (suc zero)) (suc (suc zero)) name h k = refl
names_unlike (suc (suc zero)) (suc (suc (suc j))) name h k = cc k
names_unlike (suc (suc (suc i))) j name h k = cc h

contents-IsReloadable : IsReloadable contents names
unfolding str_less rfind
contents-IsReloadable = record {
  stop_words_ascend = ((refl, tt), (tt, tt));
  meta_names_ascend = ((refl, tt), (tt, tt));
  names_unlike = names_unlike;
  names_few = omega arith;
  dirs_there = (omega arith, tt);
  names_flat = (refl, tt);
}

load_old_index-write_full_index_example :
    (bs : List ℕ) × (loaded : Loaded) × (write_full_index little_endian contents ≡ some bs)
    × (load_old_index little_endian bs ≡ some loaded)
    × (loaded.stop_words ≡ contents.stop_words)
    × (IsDirSet loaded.dir_set names)
    × (loaded.infos ≡ contents.infos)
    × (loaded.meta_names ≡ contents.meta_names)
load_old_index-write_full_index_example =
    load_old_index-write_full_index little_endian contents names contents-IsContents
      contents-IsReloadable (omega (arith, index_size))

partial_size : size_of (write_partial_index little_endian words) ≡ 65
unfolding write_partial_index write_part my_write longs write_word_index write_entries write_entry
    write_files write_file write_meta_ids write_word_pos write_shorts encode encode_loop clear_last
    rewrite_part le_bytes garbage little_endian
partial_size = refl

read_segment-write_partial_index_example :
    (bs : List ℕ) × (write_partial_index little_endian words ≡ some bs)
    × (read_segment little_endian read_word bs isi_word ≡ some words)
read_segment-write_partial_index_example =
    read_segment-write_partial_index little_endian words words_are (omega (arith, partial_size))

check_add_directory-IsDirSet_example :
    (names' : List (List ℕ)) × (IsDirSet
      (check_add_directory (codes "b") contents.dir_set).1
      names')
    × (get_elem? names' (check_add_directory (codes "b") contents.dir_set).0 ≡ some (codes "b"))
    × ((check_add_directory (codes "b") contents.dir_set).0 < 2 ^ 31)
    × ((i : ℕ) (name : List ℕ) → get_elem? names i ≡ some name → get_elem? names' i ≡ some name)
check_add_directory-IsDirSet_example =
    check_add_directory-IsDirSet (codes "b") contents.dir_set names dirs-IsDirSet (omega arith)

-- A new directory stands in its place in the map, under the next number.
add_b :
    check_add_directory (codes "b") contents.dir_set
    ≡ (3, (codes ".", 0) ∷ (codes "a", 2) ∷ (codes "b", 3) ∷ (codes "doc", 1) ∷ [])
unfolding check_add_directory lookup store str_less list_eq
add_b = refl

ascend : str_less (codes "ant") (codes "bee") ≡ true
unfolding str_less
ascend = refl

mapped_index-write_full_index_example :
    (bs : List ℕ) × (write_full_index little_endian contents ≡ some bs)
    × (mapped_index little_endian linear 100 50 bs ≡ contents_index 100 50 contents)
mapped_index-write_full_index_example =
    mapped_index-write_full_index little_endian linear contents names 100 50 contents-IsContents
      ((ascend, tt), (tt, tt)) contents-IsReloadable.stop_words_ascend
      contents-IsReloadable.meta_names_ascend (omega (arith, index_size))

-- The word is found with both of its files, another one is not.
find_bee : map (λ e. e.1) (entries_of (λ v. v) (codes "bee") words) ≡ (posting ∷ posting ∷ []) ∷ []
unfolding entries_of list_eq
find_bee = refl

find_cat : map (λ e. e.1) (entries_of (λ v. v) (codes "cat") words) ≡ []
unfolding entries_of list_eq
find_cat = refl
