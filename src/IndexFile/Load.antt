-- ===== src/IndexFile/Load.antt =====
-- `load_old_index` of src/index.cpp: what an incremental run of `index` takes from the index that there is. Its words
-- stay in the file, which becomes one of the partial indices; `FilesReserve` only sizes a vector.
use swishxx.Common.{
  ℕ, ◌%◌, ◌^◌, List, [], ◌∷◌, ◌++◌, Option, none, some, ltb, if◌then◌else◌, length, map,
}
use swishxx.Posting.{◌>>=◌}
use swishxx.FileInfo.{FileInfo, read_info}
use swishxx.Filter.{pjl_basename}
use swishxx.Stem.{list_eq}
use swishxx.Merge.Strings.{str_less}
use swishxx.IndexFile.{
  Memory, IndexSegment, isi_stop_word, isi_dir, isi_file, isi_meta_name, set_index_file, entry_at,
  read_segment,
}
use swishxx.IndexFile.Write.{DirSet}
use swishxx.IndexFile.Read.{read_text, read_meta_name}

-- A map from strings to numbers, ordered by `strcmp`: the value of a key, and a key with a new value.
unfoldable pub lookup : List ℕ → DirSet → Option ℕ
lookup key [] = none
lookup key (d ∷ ds) = let rest = lookup key ds in if list_eq key d.0 then some d.1 else rest

unfoldable pub store : List ℕ → ℕ → DirSet → DirSet
store key v [] = (key, v) ∷ []
store key v (d ∷ ds) =
    let rest = store key v ds in
    if str_less key d.0
    then (key, v) ∷ d ∷ ds
    else if str_less d.0 key
    then d ∷ rest
    else (d.0, v) ∷ ds

-- `check_add_directory`: the number of the directory, and the map with it. The number is an `int`, as its 32-bit
-- pattern: from the directory 2 ^ 31 on it is negative.
unfoldable pub check_add_directory : List ℕ → DirSet → ℕ × DirSet
check_add_directory dir dirs =
    let new = length dirs % 2 ^ 32 in
    elim (lookup dir dirs) [ some i ↦ (i, dirs) | none ↦ (new, store dir new dirs) ]

unfoldable pub add_dirs : List (List ℕ) → DirSet → DirSet
add_dirs [] dirs = dirs
add_dirs (d ∷ ds) dirs = add_dirs ds (check_add_directory d dirs).1

-- A set of strings.
unfoldable pub insert_word : List ℕ → List (List ℕ) → List (List ℕ)
insert_word w [] = w ∷ []
insert_word w (v ∷ vs) =
    let rest = insert_word w vs in
    if str_less w v then w ∷ v ∷ vs else if str_less v w then v ∷ rest else v ∷ vs

unfoldable pub insert_words : List (List ℕ) → List (List ℕ) → List (List ℕ)
insert_words [] set = set
insert_words (w ∷ ws) set = insert_words ws (insert_word w set)

unfoldable pub store_all : List (List ℕ × ℕ) → DirSet → DirSet
store_all [] names = names
store_all (m ∷ ms) names = store_all ms (store m.0 m.1 names)

-- The first constructor of `file_info`; a null title is `none`.
unfoldable pub new_file_info : List ℕ → ℕ → ℕ → Option (List ℕ) → ℕ → FileInfo
new_file_info path dir size title words =
    let name = pjl_basename path in
    record {
      dir_index = dir;
      file_name = name;
      file_size = size;
      num_words = words;
      title = elim title [ none ↦ name | some t ↦ t ];
    }

pub record Loaded : Type 0 where
  pub stop_words : List (List ℕ)
  pub dir_set : DirSet
  pub name_set : List (List ℕ)
  pub infos : List FileInfo
  pub meta_names : List (List ℕ × ℕ)

module _ (M : Memory) where
  -- The path of a file, and what is known of it. A number of a directory above the greatest `int` is a negative one.
  unfoldable pub load_info : IndexSegment → List ℕ → Option (List ℕ × FileInfo)
  load_info old_dirs p = do
    fi ← read_info p
    dir ←
        (if ltb fi.dir_index (2 ^ 31) then entry_at M old_dirs fi.dir_index else none) >>= read_text
    let path = dir ++ (b'/' ∷ fi.file_name) in
        some (path, new_file_info path fi.dir_index fi.file_size (some fi.title) fi.num_words)

  -- From the global variables as they are at the start of the program, all empty.
  unfoldable pub load_old_index : List ℕ → Option Loaded
  load_old_index file = do
    stops ← read_segment M read_text file isi_stop_word
    dirs ← read_segment M read_text file isi_dir
    old_dirs ← set_index_file M file isi_dir
    infos ← read_segment M (load_info old_dirs) file isi_file
    metas ← read_segment M read_meta_name file isi_meta_name
    some (record {
      stop_words = insert_words stops [];
      dir_set = add_dirs dirs [];
      name_set = map (λ i. i.0) infos;
      infos = map (λ i. i.1) infos;
      meta_names = store_all metas [];
    })
