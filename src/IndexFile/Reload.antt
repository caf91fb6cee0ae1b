-- ===== src/IndexFile/Reload.antt =====
-- What `load_old_index` makes of an index that `write_full_index` wrote.
use swishxx.Common.Places.{get_elem?-get_or}
use swishxx.Common.{
  ℕ, suc, ◌^◌, ◌<◌, ◌≡◌, refl, arith, true, List, [], ◌∷◌, ◌++◌, map, none, some, ltb, length,
  get_or, All, drop,
}
use swishxx.FileInfo.{FileInfo, read_info}
use swishxx.Filter.{rfind, pjl_basename}
use swishxx.IndexFile.{Memory, IndexSegment, isi_dir, isi_file, read_from}
use swishxx.IndexFile.Loops.{read_from-entry, read_segment-opened, read_segment-map}
use swishxx.IndexFile.Write.{Contents, write_full_index}
use swishxx.IndexFile.Read.{read_text}
use swishxx.IndexFile.Dirs.{IsDirSet}
use swishxx.IndexFile.Whole.{IsContents}
use swishxx.IndexFile.RoundTrip.{size_of, read_segment-write_full_index}
use swishxx.IndexFile.Load.{
  Loaded, insert_words, add_dirs, store_all, new_file_info, load_info, load_old_index,
}
use swishxx.IndexFile.Numbers.{AreUnlike, add_dirs-IsDirSet}
use swishxx.IndexFile.Sorted.{IsAscending, insert_words-ascending, store_all-ascending}

rfind-last :
    (dir name : List ℕ) → rfind name 47 ≡ none → rfind (dir ++ (47 ∷ name)) 47 ≡ some (length dir)
unfolding rfind
rfind-last [] name h = rw h refl
rfind-last (d ∷ dir) name h = rw (rfind-last dir name h) refl

drop-front :
    (dir : List ℕ) (c : ℕ) (name : List ℕ) → drop (suc (length dir)) (dir ++ (c ∷ name)) ≡ name
drop-front [] c name = refl
drop-front (d ∷ dir) c name = drop-front dir c name

-- The last part of a path, if it has no slash of its own.
pjl_basename-path :
    (dir name : List ℕ) → rfind name 47 ≡ none → pjl_basename (dir ++ (47 ∷ name)) ≡ name
unfolding pjl_basename
pjl_basename-path dir name h = rw (rfind-last dir name h, pjl_basename) (drop-front dir 47 name)

-- What an index that is extended has, besides: order, and files whose directories are there.
pub record IsReloadable (c : Contents) (names : List (List ℕ)) : Type 0 where
  pub stop_words_ascend : IsAscending (λ w. w) c.stop_words
  pub meta_names_ascend : IsAscending (λ m. m.0) c.meta_names
  pub names_unlike : AreUnlike names
  pub names_few : length names < 2 ^ 31
  pub dirs_there : All (λ (fi : FileInfo). fi.dir_index < length names) c.infos
  pub names_flat : All (λ (fi : FileInfo). rfind fi.file_name 47 ≡ none) c.infos

-- The path of a file.
abbrev pub path_of : List (List ℕ) → FileInfo → List ℕ
path_of names fi = get_or names fi.dir_index [] ++ (47 ∷ fi.file_name)

new_file_info-path :
    (dir : List ℕ) (fi : FileInfo)
    → rfind fi.file_name 47 ≡ none
    → new_file_info
        (dir ++ (47 ∷ fi.file_name))
        fi.dir_index
        fi.file_size
        (some fi.title)
        fi.num_words
      ≡ fi
unfolding new_file_info
new_file_info-path dir fi h = rw (pjl_basename-path dir fi.file_name h) refl

-- A file is loaded as it is, with its path.
load_info-path :
    (M : Memory) (names : List (List ℕ)) (s : IndexSegment) (fi : FileInfo) (p : List ℕ)
    → read_from M read_text s 0 s.num_entries ≡ some names
    → length names < 2 ^ 31
    → fi.dir_index < length names
    → rfind fi.file_name 47 ≡ none
    → read_info p ≡ some fi
    → load_info M s p ≡ some (path_of names fi, fi)
unfolding load_info
load_info-path M names s fi p dirs few there flat e =
    let dir = get_or names fi.dir_index [] in
    let below : ltb fi.dir_index (2 ^ 31) ≡ true = ground (arith, few, there) in
    let dir_read =
      read_from-entry M read_text s s.num_entries 0 names fi.dir_index dir fi.dir_index dirs
        (get_elem?-get_or names fi.dir_index [] there) (omega arith) in
    rw (e, below, dir_read, new_file_info-path dir fi flat) refl

All-loaded :
    (M : Memory) (names : List (List ℕ)) (s : IndexSegment) (infos : List FileInfo)
    → read_from M read_text s 0 s.num_entries ≡ some names
    → length names < 2 ^ 31
    → All (λ (fi : FileInfo). fi.dir_index < length names) infos
    → All (λ (fi : FileInfo). rfind fi.file_name 47 ≡ none) infos
    → All
        (λ fi. (p : List ℕ) → read_info p ≡ some fi → load_info M s p ≡ some (path_of names fi, fi))
        infos
All-loaded M names s [] dirs few there flat = tt
All-loaded M names s (fi ∷ infos) dirs few (there, theres) (flat, flats) = (
  λ p. load_info-path M names s fi p dirs few there flat,
  All-loaded M names s infos dirs few theres flats,
)

map-loaded :
    (names : List (List ℕ)) (infos : List FileInfo)
    → map (λ (i : List ℕ × FileInfo). i.1) (map (λ fi. (path_of names fi, fi)) infos) ≡ infos
map-loaded names [] = refl
map-loaded names (fi ∷ infos) = rw (map-loaded names infos) refl

none_yet : IsDirSet [] []
none_yet = record {
  all_counted = refl;
  all_named = tt;
  all_there = λ i below. absurd (omega arith);
}

-- What is loaded.
loaded_of : Contents → List (List ℕ) → Loaded
loaded_of c names =
    let infos : List (List ℕ × FileInfo) =
      map (λ (fi : FileInfo). (path_of names fi, fi)) c.infos in
    record {
      stop_words = insert_words c.stop_words [];
      dir_set = add_dirs names [];
      name_set = map (λ i. i.0) infos;
      infos = map (λ i. i.1) infos;
      meta_names = store_all c.meta_names [];
    }

-- An index that `write_full_index` wrote, with a word in it, sorted stop words and meta names, no directory twice,
-- fewer than 2 ^ 31 of them, and only files that lie in one of them under a name without a slash, is loaded by
-- `load_old_index` as it was: the same stop words, the directories under their numbers, the files, and the meta
-- names with their IDs.
pub load_old_index-write_full_index :
    (M : Memory) (c : Contents) (names : List (List ℕ))
    → IsContents c names
    → IsReloadable c names
    → size_of (write_full_index M c) < 2 ^ 63
    → (bs : List ℕ) × (loaded : Loaded) × (write_full_index M c ≡ some bs)
      × (load_old_index M bs ≡ some loaded)
      × (loaded.stop_words ≡ c.stop_words)
      × (IsDirSet loaded.dir_set names)
      × (loaded.infos ≡ c.infos)
      × (loaded.meta_names ≡ c.meta_names)
unfolding load_old_index loaded_of
load_old_index-write_full_index M c names h r small =
    let (bs, w, words, stops, dirs, infos, metas) =
      read_segment-write_full_index M c names h small in
    let (s, found, dirs_read) = read_segment-opened M read_text bs isi_dir names dirs in
    let all = All-loaded M names s c.infos dirs_read r.names_few r.dirs_there r.names_flat in
    let loaded =
      read_segment-map M read_info (load_info M s) (λ fi. (path_of names fi, fi)) bs isi_file
        c.infos all infos in
    (
      bs,
      loaded_of c names,
      w,
      rw (stops, dirs, found, loaded, metas) refl,
      insert_words-ascending c.stop_words r.stop_words_ascend,
      add_dirs-IsDirSet names [] [] none_yet r.names_unlike (omega (arith, r.names_few)),
      map-loaded names c.infos,
      store_all-ascending c.meta_names r.meta_names_ascend,
    )
