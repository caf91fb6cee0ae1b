-- ===== src/IndexFile/Write.antt =====
-- src/index_header.cpp and the functions of src/index.cpp that write an index file, or the partial one of a round.
-- A stream that failed ends the program, which the model leaves out.
use swishxx.Common.{
  ℕ, zero, suc, ◌+◌, List, [], ◌∷◌, ◌++◌, Option, none, some, ◌==◌, if◌then◌else◌, length, take,
  drop,
}
use swishxx.Vlq.{encode}
use swishxx.Posting.{File, to_ulong, write_entry, ◌>>=◌}
use swishxx.FileInfo.{FileInfo, write_file_index}
use swishxx.IndexFile.{Memory}
use swishxx.IndexFile.Layout.{longs}

-- A file that is being written, and what `tellp` gives.
pub record Ostream : Type 0 where
  pub written : List ℕ
  pub pos : ℕ

abbrev pub seekp : Ostream → ℕ → Ostream
seekp o p = record o { pos = p }

-- What stands in the file behind `pos` is overwritten. No write starts behind the end.
unfoldable pub my_write : Ostream → List ℕ → Ostream
my_write o bs = record {
  written = take o.pos o.written ++ (bs ++ drop (o.pos + length bs) o.written);
  pos = o.pos + length bs;
}

-- A loop that writes entries, with the offsets that it records.
unfoldable pub write_entries :
    {E : Type 0} → (E → Option (List ℕ)) → List E → Ostream → Option (Ostream × List ℕ)
write_entries write [] o = some (o, [])
write_entries write (e ∷ es) o = do
  bs ← write e
  rest ← write_entries write es (my_write o bs)
  some (rest.0, o.pos ∷ rest.1)

-- A string, with its null.
abbrev pub write_text : List ℕ → Option (List ℕ)
write_text cs = some (cs ++ (0 ∷ []))

unfoldable pub write_meta_name : List ℕ × ℕ → Option (List ℕ)
write_meta_name m = encode (to_ulong m.1) >>= λ bs. some (m.0 ++ (0 ∷ bs))

abbrev pub write_word : List ℕ × List File → Option (List ℕ)
write_word w = write_entry w.0 w.1

unfoldable pub write_word_index : List (List ℕ × List File) → Ostream → Option (Ostream × List ℕ)
write_word_index = write_entries write_word

unfoldable pub write_stop_word_index : List (List ℕ) → Ostream → Option (Ostream × List ℕ)
write_stop_word_index = write_entries write_text

unfoldable pub write_meta_name_index : List (List ℕ × ℕ) → Ostream → Option (Ostream × List ℕ)
write_meta_name_index = write_entries write_meta_name

-- `write_file_index`, on the stream.
unfoldable pub write_infos : List FileInfo → Ostream → Option (Ostream × List ℕ)
write_infos infos o = write_file_index infos o.pos >>= λ r. some (my_write o r.0, r.1)

-- `dir_set`, with the number of each directory, in the order of iteration, which the code leaves open.
abbrev pub DirSet : Type 0
DirSet = List (List ℕ × ℕ)

-- `dir_list[ i ] = dir`; `none` out of range.
unfoldable pub set_at : {A : Type 0} → List A → ℕ → A → Option (List A)
set_at [] i a = none
set_at (x ∷ xs) zero a = some (a ∷ xs)
set_at (x ∷ xs) (suc i) a = set_at xs i a >>= λ ys. some (x ∷ ys)

-- A vector of null pointers.
unfoldable pub nulls : ℕ → List (Option (List ℕ))
nulls zero = []
nulls (suc n) = none ∷ nulls n

-- The loop that orders the directories by their numbers.
unfoldable pub fill_dirs : DirSet → List (Option (List ℕ)) → Option (List (Option (List ℕ)))
unfolding set_at
fill_dirs [] list = some list
fill_dirs (d ∷ dirs) list = set_at list d.1 (some d.0) >>= fill_dirs dirs

-- To write a null pointer is not defined.
abbrev pub write_dir : Option (List ℕ) → Option (List ℕ)
write_dir none = none
write_dir (some dir) = write_text dir

unfoldable pub write_dir_index : DirSet → Ostream → Option (Ostream × List ℕ)
write_dir_index dirs o =
    fill_dirs dirs (nulls (length dirs)) >>= λ dir_list. write_entries write_dir dir_list o

-- The numbers of entries, and the arrays of their offsets.
pub record Counts : Type 0 where
  pub num_unique_words : ℕ
  pub num_stop_words : ℕ
  pub num_dirs : ℕ
  pub num_files : ℕ
  pub num_meta_names : ℕ

pub record Offsets : Type 0 where
  pub word_offset : List ℕ
  pub stop_word_offset : List ℕ
  pub dir_offset : List ℕ
  pub file_offset : List ℕ
  pub meta_name_offset : List ℕ

-- Where the arrays stand in the file.
pub record Places : Type 0 where
  pub word_offset_pos : ℕ
  pub stop_word_offset_pos : ℕ
  pub dir_offset_pos : ℕ
  pub file_offset_pos : ℕ
  pub meta_name_offset_pos : ℕ

-- What the global variables of `index` hold.
pub record Contents : Type 0 where
  pub words : List (List ℕ × List File)
  pub stop_words : List (List ℕ)
  pub dir_set : DirSet
  pub infos : List FileInfo
  pub meta_names : List (List ℕ × ℕ)

abbrev pub counts_of : Contents → Counts
counts_of c = record {
  num_unique_words = length c.words;
  num_stop_words = length c.stop_words;
  num_dirs = length c.dir_set;
  num_files = length c.infos;
  num_meta_names = length c.meta_names;
}

module _ (M : Memory) where
  -- A count, and its array; the number that is given back is the place of the array.
  unfoldable pub write_part : ℕ → List ℕ → Ostream → Ostream × ℕ
  write_part n offsets o =
      let counted = my_write o (M.bytes_of n) in (my_write counted (longs M offsets), counted.pos)

  -- The same for an array that is written only if there is any.
  unfoldable pub write_part_if : ℕ → List ℕ → Ostream → Ostream × ℕ
  write_part_if n offsets o =
      let counted = my_write o (M.bytes_of n) in
      (if n == 0 then counted else my_write counted (longs M offsets), counted.pos)

  -- SWISHXX_WRITE_HEADER
  unfoldable pub write_header : Counts → Offsets → Ostream → Ostream × Places
  write_header n a o =
      let words = write_part n.num_unique_words a.word_offset o in
      let stops = write_part_if n.num_stop_words a.stop_word_offset words.0 in
      let dirs = write_part n.num_dirs a.dir_offset stops.0 in
      let infos = write_part n.num_files a.file_offset dirs.0 in
      let metas = write_part_if n.num_meta_names a.meta_name_offset infos.0 in
      (
        metas.0,
        record {
          word_offset_pos = words.1;
          stop_word_offset_pos = stops.1;
          dir_offset_pos = dirs.1;
          file_offset_pos = infos.1;
          meta_name_offset_pos = metas.1;
        },
      )

  unfoldable pub rewrite_part : ℕ → List ℕ → Ostream → Ostream
  rewrite_part place offsets o = my_write (seekp o place) (longs M offsets)

  -- SWISHXX_REWRITE_HEADER
  unfoldable pub rewrite_header : Counts → Places → Offsets → Ostream → Ostream
  rewrite_header n p a o =
      let words = rewrite_part p.word_offset_pos a.word_offset o in
      let stops =
        if n.num_stop_words == 0
        then words
        else rewrite_part p.stop_word_offset_pos a.stop_word_offset words in
      let dirs = rewrite_part p.dir_offset_pos a.dir_offset stops in
      let infos = rewrite_part p.file_offset_pos a.file_offset dirs in
      if n.num_meta_names == 0
      then infos
      else rewrite_part p.meta_name_offset_pos a.meta_name_offset infos

  abbrev pub new_offsets : Counts → Offsets
  new_offsets n = record {
    word_offset = M.new_array n.num_unique_words;
    stop_word_offset = if n.num_stop_words == 0 then [] else M.new_array n.num_stop_words;
    dir_offset = M.new_array n.num_dirs;
    file_offset = M.new_array n.num_files;
    meta_name_offset = if n.num_meta_names == 0 then [] else M.new_array n.num_meta_names;
  }

  -- The bytes of the file. With no words nothing is written.
  unfoldable pub write_full_index : Contents → Option (List ℕ)
  write_full_index c =
      let n = counts_of c in
      let header = write_header n (new_offsets n) (record { written = []; pos = 0 }) in
      if n.num_unique_words == 0 then some [] else do
        words ← write_word_index c.words header.0
        stops ← write_stop_word_index c.stop_words words.0
        dirs ← write_dir_index c.dir_set stops.0
        infos ← write_infos c.infos dirs.0
        metas ← write_meta_name_index c.meta_names infos.0
        some
            (rewrite_header n header.1
              (record {
                word_offset = words.1;
                stop_word_offset = stops.1;
                dir_offset = dirs.1;
                file_offset = infos.1;
                meta_name_offset = metas.1;
              })
              metas.0).written

  -- The file of a round; with no words it holds a count of 0.
  unfoldable pub write_partial_index : List (List ℕ × List File) → Option (List ℕ)
  write_partial_index words =
      let header =
        write_part (length words) (M.new_array (length words)) (record { written = []; pos = 0 }) in
      write_word_index words header.0 >>= λ r. some (rewrite_part header.1 r.1 r.0).written
