-- ===== src/FileInfo.antt =====
-- src/file_info.h and src/file_info.cpp: what is known of a file, and how `write_file_index` of src/index.cpp
-- writes it to an index, from where `search` constructs it again at an offset. A string is what stands in front of
-- its null; `unsigned` is 32 bits, `size_t` is 64.
pub mod RoundTrip
use swishxx.Common.{
  ℕ, zero, suc, ◌+◌, ◌%◌, ◌^◌, Bool, true, false, List, [], ◌∷◌, ◌++◌, Option, none, some, ◌==◌,
  if◌then◌else◌, length,
}
use swishxx.Vlq.{encode, decode}
use swishxx.Posting.{◌>>=◌}

pub record FileInfo : Type 0 where
  pub dir_index : ℕ
  pub file_name : List ℕ
  pub file_size : ℕ
  pub num_words : ℕ
  pub title : List ℕ

-- One round of the loop of `write_file_index`.
unfoldable pub write_info : FileInfo → Option (List ℕ)
write_info fi = do
  dir ← encode fi.dir_index
  size ← encode fi.file_size
  words ← encode fi.num_words
  some (dir ++ (fi.file_name ++ (0 ∷ (size ++ (words ++ (fi.title ++ (0 ∷ [])))))))

-- The loop: `pos` is what `tellp` gives, and the second list the offsets that are recorded.
unfoldable pub write_file_index : List FileInfo → ℕ → Option (List ℕ × List ℕ)
unfolding write_info
write_file_index [] pos = some ([], [])
write_file_index (fi ∷ infos) pos = do
  bs ← write_info fi
  rest ← write_file_index infos (pos + length bs)
  some (bs ++ rest.0, pos ∷ rest.1)

-- The string at `p`, and what stands behind its null.
unfoldable pub read_string : List ℕ → Option (List ℕ × List ℕ)
read_string [] = none
read_string (b ∷ bs) =
    let rest = read_string bs in
    if b == 0 then some ([], bs) else (rest >>= λ r. some (b ∷ r.0, r.1))

-- The constructor from the bytes of an index file.
unfoldable pub read_info : List ℕ → Option FileInfo
unfolding read_string
read_info bs = do
  dir ← decode bs
  name ← read_string dir.1
  size ← decode name.1
  words ← decode size.1
  title ← read_string words.1
  some (record {
    dir_index = dir.0 % 2 ^ 32;
    file_name = name.0;
    file_size = size.0;
    num_words = words.0 % 2 ^ 32;
    title = title.0;
  })
