-- ===== src/IndexFile/Read.antt =====
-- What is read at an entry of an index file: by `file_list` and `get_meta_id` of src/query.cpp, and by the loops of
-- `load_old_index`.
use swishxx.Common.{ℕ, List, Option, some}
use swishxx.Vlq.{decode}
use swishxx.Posting.{File, to_short, ◌>>=◌}
use swishxx.Posting.Reader.{skip_word, files}
use swishxx.FileInfo.{read_string}

-- The string at a pointer.
unfoldable pub read_text : List ℕ → Option (List ℕ)
read_text p = read_string p >>= λ r. some r.0

-- A word, and the files that its `file_list` gives, as `merge_indicies` reads both.
unfoldable pub read_word : List ℕ → Option (List ℕ × List File)
read_word p = do word ← read_text p; list ← skip_word p; fs ← files list; some (word, fs)

unfoldable pub get_meta_id : List ℕ → Option ℕ
get_meta_id p = do behind ← skip_word p; id ← decode behind; some (to_short id.0)

-- The body of the loop over the meta names in `load_old_index`, which stores the number as `get_meta_id` does.
unfoldable pub read_meta_name : List ℕ → Option (List ℕ × ℕ)
read_meta_name p = do name ← read_text p; id ← get_meta_id p; some (name, id)
