-- ===== src/Query.antt =====
-- src/query.cpp: the parser of queries, by recursive descent over the token stream. Nodes are values: the
-- pool that frees them is left out. What `::equal_range` finds in the mapped index for a word, and
-- the index's stop words and meta names, are fields of `Index`.
pub mod Node
pub mod Parser
pub mod Ensures
pub mod Steps
pub mod Total
pub mod Combine
use swishxx.Common.{ℕ, ◌*◌, ◌/◌, Bool, ◌||◌, List, Option, ltb, leb}
use swishxx.Posting.{File}

pub record Index : Type 0 where
  -- The words that compare equal to a word, and those that begin with one, each with its list of files.
  pub find_word : List ℕ → List (List File)
  pub find_prefix : List ℕ → List (List File)
  pub is_stop_word : List ℕ → Bool
  pub find_meta : List ℕ → Option ℕ
  pub num_files : ℕ
  pub word_files_max : ℕ
  pub word_percent_max : ℕ

-- src/query.h
unfoldable pub is_too_frequent : Index → ℕ → Bool
is_too_frequent idx count =
    ltb idx.word_files_max count || leb idx.word_percent_max (count * 100 / idx.num_files)

-- `Meta_ID_None` and `Meta_ID_Not_Found`, the shorts -1 and -2.
abbrev pub meta_id_none : ℕ
meta_id_none = 0xffff

abbrev pub meta_id_not_found : ℕ
meta_id_not_found = 0xfffe
