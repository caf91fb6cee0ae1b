-- ===== src/Indexer.antt =====
-- src/indexer.h and src/indexer.cpp: the text indexer. It cuts the characters of a file into words, and puts
-- every word worth it into the map of words. The map of `words` is a list with each word once, and the
-- file being indexed is `current`; the characters are those that an `encoded_char_range` decodes. Stop words and
-- the option to store positions are fields of `Options`.
pub mod Counts
pub mod Cut
pub mod Title
pub mod Meta
use swishxx.Common.{
  ℕ, zero, suc, ◌+◌, ◌%◌, ◌^◌, Bool, true, false, List, [], ◌∷◌, ◌++◌, Option, none, some, ltb,
  ◌==◌, if◌then◌else◌, length, map,
}
use swishxx.Common.Ctype.{tolower}
use swishxx.Stem.{list_eq}
use swishxx.Word.{is_word_char, is_word_begin_char, is_word_end_char, is_ok_word}
use swishxx.Token.Latin1.{iso8859_1_to_ascii}
use swishxx.Posting.{File, new_file, add_word_pos, meta_id_none}
use swishxx.Posting.Reader.{insert}

abbrev pub word_hard_min_size : ℕ
word_hard_min_size = 3

abbrev pub word_hard_max_size : ℕ
word_hard_max_size = 25

-- `word_info`
pub record WordInfo : Type 0 where
  pub files : List File
  pub occurrences : ℕ

abbrev pub WordMap : Type 0
WordMap = List (List ℕ × WordInfo)

pub record Options : Type 0 where
  pub is_stop_word : List ℕ → Bool
  pub store_word_positions : Bool

-- The globals that `index_word` writes; `num_words` is the current file's, of its `file_info`.
pub record State : Type 0 where
  pub num_total_words : ℕ
  pub num_indexed_words : ℕ
  pub word_pos : ℕ
  pub suspend_indexing_count : ℕ
  pub current : ℕ
  pub num_words : ℕ
  pub words : WordMap

-- `suspend_indexing` and `resume_indexing`
unfoldable pub suspend_indexing : State → State
suspend_indexing s = record s { suspend_indexing_count = suc s.suspend_indexing_count }

abbrev pub pred : ℕ → ℕ
pred zero = 0
pred (suc n) = n

unfoldable pub resume_indexing : State → State
resume_indexing s = record s { suspend_indexing_count = pred s.suspend_indexing_count }

-- The loop that strips what may not end a word, from its last character.
unfoldable pub strip_end : List ℕ → List ℕ
strip_end [] = []
strip_end (c ∷ cs) = elim (strip_end cs) [
  | [] ↦ if is_word_end_char c then c ∷ [] else []
  | d ∷ ds ↦ c ∷ d ∷ ds
]

-- The loop that strips what may not begin one.
unfoldable pub strip_begin : List ℕ → List ℕ
strip_begin [] = []
strip_begin (c ∷ cs) = let rest = strip_begin cs in if is_word_begin_char c then c ∷ cs else rest

-- What is added to the last file, from `skip_push_back` on.
unfoldable pub add_to_file : Options → ℕ → ℕ → File → File
add_to_file o meta_id pos f = record f {
  meta_ids = if meta_id == meta_id_none then f.meta_ids else insert f.meta_ids meta_id;
  pos_deltas = if o.store_word_positions then add_word_pos f.pos_deltas pos else f.pos_deltas;
}

-- The last file if it is the current one, or else a new file behind it.
unfoldable pub touch : (File → File) → ℕ → List File → List File
touch f current [] = f (new_file current) ∷ []
touch f current (g ∷ []) =
    if g.index == current
    then f (record g { occurrences = (g.occurrences + 1) % 2 ^ 32 }) ∷ []
    else g ∷ f (new_file current) ∷ []
touch f current (g ∷ h ∷ fs) = g ∷ touch f current (h ∷ fs)

unfoldable pub touch_word : (File → File) → ℕ → WordInfo → WordInfo
unfolding touch
touch_word f current wi = record {
  files = touch f current wi.files;
  occurrences = (wi.occurrences + 1) % 2 ^ 32;
}

abbrev pub new_word : WordInfo
new_word = record { files = []; occurrences = 0 }

-- `words[ lower_word ]`, changed in place.
unfoldable pub update : (WordInfo → WordInfo) → List ℕ → WordMap → WordMap
unfolding list_eq
update f w [] = (w, f new_word) ∷ []
update f w (p ∷ ps) =
    let rest = update f w ps in if list_eq w p.0 then (p.0, f p.1) ∷ ps else p ∷ rest

-- "Add the word"
unfoldable pub add_word : Options → List ℕ → ℕ → State → State
unfolding update touch_word add_to_file
add_word o w meta_id s = record s {
  num_words = (s.num_words + 1) % 2 ^ 32;
  num_indexed_words = (s.num_indexed_words + 1) % 2 ^ 64;
  words = update (touch_word (add_to_file o meta_id s.word_pos) s.current) w s.words;
}

-- The stop-word checks, on a word without the characters that are stripped.
unfoldable pub check_word : Options → List ℕ → ℕ → State → State
unfolding add_word is_ok_word
check_word o w meta_id s =
    if ltb (length w) word_hard_min_size
    then s
    else if is_ok_word w
    then if o.is_stop_word (map tolower w) then s else add_word o (map tolower w) meta_id s
    else s

unfoldable pub index_counted : Options → List ℕ → ℕ → State → State
unfolding check_word strip_end strip_begin
index_counted o w meta_id s =
    if ltb (length w) word_hard_min_size
    then s
    else if ltb 0 s.suspend_indexing_count
    then s
    else if ltb (length (strip_end w)) word_hard_min_size
    then s
    else check_word o (strip_begin (strip_end w)) meta_id s

unfoldable pub index_word : Options → List ℕ → ℕ → State → State
unfolding index_counted
index_word o w meta_id s = index_counted o w meta_id (record s {
  num_total_words = (s.num_total_words + 1) % 2 ^ 64;
  word_pos = (s.word_pos + 1) % 2 ^ 32;
})

-- Where `index_words` is: outside a word, in one, or in the inner loop that skips a word that is too big.
pub data Place : Type 0 where
  outside : Place
  inside : List ℕ → Place
  too_big : Place

-- A character of a word.
unfoldable pub collect : Place → ℕ → Place
collect outside c = inside (c ∷ [])
collect (inside w) c = if ltb (length w) word_hard_max_size then inside (w ++ (c ∷ [])) else too_big
collect too_big c = too_big

-- `if ( in_word ) index_word( word, len, meta_id )`
abbrev pub flush : Options → ℕ → Place → State → State
flush o meta_id (inside w) s = index_word o w meta_id s
flush o meta_id _ s = s

unfoldable pub index_chars : Options → ℕ → Place → List ℕ → State → State
unfolding collect
index_chars o meta_id m [] s = flush o meta_id m s
index_chars o meta_id m (x ∷ xs) s =
    let c = iso8859_1_to_ascii x in
    elim (is_word_char c) [
      | true ↦ index_chars o meta_id (collect m c) xs s
      | false ↦ index_chars o meta_id outside xs (flush o meta_id m s)
    ]

unfoldable pub index_words : Options → List ℕ → ℕ → State → State
unfolding index_chars
index_words o xs meta_id s = index_chars o meta_id outside xs s
