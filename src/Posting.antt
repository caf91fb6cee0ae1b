-- ===== src/Posting.antt =====
-- src/word_info.h, src/word_info.cpp, src/word_markers.h and the entry of one word as
-- `write_word_index` of src/index.cpp writes it: the files that a word is in. A `short` is its 16-bit
-- pattern, a number below 2 ^ 16; an output stream is the list of bytes written. A set of
-- meta IDs is a list with no ID twice, in the set's order of iteration, which the code leaves open.
pub mod Reader
pub mod Lists
pub mod RoundTrip
pub mod Entry
pub mod Size
pub mod Positions
use swishxx.Common.{
  ℕ, suc, ◌+◌, ◌-◌, ◌%◌, ◌^◌, ◌<◌, ◌≡◌, Bool, true, false, ◌||◌, List, [], ◌∷◌, ◌++◌, Option, none,
  some, ltb, ◌==◌, if◌then◌else◌, All,
}
use swishxx.Vlq.{encode}

-- src/word_markers.h
abbrev pub stop_marker : ℕ
stop_marker = 0x80

abbrev pub meta_name_list_marker : ℕ
meta_name_list_marker = 0x01

abbrev pub word_pos_list_marker : ℕ
word_pos_list_marker = 0x02

abbrev pub word_entry_continues_marker : ℕ
word_entry_continues_marker = 0x00

abbrev pub IsShort : ℕ → Type 0
IsShort s = s < 2 ^ 16

-- A short converted to unsigned long, and to unsigned: the sign is extended.
abbrev pub to_ulong : ℕ → ℕ
to_ulong s = if ltb s (2 ^ 15) then s else s + (2 ^ 64 - 2 ^ 16)

abbrev pub to_unsigned : ℕ → ℕ
to_unsigned s = if ltb s (2 ^ 15) then s else s + (2 ^ 32 - 2 ^ 16)

-- An unsigned number converted to short.
abbrev pub to_short : ℕ → ℕ
to_short v = v % 2 ^ 16

-- `word_info::file`
pub record File : Type 0 where
  pub index : ℕ
  pub occurrences : ℕ
  pub rank : ℕ
  pub meta_ids : List ℕ
  pub pos_deltas : List ℕ

-- `file( unsigned index )`
abbrev pub new_file : ℕ → File
new_file i = record { index = i; occurrences = 1; rank = 0; meta_ids = []; pos_deltas = [] }

abbrev pub contains : List ℕ → ℕ → Bool
contains [] m = false
contains (x ∷ xs) m = x == m || contains xs m

-- `Meta_ID_None` is the short -1.
abbrev pub meta_id_none : ℕ
meta_id_none = 0xffff

unfoldable pub has_meta_id : File → ℕ → Bool
has_meta_id f m = m == meta_id_none || contains f.meta_ids m

abbrev pub back : List ℕ → ℕ
back [] = 0
back (x ∷ []) = x
back (x ∷ y ∷ ys) = back (y ∷ ys)

-- `file::add_word_pos`, on the list of deltas. The subtraction is one of unsigned ints.
unfoldable pub add_word_pos : List ℕ → ℕ → List ℕ
add_word_pos [] p = to_short p ∷ []
add_word_pos (x ∷ xs) p =
    let ds = x ∷ xs in ds ++ (to_short ((p + 2 ^ 32 - to_unsigned (back ds)) % 2 ^ 32) ∷ [])

infixl 5 ◌>>=◌
abbrev pub ◌>>=◌ {ℓ κ} : {A : Type ℓ} {B : Type κ} → Option A → (A → Option B) → Option B
none >>= f = none
some a >>= f = f a

-- The codes of a list of shorts.
unfoldable pub write_shorts : List ℕ → Option (List ℕ)
write_shorts [] = some []
write_shorts (s ∷ ss) = do bs ← encode (to_ulong s); rest ← write_shorts ss; some (bs ++ rest)

unfoldable pub write_meta_ids : File → Option (List ℕ)
write_meta_ids f = do
  bs ← write_shorts f.meta_ids
  some (meta_name_list_marker ∷ (bs ++ (stop_marker ∷ [])))

unfoldable pub write_word_pos : File → Option (List ℕ)
write_word_pos f = do
  bs ← write_shorts f.pos_deltas
  some (word_pos_list_marker ∷ (bs ++ (stop_marker ∷ [])))

abbrev pub is_empty : List ℕ → Bool
is_empty [] = true
is_empty (x ∷ xs) = false

-- The body of the loop over `info.files_`, behind the continuation marker.
unfoldable pub write_file : File → Option (List ℕ)
write_file f = do
  i ← encode f.index
  o ← encode f.occurrences
  r ← encode f.rank
  m ← if is_empty f.meta_ids then some [] else write_meta_ids f
  p ← if is_empty f.pos_deltas then some [] else write_word_pos f
  some (i ++ (o ++ (r ++ (m ++ p))))

-- The loop over `info.files_`; the flag is `continues`.
unfoldable pub write_files : Bool → List File → Option (List ℕ)
write_files continues [] = some []
write_files continues (f ∷ fs) = do
  bs ← write_file f
  rest ← write_files true fs
  some ((if continues then word_entry_continues_marker ∷ [] else []) ++ (bs ++ rest))

-- One round of the loop over `words` in `write_word_index`.
unfoldable pub write_entry : List ℕ → List File → Option (List ℕ)
write_entry word files = do
  bs ← write_files false files
  some (word ++ (0 ∷ (bs ++ (stop_marker ∷ []))))

-- No ID stands twice.
abbrev pub AreDistinct : List ℕ → Type 0
AreDistinct [] = Unit {0}
AreDistinct (x ∷ xs) = (contains xs x ≡ false) × AreDistinct xs

-- What the C++ types and the set give.
pub record IsFile (f : File) : Type 0 where
  pub index_fits : f.index < 2 ^ 32
  pub occurrences_fits : f.occurrences < 2 ^ 32
  pub rank_fits : f.rank < 2 ^ 32
  pub meta_ids_fit : All IsShort f.meta_ids
  pub meta_ids_differ : AreDistinct f.meta_ids
  pub pos_deltas_fit : All IsShort f.pos_deltas
