-- ===== src/IndexFile.antt =====
-- src/index_segment.h and src/index_segment.cpp: the five segments of an index file, each a count and that many
-- offsets of its entries in the file. The children model how src/index.cpp and src/index_header.cpp write the file,
-- and how `load_old_index` reads it again. A pointer into the mapped file is the list of bytes from there on, and a
-- read behind the last byte gives `none`. A `long`, `size_t` or `off_t` takes 8 bytes.
pub mod Layout
pub mod Entries
pub mod Write
pub mod Stream
pub mod Header
pub mod Read
pub mod Codecs
pub mod Dirs
pub mod Bodies
pub mod Whole
pub mod RoundTrip
pub mod Load
pub mod Numbers
pub mod Sorted
pub mod Loops
pub mod Partial
pub mod Search
pub mod Range
pub mod Found
pub mod Orders
pub mod Lookup
pub mod Names
pub mod Mapped
pub mod Reload
use swishxx.Common.{
  ℕ, zero, suc, ◌+◌, ◌*◌, ◌%◌, ◌^◌, ◌<◌, ◌≡◌, List, [], ◌∷◌, ◌++◌, Option, none, some, ltb,
  if◌then◌else◌, length, drop,
}
use swishxx.Posting.{◌>>=◌}

-- The machine: the bytes in memory of a number below 2 ^ 64, the number at a pointer, and what `new off_t[ n ]`
-- holds before anything is stored in it.
pub record Memory : Type 0 where
  pub bytes_of : ℕ → List ℕ
  pub value_at : List ℕ → Option ℕ
  pub new_array : ℕ → List ℕ
  pub bytes_are_eight : (v : ℕ) → length (bytes_of v) ≡ 8
  pub bytes_read_back :
      (v : ℕ) (rest : List ℕ) → v < 2 ^ 64 → value_at (bytes_of v ++ rest) ≡ some v
  pub array_is_new : (n : ℕ) → length (new_array n) ≡ n

-- `begin_` and `offset_` as the whole file and a place in it.
pub record IndexSegment : Type 0 where
  pub begin : List ℕ
  pub num_entries : ℕ
  pub offset : ℕ

-- `segment_id`
abbrev pub isi_word : ℕ
isi_word = 0

abbrev pub isi_stop_word : ℕ
isi_stop_word = 1

abbrev pub isi_dir : ℕ
isi_dir = 2

abbrev pub isi_file : ℕ
isi_file = 3

abbrev pub isi_meta_name : ℕ
isi_meta_name = 4

module _ (M : Memory) where
  -- The loop of `set_index_file`: `c` is the place of the segment, `n` its number of entries.
  unfoldable pub skip_segments : List ℕ → ℕ → ℕ → ℕ → Option IndexSegment
  skip_segments file zero c n = some (record { begin = file; num_entries = n; offset = c + 8 })
  skip_segments file (suc i) c n =
      let c' = c + (8 + n * 8) % 2 ^ 64 in
      M.value_at (drop c' file) >>= λ n'. skip_segments file i c' n'

  unfoldable pub set_index_file : List ℕ → ℕ → Option IndexSegment
  unfolding skip_segments
  set_index_file file id = M.value_at file >>= λ n. skip_segments file id 0 n

  -- `operator[]`; an offset with its sign bit set points in front of the file.
  unfoldable pub entry_at : IndexSegment → ℕ → Option (List ℕ)
  entry_at s i = do
    o ← M.value_at (drop (s.offset + i * 8) s.begin)
    if ltb o (2 ^ 63) then some (drop o s.begin) else none

  module _ {E : Type 0} (read : List ℕ → Option E) where
    -- A loop from one `const_iterator`, at entry `i`, to `end()`, over the entries that are left; what is read at
    -- each.
    unfoldable pub read_from : IndexSegment → ℕ → ℕ → Option (List E)
    unfolding entry_at
    read_from s i zero = some []
    read_from s i (suc left) = do
      p ← entry_at s i
      e ← read p
      rest ← read_from s (suc i) left
      some (e ∷ rest)

    -- The loop from `begin()`.
    unfoldable pub read_segment : List ℕ → ℕ → Option (List E)
    unfolding set_index_file read_from
    read_segment file id = set_index_file file id >>= λ s. read_from s 0 s.num_entries
