-- ===== src/Posting/Entry.antt =====
-- The whole entry of a word: every file of it, written and read back.
use swishxx.Common.{
  ℕ, zero, suc, ◌≤◌, ◌≡◌, ◌≢◌, refl, ap, arith, true, false, List, [], ◌∷◌, ◌++◌, some, length,
  length-append, append_assoc, All,
}
use swishxx.Posting.{
  stop_marker, word_entry_continues_marker, File, IsFile, write_files, write_entry, ◌>>=◌,
}
use swishxx.Posting.Reader.{
  skip_word, Cursor, end_value, at, read_file, advance, begin, collect, files,
}
use swishxx.Posting.RoundTrip.{file_bytes, write_file-bytes, read_file-bytes}

-- The files behind the first one, each with its continuation marker.
unfoldable pub later : List File → List ℕ
later [] = []
later (g ∷ gs) = word_entry_continues_marker ∷ (file_bytes g ++ later gs)

write_files-later : (fs : List File) → All IsFile fs → write_files true fs ≡ some (later fs)
unfolding write_files later
write_files-later [] h = refl
write_files-later (g ∷ gs) h = rw (write_file-bytes g h.0, write_files-later gs h.1)

-- The bytes of the list behind the word, with what follows the entry.
abbrev pub list_of : File → List File → List ℕ → List ℕ
list_of f fs tail = file_bytes f ++ (later fs ++ (stop_marker ∷ tail))

pub write_entry-list :
    (word : List ℕ) (f : File) (fs : List File)
    → All IsFile (f ∷ fs)
    → write_entry word (f ∷ fs) ≡ some (word ++ (0 ∷ list_of f fs []))
unfolding write_entry write_files
write_entry-list word f fs h =
    rw (write_file-bytes f h.0, write_files-later fs h.1)
      (ap (λ bs. some (word ++ (0 ∷ bs)))
        (append_assoc (file_bytes f) (later fs) (stop_marker ∷ [])))

pub skip_word-append :
    (word rest : List ℕ) → All (λ b. b ≢ 0) word → skip_word (word ++ (0 ∷ rest)) ≡ some rest
unfolding skip_word
skip_word-append [] rest h = refl
skip_word-append (b ∷ bs) rest h = ground (arith, skip_word-append bs rest h.1)

-- Where `c_` points once a file has been read.
abbrev next : List File → List ℕ → Cursor
next [] tail = end_value
next (g ∷ gs) tail = at (list_of g gs tail)

-- The first file of a list is read, and `c_` is left at the next one.
read_file-list :
    (f : File) (fs : List File) (tail : List ℕ)
    → IsFile f
    → read_file (list_of f fs tail) ≡ some (record { c = next fs tail; v = f })
unfolding later
read_file-list f [] tail h = read_file-bytes f true tail h
read_file-list f (g ∷ gs) tail h =
    rw (append_assoc (file_bytes g)) (read_file-bytes f false (list_of g gs tail) h)

collect-next :
    (fs : List File) (f : File) (tail : List ℕ) (fuel : ℕ)
    → All IsFile fs
    → length fs ≤ fuel
    → collect (suc (suc fuel)) (record { c = next fs tail; v = f }) ≡ some (f ∷ fs)
unfolding collect advance
collect-next [] f tail fuel h l = refl
collect-next (g ∷ gs) f tail zero h l = absurd (omega arith)
collect-next (g ∷ gs) f tail (suc fuel) h l =
    rw (read_file-list g gs tail h.0, collect-next gs g tail fuel h.1 (omega arith))

length-later : (fs : List File) → length fs ≤ length (later fs)
unfolding later
length-later [] = omega arith
length-later (g ∷ gs) = omega (arith, length-append (file_bytes g) (later gs), length-later gs)

pub files-list :
    (f : File) (fs : List File) (tail : List ℕ)
    → All IsFile (f ∷ fs)
    → files (list_of f fs tail) ≡ some (f ∷ fs)
unfolding files begin advance
files-list f fs tail h = rw (read_file-list f fs tail h.0) (
    collect-next fs f tail _ h.1 (
      omega (
        arith,
        length-later fs,
        length-append (file_bytes f) (later fs ++ (stop_marker ∷ tail)),
        length-append (later fs) (stop_marker ∷ tail),
      )))

-- For a word without a null and one file or more, with numbers and shorts that fit their types and no meta
-- ID twice, the entry is written, and what `search` reads from it, with any bytes of the index behind it, is
-- those files, in order, each with its numbers, meta IDs and position deltas.
pub files-write_entry :
    (word : List ℕ) (f : File) (fs : List File) (tail : List ℕ)
    → All (λ b. b ≢ 0) word
    → All IsFile (f ∷ fs)
    → (bs : List ℕ) × (write_entry word (f ∷ fs) ≡ some bs)
      × ((skip_word (bs ++ tail) >>= files) ≡ some (f ∷ fs))
files-write_entry word f fs tail hw h = (
  word ++ (0 ∷ list_of f fs []),
  write_entry-list word f fs h,
  rw (append_assoc word) (
      rw (append_assoc (file_bytes f)) (
        rw (append_assoc (later fs))
          (rw (skip_word-append word (list_of f fs tail) hw) (files-list f fs tail h)))),
)
