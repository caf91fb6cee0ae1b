-- ===== src/IndexFile/Lookup.antt =====
-- What a query finds among the words of an index that ascend.
use swishxx.Common.{
  ℕ, ◌≡◌, refl, ◌∙◌, Bool, false, not, ◌&&◌, List, [], ◌∷◌, map, some, if◌then◌else◌, Option-cases,
  Bool-cases, inl, inr, take,
}
use swishxx.Posting.{File, ◌>>=◌}
use swishxx.Posting.Reader.{skip_word, files}
use swishxx.Stem.{list_eq}
use swishxx.Merge.Strings.{str_less, str_less_irrefl, str_less_total, list_eq_iff}
use swishxx.IndexFile.{Memory, isi_word, read_segment}
use swishxx.IndexFile.Write.{Contents}
use swishxx.IndexFile.Read.{read_text, read_word}
use swishxx.IndexFile.Loops.{read_segment-opened}
use swishxx.IndexFile.Search.{BinarySearch, less_n, find_words}
use swishxx.IndexFile.Sorted.{IsAscending}
use swishxx.IndexFile.Range.{IsWeakOrder, IsInOrder, like}
use swishxx.IndexFile.Found.{find_range-like}
use swishxx.IndexFile.Orders.{
  str_less-IsWeakOrder, less_n-IsWeakOrder, str_less-IsInOrder, less_n-IsInOrder,
}

-- The entries whose string, or what `part` takes of it, is that of a word.
unfoldable pub entries_of :
    {V : Type 0} → (List ℕ → List ℕ) → List ℕ → List (List ℕ × V) → List (List ℕ × V)
entries_of part w [] = []
entries_of part w (e ∷ es) =
    let rest = entries_of part w es in if list_eq (part w) (part e.0) then e ∷ rest else rest

-- Neither below nor above is equal.
neither_same : (a b : List ℕ) → (not (str_less b a) && not (str_less a b)) ≡ list_eq a b
neither_same a b = elim (Bool-cases (list_eq a b)) [
  | inl y ↦
      let same = (list_eq_iff a b).0 y in
      let not_ab : str_less a b ≡ false = rw same (str_less_irrefl b) in
      let not_ba : str_less b a ≡ false = rw same (str_less_irrefl b) in rw (not_ab, not_ba, y) refl
  | inr n ↦ elim (Bool-cases (str_less b a)) [
    | inl l ↦ rw (l, n) refl
    | inr not_ba ↦ elim (Bool-cases (str_less a b)) [
      | inl l ↦ rw (l, not_ba, n) refl
      | inr not_ab ↦ cc ((list_eq_iff a b).1 (str_less_total a b not_ab not_ba))
    ]
  ]
]

pub like-entries_of :
    {V : Type 0} (less : List ℕ → List ℕ → Bool) (part : List ℕ → List ℕ) (w : List ℕ)
    → ((a b : List ℕ) → less a b ≡ str_less (part a) (part b))
    → (es : List (List ℕ × V)) → like less w es ≡ entries_of part w es
unfolding like entries_of
like-entries_of less part w by_part [] = refl
like-entries_of less part w by_part (e ∷ es) =
    rw
      (
        by_part e.0 w,
        by_part w e.0,
        neither_same (part w) (part e.0),
        like-entries_of less part w by_part es,
      )
      refl

-- What is read of an entry by itself.
read_word-parts :
    (p : List ℕ) (e : List ℕ × List File)
    → read_word p ≡ some e
    → (read_text p ≡ some e.0) × ((skip_word p >>= files) ≡ some e.1)
unfolding read_word
read_word-parts p e h = elim (Option-cases (read_text p)) [
  | inl out ↦ cc (rw out at h)
  | inr (word, a) ↦ elim (Option-cases (skip_word p)) [
    | inl out ↦ cc (rw (a, out) at h)
    | inr (list, b) ↦ elim (Option-cases (files list)) [
      | inl out ↦ cc (rw (a, b, out) at h)
      | inr (fs, c) ↦
          let same : e ≡ (word, fs) = cc (rw (a, b, c) at h) in rw (same, a, b, c) (refl, refl)
    ]
  ]
]

-- The look-up in a segment that a loop reads.
find_words-like :
    (M : Memory) (B : BinarySearch) (less : List ℕ → List ℕ → Bool)
    → IsWeakOrder less
    → (file : List ℕ) (words : List (List ℕ × List File))
    → read_segment M read_word file isi_word ≡ some words
    → IsInOrder less words
    → (w : List ℕ) → find_words M B less file w ≡ some (map (λ e. e.1) (like less w words))
unfolding find_words
find_words-like M B less order file words h sorted w =
    let (s, found, loop) = read_segment-opened M read_word file isi_word words h in
    rw found (
      find_range-like M B less order read_word (λ p e h. (read_word-parts p e h).0) s words loop
        sorted w (λ p. skip_word p >>= files) (λ e. e.1) (λ p e h. (read_word-parts p e h).1))

less_n-take : (n : ℕ) (a b : List ℕ) → less_n n a b ≡ str_less (take n a) (take n b)
unfolding less_n
less_n-take n a b = refl

-- The look-ups of a query, exact and by the first characters.
pub find_words-written :
    (M : Memory) (B : BinarySearch) (c : Contents) (bs : List ℕ)
    → read_segment M read_word bs isi_word ≡ some c.words
    → IsAscending (λ e. e.0) c.words
    → (w : List ℕ) (n : ℕ)
    → (find_words M B str_less bs w ≡ some (map (λ e. e.1) (entries_of (λ v. v) w c.words)))
      × (find_words M B (less_n n) bs w ≡ some (map (λ e. e.1) (entries_of (take n) w c.words)))
find_words-written M B c bs words ascend w n = (
  find_words-like M B str_less str_less-IsWeakOrder bs c.words words
        (str_less-IsInOrder c.words ascend) w
      ∙ rw (like-entries_of str_less (λ v. v) w (λ a b. refl) c.words) refl,
  find_words-like M B (less_n n) (less_n-IsWeakOrder n) bs c.words words
        (less_n-IsInOrder n c.words ascend) w
      ∙ rw (like-entries_of (less_n n) (take n) w (less_n-take n) c.words) refl,
)
