-- ===== src/Indexer/Counts.antt =====
-- The counts that `indexer::index_word` of src/indexer.cpp keeps.
use swishxx.Common.{
  ℕ, ◌+◌, ◌%◌, ◌^◌, ◌≡◌, refl, arith, Bool, true, false, List, [], ◌∷◌, ltb, ◌==◌, if◌then◌else◌,
  Bool-cases, inl, inr, length, map,
}
use swishxx.Common.Ctype.{tolower}
use swishxx.Stem.{list_eq}
use swishxx.Word.{is_ok_word}
use swishxx.Posting.{File, new_file}
use swishxx.Indexer.{
  Options, State, WordInfo, WordMap, new_word, add_to_file, touch, touch_word, update, add_word,
  check_word, index_counted, index_word, strip_end, strip_begin, word_hard_min_size,
}

abbrev pub file_sum : List File → ℕ
file_sum [] = 0
file_sum (f ∷ fs) = f.occurrences + file_sum fs

abbrev pub word_sum : WordMap → ℕ
word_sum [] = 0
word_sum (p ∷ ps) = p.1.occurrences + word_sum ps

-- A word occurs as often as it does in all its files together.
abbrev pub IsCounted : WordInfo → Type 0
IsCounted wi = wi.occurrences ≡ file_sum wi.files % 2 ^ 32

abbrev pub AreCounted : WordMap → Type 0
AreCounted [] = Unit
AreCounted (p ∷ ps) = IsCounted p.1 × AreCounted ps

-- Each word is counted right, and the words indexed are all their occurrences; ints wrap.
abbrev pub IsTally : State → Type 0
IsTally s = AreCounted s.words × (s.num_indexed_words % 2 ^ 32 ≡ word_sum s.words % 2 ^ 32)

abbrev KeepsOccurrences : (File → File) → Type 0
KeepsOccurrences f = (g : File) → (f g).occurrences ≡ g.occurrences

add_to_file-keeps : (o : Options) (m p : ℕ) → KeepsOccurrences (add_to_file o m p)
unfolding add_to_file
add_to_file-keeps o m p g = refl

touch-sum :
    (f : File → File) (c : ℕ) (fs : List File)
    → KeepsOccurrences f
    → file_sum (touch f c fs) % 2 ^ 32 ≡ (file_sum fs + 1) % 2 ^ 32
unfolding touch
touch-sum f c [] k = rw (k (new_file c)) refl
touch-sum f c (g ∷ []) k = elim (Bool-cases (g.index == c)) [
  | inl y ↦ rw (y, k (record g { occurrences = (g.occurrences + 1) % 2 ^ 32 })) (omega arith)
  | inr n ↦ rw (n, k (new_file c)) (omega arith)
]
touch-sum f c (g ∷ h ∷ fs) k = let ih = touch-sum f c (h ∷ fs) k in omega arith

touch_word-IsCounted :
    (f : File → File) (c : ℕ) (wi : WordInfo)
    → KeepsOccurrences f
    → IsCounted wi
    → IsCounted (touch_word f c wi)
unfolding touch_word
touch_word-IsCounted f c wi k h = omega (arith, touch-sum f c wi.files k)

update-AreCounted :
    (f : WordInfo → WordInfo) (w : List ℕ) (ps : WordMap)
    → ((wi : WordInfo) → IsCounted wi → IsCounted (f wi))
    → AreCounted ps
    → AreCounted (update f w ps)
unfolding update
update-AreCounted f w [] k h = (k new_word refl, tt)
update-AreCounted f w (p ∷ ps) k h = elim (Bool-cases (list_eq w p.0)) [
  | inl y ↦ rw y (k p.1 h.0, h.1)
  | inr n ↦ rw n (h.0, update-AreCounted f w ps k h.1)
]

update-sum :
    (f : WordInfo → WordInfo) (w : List ℕ) (ps : WordMap)
    → ((wi : WordInfo) → (f wi).occurrences ≡ (wi.occurrences + 1) % 2 ^ 32)
    → word_sum (update f w ps) % 2 ^ 32 ≡ (word_sum ps + 1) % 2 ^ 32
unfolding update
update-sum f w [] k = rw (k new_word) refl
update-sum f w (p ∷ ps) k = elim (Bool-cases (list_eq w p.0)) [
  | inl y ↦ rw (y, k p.1) (omega arith)
  | inr n ↦ rw n (let ih = update-sum f w ps k in omega arith)
]

touch_word-occurrences :
    (f : File → File) (c : ℕ) (wi : WordInfo)
    → (touch_word f c wi).occurrences ≡ (wi.occurrences + 1) % 2 ^ 32
unfolding touch_word
touch_word-occurrences f c wi = refl

add_word-IsTally :
    (o : Options) (w : List ℕ) (m : ℕ) (s : State) → IsTally s → IsTally (add_word o w m s)
unfolding add_word
add_word-IsTally o w m s (h, e) =
    let f = add_to_file o m s.word_pos in
    (
      update-AreCounted (touch_word f s.current) w s.words
          (λ wi. touch_word-IsCounted f s.current wi (add_to_file-keeps o m s.word_pos)) h,
      omega (
        arith,
        update-sum (touch_word f s.current) w s.words (touch_word-occurrences f s.current),
      ),
    )

if_IsTally : (b : Bool) (s t : State) → IsTally s → IsTally t → IsTally (if b then s else t)
if_IsTally true s t hs ht = hs
if_IsTally false s t hs ht = ht

check_word-IsTally :
    (o : Options) (w : List ℕ) (m : ℕ) (s : State) → IsTally s → IsTally (check_word o w m s)
unfolding check_word
check_word-IsTally o w m s h =
    let low = map tolower w in
    if_IsTally (ltb (length w) word_hard_min_size) s
      (if is_ok_word w then if o.is_stop_word low then s else add_word o low m s else s) h
      (if_IsTally (is_ok_word w) (if o.is_stop_word low then s else add_word o low m s) s
        (if_IsTally (o.is_stop_word low) s (add_word o low m s) h (add_word-IsTally o low m s h)) h)

index_counted-IsTally :
    (o : Options) (w : List ℕ) (m : ℕ) (s : State) → IsTally s → IsTally (index_counted o w m s)
unfolding index_counted
index_counted-IsTally o w m s h =
    let last = check_word o (strip_begin (strip_end w)) m s in
    let stripped = if ltb (length (strip_end w)) word_hard_min_size then s else last in
    let active = if ltb 0 s.suspend_indexing_count then s else stripped in
    if_IsTally (ltb (length w) word_hard_min_size) s active h (
      if_IsTally (ltb 0 s.suspend_indexing_count) s stripped h (
        if_IsTally (ltb (length (strip_end w)) word_hard_min_size) s last h
          (check_word-IsTally o (strip_begin (strip_end w)) m s h)))

-- Indexing a word keeps the counts right: each word's is the sum over its files, and the number of
-- indexed words is the sum over all words, modulo 2 ^ 32.
pub index_word-IsTally :
    (o : Options) (w : List ℕ) (m : ℕ) (s : State) → IsTally s → IsTally (index_word o w m s)
unfolding index_word
index_word-IsTally o w m s h =
    index_counted-IsTally o w m
      (record s {
        num_total_words = (s.num_total_words + 1) % 2 ^ 64;
        word_pos = (s.word_pos + 1) % 2 ^ 32;
      })
      h
