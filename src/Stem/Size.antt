-- ===== src/Stem/Size.antt =====
-- `word_size` counts the pairs of a vowel and a consonant behind it, over the word read as vowels and
-- consonants.
use swishxx.Common.{ℕ, ◌+◌, ◌≡◌, refl, arith, List, [], ◌∷◌, ◌||◌, ◌==◌, if◌then◌else◌}
use swishxx.Stem.{SizeState, vowel, consonant, is_vowel, size_loop, word_size}

-- A letter is a vowel if it is one of aeiou, or a y behind a consonant.
pub data Kind : Type 0 where
  v c : Kind

unfoldable pub kind_of : Kind → ℕ → Kind
unfolding is_vowel
kind_of v x = if is_vowel x then v else c
kind_of c x = if is_vowel x || x == b'y' then v else c

unfoldable pub kinds : Kind → List ℕ → List Kind
unfolding kind_of
kinds before [] = []
kinds before (x ∷ xs) = kind_of before x ∷ kinds (kind_of before x) xs

-- A y at the beginning of a word is a consonant, as behind a vowel.
abbrev pub kinds_of : List ℕ → List Kind
kinds_of w = kinds v w

-- The number of places where a consonant stands right behind a vowel.
abbrev pub pairs : List Kind → ℕ
pairs (v ∷ (c ∷ ks)) = 1 + pairs (c ∷ ks)
pairs (v ∷ (v ∷ ks)) = pairs (v ∷ ks)
pairs (v ∷ []) = 0
pairs (c ∷ ks) = pairs ks
pairs [] = 0

abbrev state_of : Kind → SizeState
state_of v = vowel
state_of c = consonant

size_loop-pairs :
    (w : List ℕ) (k : Kind) (n : ℕ) → size_loop (state_of k) n w ≡ n + pairs (k ∷ kinds k w)
unfolding size_loop kinds
size_loop-pairs [] v n = omega arith
size_loop-pairs [] c n = omega arith
size_loop-pairs (x ∷ xs) v n =
    ground (arith, size_loop-pairs xs v (n + 0), size_loop-pairs xs c (n + 1))
size_loop-pairs (x ∷ xs) c n =
    ground (arith, size_loop-pairs xs v (n + 0), size_loop-pairs xs c (n + 0))

-- The size of a word is the number of places in it where a consonant follows a vowel; a y counts as a
-- vowel right behind a consonant, and else as a consonant.
pub word_size-pairs : (w : List ℕ) → word_size w ≡ pairs (kinds_of w)
unfolding word_size kinds
word_size-pairs [] = refl
word_size-pairs (x ∷ xs) = ground (arith, size_loop-pairs xs v 0, size_loop-pairs xs c 0)
