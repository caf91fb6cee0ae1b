-- ===== src/Stem.antt =====
-- src/stem_word.cpp: the stemmer. A word is the list of its characters in front of the terminating
-- null. The word being stemmed is a C string in a buffer with the file's `word_end` beside it; a read
-- in front of the buffer, which the code does not make, would give 0.
pub mod Tables
pub mod Size
pub mod Replace
pub mod Word
pub mod Final
pub mod FinalE
use swishxx.Common.{
  ℕ, zero, suc, ◌+◌, ◌-◌, Bool, true, false, not, ◌&&◌, ◌||◌, List, [], ◌∷◌, ◌++◌, Option, none,
  some, ltb, leb, ◌==◌, if◌then◌else◌, within, length, get_or, take, drop,
}

-- src/word_util.h
unfoldable pub is_vowel : ℕ → Bool
is_vowel c = c == b'a' || c == b'e' || c == b'i' || c == b'o' || c == b'u'

-- `rule_list::condition`, a function pointer or null.
pub data Condition : Type 0 where
  null has_vowel add_e remove_e : Condition

-- One row of a table. `min_stem_size` of the source is -1 at least: here it stands with one added.
pub record Rule : Type 0 where
  pub id : ℕ
  pub old_suffix : List ℕ
  pub new_suffix : List ℕ
  pub old_suffix_len : ℕ
  pub new_suffix_len : ℕ
  pub min_stem_size_suc : ℕ
  pub condition : Condition

-- The buffer up to its first null, and `word_end - word`.
pub record Buffer : Type 0 where
  pub word : List ℕ
  pub word_end : ℕ

-- `word_size`; the state is the kind of the character before, `initial` in front of the word.
pub data SizeState : Type 0 where
  initial vowel consonant : SizeState

unfoldable pub next_state : SizeState → ℕ → SizeState
unfolding is_vowel
next_state initial c = if is_vowel c then vowel else consonant
next_state vowel c = if is_vowel c then vowel else consonant
next_state consonant c = if is_vowel c || c == b'y' then vowel else consonant

-- What the round adds to `size`: one at a consonant behind a vowel.
unfoldable pub size_step : SizeState → SizeState → ℕ
size_step vowel consonant = 1
size_step _ _ = 0

unfoldable pub size_loop : SizeState → ℕ → List ℕ → ℕ
unfolding next_state size_step
size_loop st size [] = size
size_loop st size (c ∷ cs) = size_loop (next_state st c) (size + size_step st (next_state st c)) cs

unfoldable pub word_size : List ℕ → ℕ
unfolding size_loop
word_size w = size_loop initial 0 w

-- `strpbrk( word, "aeiouy" )` as a test.
unfoldable pub any_vowel_or_y : List ℕ → Bool
unfolding is_vowel
any_vowel_or_y [] = false
any_vowel_or_y (c ∷ cs) = is_vowel c || c == b'y' || any_vowel_or_y cs

unfoldable pub word_has_vowel : List ℕ → Bool
unfolding any_vowel_or_y
word_has_vowel [] = false
word_has_vowel (c ∷ cs) = is_vowel c || any_vowel_or_y cs

-- `ends_with_cvc`: it reads the three bytes in front of `word_end`, whatever null stands among them.
unfoldable pub ends_with_cvc : List ℕ → ℕ → Bool
unfolding is_vowel
ends_with_cvc bytes word_end =
    if ltb word_end 3
    then false
    else (let c1 = get_or bytes (word_end - 1) 0 in
        let c2 = get_or bytes (word_end - 2) 0 in
        let c3 = get_or bytes (word_end - 3) 0 in
        not (is_vowel c1 || c1 == b'w' || c1 == b'x' || c1 == b'y')
        && (is_vowel c2 || c2 == b'y')
        && not (is_vowel c3))

-- `*suffix = '\0'`: the bytes in front of `word_end` once the suffix is chopped off.
abbrev pub nul_first : List ℕ → List ℕ
nul_first [] = []
nul_first (c ∷ cs) = 0 ∷ cs

abbrev pub chopped : Buffer → ℕ → List ℕ
chopped b at = take at b.word ++ nul_first (drop at b.word)

-- The condition, called on the chopped word while `word_end` is still the end of the whole word.
unfoldable pub holds : Condition → Buffer → ℕ → Bool
unfolding word_has_vowel word_size ends_with_cvc
holds null b at = true
holds has_vowel b at = word_has_vowel (take at b.word)
holds add_e b at = word_size (take at b.word) == 1 && ends_with_cvc (chopped b at) b.word_end
holds remove_e b at =
    word_size (take at b.word) == 1 && not (ends_with_cvc (chopped b at) b.word_end)

-- `strcmp` as a test for equality.
unfoldable pub list_eq : List ℕ → List ℕ → Bool
list_eq [] [] = true
list_eq (x ∷ xs) (y ∷ ys) = x == y && list_eq xs ys
list_eq _ _ = false

-- The body of the loop of `replace_suffix`: the word with its suffix replaced, or `none` for `continue`
-- and for a suffix put back.
unfoldable pub try_rule : Buffer → Rule → Option Buffer
unfolding holds word_size list_eq
try_rule b r =
    let at = b.word_end - r.old_suffix_len in
    if ltb b.word_end r.old_suffix_len
    then none
    else if not (list_eq (drop at b.word) r.old_suffix)
    then none
    else if leb r.min_stem_size_suc (word_size (take at b.word)) && holds r.condition b at
    then some (record { word = take at b.word ++ r.new_suffix; word_end = at + r.new_suffix_len })
    else none

-- `replace_suffix`: the ID of the rule that was applied, 0 for none, and the word.
unfoldable pub replace_suffix : Buffer → List Rule → ℕ × Buffer
replace_suffix b [] = (0, b)
replace_suffix b (r ∷ rs) =
    let rest = replace_suffix b rs in elim (try_rule b r) [ some b' ↦ (r.id, b') | none ↦ rest ]
