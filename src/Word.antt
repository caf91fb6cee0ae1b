-- ===== src/Word.antt =====
-- src/word_util.h and src/word_util.cpp: which characters make a word, and which words are worth
-- indexing. A word is the list of its characters in front of the null; the limits are those of
-- src/swishxx-config.h, with its OPTIMIZE_WORD_CHARS.
pub mod Acronym
pub mod Runs
pub mod Parts
pub mod Tails
pub mod Through
pub mod Ok
pub mod Match
use swishxx.Common.{
  ℕ, zero, suc, ◌+◌, Bool, true, false, ◌&&◌, ◌||◌, List, [], ◌∷◌, Option, none, some, ltb, ◌==◌,
  if◌then◌else◌, length,
}
use swishxx.Common.Ctype.{is_digit, is_upper, is_alnum, is_punct, tolower}
use swishxx.Stem.{is_vowel}

abbrev pub word_min_size : ℕ
word_min_size = 4

abbrev pub word_min_vowels : ℕ
word_min_vowels = 1

abbrev pub word_max_consec_consonants : ℕ
word_max_consec_consonants = 7

abbrev pub word_max_consec_vowels : ℕ
word_max_consec_vowels = 5

abbrev pub word_max_consec_same : ℕ
word_max_consec_same = 2

abbrev pub word_max_consec_puncts : ℕ
word_max_consec_puncts = 1

-- `c > 0` holds of the bytes 1 to 127: `char` is signed.
unfoldable pub is_word_char : ℕ → Bool
unfolding is_alnum
is_word_char c =
    ltb 0 c && ltb c 128 && (is_alnum c || c == b'&' || c == 39 || c == b'-' || c == b'_')

unfoldable pub is_word_begin_char : ℕ → Bool
unfolding is_alnum
is_word_begin_char c = is_alnum c

unfoldable pub is_word_end_char : ℕ → Bool
unfolding is_alnum
is_word_end_char c = is_alnum c

-- The counts of the first loop of `is_ok_word`.
pub record Survey : Type 0 where
  pub digits : ℕ
  pub puncts : ℕ
  pub uppers : ℕ
  pub vowels : ℕ

unfoldable pub survey_char : Survey → ℕ → Survey
survey_char s c =
    if is_digit c
    then record s { digits = s.digits + 1 }
    else if is_punct c
    then record s { puncts = s.puncts + 1 }
    else record s {
      uppers = if is_upper c then s.uppers + 1 else s.uppers;
      vowels = if is_vowel (tolower c) then s.vowels + 1 else s.vowels;
    }

unfoldable pub survey : Survey → List ℕ → Survey
survey s [] = s
survey s (c ∷ cs) = survey (survey_char s c) cs

abbrev pub no_chars : Survey
no_chars = record { digits = 0; puncts = 0; uppers = 0; vowels = 0 }

-- The variables of the second loop.
pub record Scan : Type 0 where
  pub consec_consonants : ℕ
  pub consec_vowels : ℕ
  pub consec_same : ℕ
  pub consec_puncts : ℕ
  pub last_c : ℕ

abbrev pub scan_start : Scan
scan_start = record {
  consec_consonants = 0;
  consec_vowels = 0;
  consec_same = 0;
  consec_puncts = 0;
  last_c = 0;
}

-- The `if ( *c == last_c )` of the loop; `none` for `return false`.
unfoldable pub same_step : Scan → ℕ → Option Scan
same_step s c =
    if c == s.last_c
    then (if ltb word_max_consec_same (s.consec_same + 1)
        then none
        else some (record s { consec_same = s.consec_same + 1 }))
    else some (record s { consec_same = 0; last_c = c })

-- What the loop does with a letter, behind that test.
unfoldable pub letter_step : Scan → ℕ → Option Scan
letter_step s c =
    if is_vowel (tolower c)
    then (if ltb word_max_consec_vowels (s.consec_vowels + 1)
        then none
        else some (record s {
          consec_vowels = s.consec_vowels + 1;
          consec_consonants = 0;
          consec_puncts = 0;
        }))
    else if ltb word_max_consec_consonants (s.consec_consonants + 1)
    then none
    else some (record s {
      consec_consonants = s.consec_consonants + 1;
      consec_vowels = 0;
      consec_puncts = 0;
    })

unfoldable pub scan_char : Scan → ℕ → Option Scan
unfolding same_step letter_step
scan_char s c =
    if is_digit c
    then some (record s { consec_consonants = 0; consec_vowels = 0; consec_puncts = 0; last_c = 0 })
    else if is_punct c
    then (if ltb word_max_consec_puncts (s.consec_puncts + 1)
        then none
        else some (record s {
          consec_puncts = s.consec_puncts + 1;
          consec_consonants = 0;
          consec_vowels = 0;
        }))
    else elim (same_step s c) [ none ↦ none | some s' ↦ letter_step s' c ]

unfoldable pub scan : Scan → List ℕ → Bool
scan s [] = true
scan s (c ∷ cs) = elim (scan_char s c) [ none ↦ false | some s' ↦ scan s' cs ]

abbrev pub first_is_upper : List ℕ → Bool
first_is_upper [] = is_upper 0
first_is_upper (c ∷ cs) = is_upper c

unfoldable pub is_ok_word : List ℕ → Bool
unfolding is_digit is_punct is_upper is_vowel tolower survey_char survey scan_char scan
is_ok_word word =
    let s = survey no_chars word in
    if first_is_upper word && s.uppers + s.digits + s.puncts == length word
    then true
    else if ltb (length word) word_min_size
    then false
    else if ltb s.vowels word_min_vowels
    then false
    else scan scan_start word
