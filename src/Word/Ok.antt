-- ===== src/Word/Ok.antt =====
-- Which words `is_ok_word` accepts, told without its counters.
use swishxx.Common.{
  ℕ, ◌+◌, ◌≤◌, ◌<◌, ◌≡◌, ◌↔◌, ◌⊎◌, arith, Bool, true, ◌&&◌, List, [], ◌∷◌, ◌==◌, if◌then◌else◌,
  Bool-cases, inl, inr, length, All,
}
use swishxx.Common.Ctype.{tolower}
use swishxx.Stem.{is_vowel}
use swishxx.Word.{Survey, survey_char, survey, no_chars, first_is_upper, is_ok_word}
use swishxx.Word.Runs.{is_letter, IsVowel}
use swishxx.Word.Parts.{PartsFit}
use swishxx.Word.Through.{scan-PartsFit_iff}
use swishxx.Word.Acronym.{IsAcronym, caps_iff}

abbrev pub HasVowel : List ℕ → Type 0
HasVowel [] = ⊥
HasVowel (c ∷ cs) = IsVowel c ⊎ HasVowel cs

abbrev is_vowel_letter : ℕ → Bool
is_vowel_letter c = is_letter c && is_vowel (tolower c)

vowels-char :
    (s : Survey) (c : ℕ)
    → (survey_char s c).vowels ≡ (if is_vowel_letter c then 1 else 0) + s.vowels
unfolding survey_char
vowels-char s c = ground arith

survey-le : (s : Survey) (w : List ℕ) → s.vowels ≤ (survey s w).vowels
unfolding survey
survey-le s [] = omega arith
survey-le s (c ∷ cs) = ground (arith, vowels-char s c, survey-le (survey_char s c) cs)

HasVowel-survey : (s : Survey) (w : List ℕ) → HasVowel w → s.vowels < (survey s w).vowels
unfolding survey
HasVowel-survey s [] h = absurd h
HasVowel-survey s (c ∷ cs) (inl (l, v)) =
    ground (arith, l, v, vowels-char s c, survey-le (survey_char s c) cs)
HasVowel-survey s (c ∷ cs) (inr h) =
    ground (arith, vowels-char s c, HasVowel-survey (survey_char s c) cs h)

survey-HasVowel : (s : Survey) (w : List ℕ) → s.vowels < (survey s w).vowels → HasVowel w
unfolding survey
survey-HasVowel s [] h = absurd (omega arith)
survey-HasVowel s (c ∷ cs) h = elim (Bool-cases (is_vowel_letter c)) [
  | inl y ↦ inl (ground arith, ground arith)
  | inr n ↦ inr (
      survey-HasVowel (survey_char s c) cs (
        let e : (survey_char s c).vowels ≡ s.vowels = ground (arith, vowels-char s c) in
        omega (arith, e, h)))
]

-- Four characters at least, with a vowel among them, and no part past its limit.
abbrev pub IsPronounceable : List ℕ → Type 0
IsPronounceable w = (4 ≤ length w) × HasVowel w × PartsFit w

-- A word, which has no null in it, is OK exactly when it looks like an acronym (a capital letter first, and capital
-- letters, digits and punctuation only), or has four characters at least, a vowel among them, no part of more than five
-- vowels, seven consonants or one punctuation character, and no letter more than three times with at most
-- punctuation between.
pub is_ok_word_cases :
    (w : List ℕ) → All (λ c. 0 < c) w → (is_ok_word w ≡ true) ↔ (IsAcronym w ⊎ IsPronounceable w)
unfolding is_ok_word
is_ok_word_cases w pos = (forward, back)
  where
    s : Survey
    s = survey no_chars w

    forward : is_ok_word w ≡ true → IsAcronym w ⊎ IsPronounceable w
    forward e = elim (Bool-cases (first_is_upper w && s.uppers + s.digits + s.puncts == length w)) [
      | inl y ↦ inl (ground arith, (caps_iff w).0 (ground arith))
      | inr n ↦ inr (
        ground arith,
        survey-HasVowel no_chars w (ground arith),
        (scan-PartsFit_iff w pos).0 (ground arith),
      )
    ]

    back : IsAcronym w ⊎ IsPronounceable w → is_ok_word w ≡ true
    back (inl (u, a)) = let e = (caps_iff w).1 a in ground (arith, e)
    back (inr (l, v, fit)) =
        let vowel = HasVowel-survey no_chars w v in
        let through = (scan-PartsFit_iff w pos).1 fit in ground (arith, vowel, through)
