-- ===== src/Word/Acronym.antt =====
-- What the first loop of `is_ok_word` counts for an acronym.
use swishxx.Common.{
  ℕ, ◌+◌, ◌≤◌, ◌≡◌, ◌↔◌, arith, Bool, true, ◌||◌, List, [], ◌∷◌, if◌then◌else◌, length, All,
}
use swishxx.Common.Ctype.{is_digit, is_upper, is_punct}
use swishxx.Word.{Survey, survey_char, survey, no_chars, first_is_upper}

-- A capital letter, a digit or a punctuation symbol.
abbrev pub is_caps : ℕ → Bool
is_caps c = is_digit c || is_punct c || is_upper c

abbrev total : Survey → ℕ
total s = s.uppers + s.digits + s.puncts

total-char : (s : Survey) (c : ℕ) → total (survey_char s c) ≡ (if is_caps c then 1 else 0) + total s
unfolding survey_char
total-char s c = ground arith

-- The counts never exceed the characters, and reach their number if all of them are caps.
total-survey-le : (s : Survey) (w : List ℕ) → total (survey s w) ≤ total s + length w
unfolding survey
total-survey-le s [] = omega arith
total-survey-le s (c ∷ cs) = ground (arith, total-char s c, total-survey-le (survey_char s c) cs)

total-survey-caps :
    (s : Survey) (w : List ℕ)
    → All (λ c. is_caps c ≡ true) w
    → total (survey s w) ≡ total s + length w
unfolding survey
total-survey-caps s [] h = omega arith
total-survey-caps s (c ∷ cs) h =
    ground (arith, total-char s c, total-survey-caps (survey_char s c) cs h.1)

caps-total-survey :
    (s : Survey) (w : List ℕ)
    → total (survey s w) ≡ total s + length w
    → All (λ c. is_caps c ≡ true) w
unfolding survey
caps-total-survey s [] h = tt
caps-total-survey s (c ∷ cs) h =
    let le = total-survey-le (survey_char s c) cs in
    let this : is_caps c ≡ true = ground (arith, total-char s c, le) in
    (this, caps-total-survey (survey_char s c) cs (ground (arith, total-char s c, this)))

-- A capital letter first, and capital letters, digits and punctuation only.
abbrev pub IsAcronym : List ℕ → Type 0
IsAcronym w = (first_is_upper w ≡ true) × All (λ c. is_caps c ≡ true) w

-- The counts tell just that.
pub caps_iff :
    (w : List ℕ)
    → let s = survey no_chars w in
      (s.uppers + s.digits + s.puncts ≡ length w) ↔ All (λ c. is_caps c ≡ true) w
caps_iff w = (
  λ e. caps-total-survey no_chars w (omega arith),
  λ a. omega (arith, total-survey-caps no_chars w a),
)
