-- ===== src/Word/Runs.antt =====
-- The second loop of `is_ok_word` bounds every run of one kind of character in the word.
use swishxx.Common.{
  ℕ, ◌+◌, ◌≤◌, ◌≡◌, arith, Bool, true, false, ◌&&◌, not, List, [], ◌∷◌, ◌++◌, some, Option-cases,
  inl, inr, length, All,
}
use swishxx.Common.Ctype.{is_digit, is_punct, tolower}
use swishxx.Stem.{is_vowel}
use swishxx.Word.{
  Scan, scan_start, scan_char, scan, word_max_consec_vowels, word_max_consec_consonants,
  word_max_consec_puncts, word_max_consec_same,
}

-- The kinds of characters that the loop tells apart.
abbrev pub is_letter : ℕ → Bool
is_letter c = not (is_digit c) && not (is_punct c)

abbrev pub IsVowel : ℕ → Type 0
IsVowel c = (is_letter c ≡ true) × (is_vowel (tolower c) ≡ true)

abbrev pub IsConsonant : ℕ → Type 0
IsConsonant c = (is_letter c ≡ true) × (is_vowel (tolower c) ≡ false)

abbrev pub IsPunct : ℕ → Type 0
IsPunct c = (is_digit c ≡ false) × (is_punct c ≡ true)

-- No counter is past its limit.
pub record IsWithin (s : Scan) : Type 0 where
  pub vowels : s.consec_vowels ≤ word_max_consec_vowels
  pub consonants : s.consec_consonants ≤ word_max_consec_consonants
  pub puncts : s.consec_puncts ≤ word_max_consec_puncts
  pub same : s.consec_same ≤ word_max_consec_same

pub scan_char-IsWithin : (s s' : Scan) (c : ℕ) → IsWithin s → scan_char s c ≡ some s' → IsWithin s'
unfolding scan_char
scan_char-IsWithin s s' c w e = ground arith

-- The loop goes on from some such state behind a part of the word that it gets through.
pub scan-append :
    (s : Scan) (a b : List ℕ)
    → IsWithin s
    → scan s (a ++ b) ≡ true
    → (s' : Scan) × IsWithin s' × (scan s' b ≡ true)
unfolding scan
scan-append s [] b w h = (s, w, h)
scan-append s (c ∷ a) b w h = elim (Option-cases (scan_char s c)) [
  | inl e ↦ absurd (ground arith)
  | inr (s', e) ↦ scan-append s' a b (scan_char-IsWithin s s' c w e) (rw (e, scan) at h)
]

-- A run of one kind, counted by `count`, which each such character raises by one up to `max`.
module _ (K : ℕ → Type 0) (count : Scan → ℕ) (max : ℕ)
    (step : (s s' : Scan) (c : ℕ)
      → K c
      → scan_char s c ≡ some s'
      → (count s' ≡ count s + 1) × (count s' ≤ max)) where
  run_from :
      (s : Scan) (v b : List ℕ)
      → count s ≤ max
      → All K v
      → scan s (v ++ b) ≡ true
      → count s + length v ≤ max
  unfolding scan
  run_from s [] b l k h = omega arith
  run_from s (c ∷ v) b l k h = elim (Option-cases (scan_char s c)) [
    | inl e ↦ absurd (ground arith)
    | inr (s', e) ↦
        let (up, low) = step s s' c k.0 e in
        omega (arith, run_from s' v b low k.1 (rw (e, scan) at h))
  ]

vowel_step :
    (s s' : Scan) (c : ℕ)
    → IsVowel c
    → scan_char s c ≡ some s'
    → (s'.consec_vowels ≡ s.consec_vowels + 1) × (s'.consec_vowels ≤ word_max_consec_vowels)
unfolding scan_char
vowel_step s s' c k e = ground arith

consonant_step :
    (s s' : Scan) (c : ℕ)
    → IsConsonant c
    → scan_char s c ≡ some s'
    → (s'.consec_consonants ≡ s.consec_consonants + 1)
      × (s'.consec_consonants ≤ word_max_consec_consonants)
unfolding scan_char
consonant_step s s' c k e = ground arith

punct_step :
    (s s' : Scan) (c : ℕ)
    → IsPunct c
    → scan_char s c ≡ some s'
    → (s'.consec_puncts ≡ s.consec_puncts + 1) × (s'.consec_puncts ≤ word_max_consec_puncts)
unfolding scan_char
punct_step s s' c k e = ground arith

-- A letter that is the one before.
pub same_letter :
    (s s' : Scan) (c : ℕ)
    → is_letter c ≡ true
    → s.last_c ≡ c
    → scan_char s c ≡ some s'
    → (s'.consec_same ≡ s.consec_same + 1)
      × (s'.last_c ≡ c)
      × (s'.consec_same ≤ word_max_consec_same)
unfolding scan_char
same_letter s s' c k l e = ground arith

pub any_letter :
    (s s' : Scan) (c : ℕ) → is_letter c ≡ true → scan_char s c ≡ some s' → s'.last_c ≡ c
unfolding scan_char
any_letter s s' c k e = ground arith

run_same :
    (s : Scan) (c : ℕ) (v b : List ℕ)
    → IsWithin s
    → is_letter c ≡ true
    → s.last_c ≡ c
    → All (λ d. d ≡ c) v
    → scan s (v ++ b) ≡ true
    → s.consec_same + length v ≤ word_max_consec_same
unfolding scan
run_same s c [] b w k l a h = omega (arith, w.same)
run_same s c (d ∷ v) b w k l a h = elim (Option-cases (scan_char s d)) [
  | inl e ↦ absurd (ground arith)
  | inr (s', e) ↦
      let e' = rw (a.0) at e in
      let (up, last, low) = same_letter s s' c k l e' in
      omega
        (arith, run_same s' c v b (scan_char-IsWithin s s' d w e) k last a.1 (rw (e, scan) at h))
]

whole_run :
    (s : Scan) (c : ℕ) (v b : List ℕ)
    → IsWithin s
    → is_letter c ≡ true
    → All (λ d. d ≡ c) v
    → scan s (v ++ b) ≡ true
    → length v ≤ word_max_consec_same + 1
unfolding scan
whole_run s c [] b w k a h = omega arith
whole_run s c (d ∷ v) b w k a h = elim (Option-cases (scan_char s d)) [
  | inl e ↦ absurd (ground arith)
  | inr (s', e) ↦
      let e' = rw (a.0) at e in
      omega (
        arith,
        run_same s' c v b (scan_char-IsWithin s s' d w e) k (any_letter s s' c k e') a.1
            (rw (e, scan) at h),
      )
]

-- In a word that gets through the loop no part is longer than its limit: five vowels, seven consonants,
-- one punctuation character; and of one letter there are at most three in a row.
pub scan_runs :
    (a v b : List ℕ)
    → scan scan_start (a ++ (v ++ b)) ≡ true
    → (All IsVowel v → length v ≤ word_max_consec_vowels)
      × (All IsConsonant v → length v ≤ word_max_consec_consonants)
      × (All IsPunct v → length v ≤ word_max_consec_puncts)
      × ((c : ℕ) → is_letter c ≡ true → All (λ d. d ≡ c) v → length v ≤ word_max_consec_same + 1)
scan_runs a v b h =
    let (s, w, rest) = scan-append scan_start a (v ++ b) (omega arith) h in
    (
      λ k.
          omega (arith, run_from IsVowel (λ s. s.consec_vowels) 5 vowel_step s v b w.vowels k rest),
      λ k. omega (
        arith,
        run_from IsConsonant (λ s. s.consec_consonants) 7 consonant_step s v b w.consonants k rest,
      ),
      λ k.
          omega (arith, run_from IsPunct (λ s. s.consec_puncts) 1 punct_step s v b w.puncts k rest),
      λ c k same. whole_run s c v b w k same rest,
    )
