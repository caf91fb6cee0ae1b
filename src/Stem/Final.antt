-- ===== src/Stem/Final.antt =====
-- The stem of a word is a word again, and no longer: the copy in `word_buf` never grows past it.
use swishxx.Common.{
  ℕ, ◌≤◌, ◌<◌, ◌≡◌, refl, arith, true, ◌||◌, List, [], ◌∷◌, some, ltb, ◌==◌, if◌then◌else◌,
  Bool-cases, inl, inr, length, All,
}
use swishxx.Stem.{Buffer, replace_suffix}
use swishxx.Stem.Tables.{
  rules_1a, rules_1b, rules_1b1, rules_1c, rules_2, rules_3, rules_4, rules_5a, rules_5b,
}
use swishxx.Stem.Word.{all_alphabetic, word_hard_max_size, start, step_1b, steps, stem_word}
use swishxx.Stem.Replace.{IsLower, IsWord, IsRow, replace_suffix-Within, replace_suffix-shorter}

rows_1a : All (IsRow 0 0) rules_1a
unfolding rules_1a
rows_1a = omega arith

-- The rules that step 1b1 follows take two letters off at least.
abbrev cut_1b : ℕ → ℕ
cut_1b id = if id == 106 || id == 107 then 2 else 0

rows_1b : All (λ r. IsRow 0 (cut_1b r.id) r) rules_1b
unfolding rules_1b
rows_1b = omega arith

rows_1b1 : All (IsRow 1 0) rules_1b1
unfolding rules_1b1
rows_1b1 = omega arith

rows_1c : All (IsRow 0 0) rules_1c
unfolding rules_1c
rows_1c = omega arith

rows_2 : All (IsRow 0 0) rules_2
unfolding rules_2
rows_2 = omega arith

rows_3 : All (IsRow 0 0) rules_3
unfolding rules_3
rows_3 = omega arith

rows_4 : All (IsRow 0 0) rules_4
unfolding rules_4
rows_4 = omega arith

rows_5a : All (IsRow 0 0) rules_5a
unfolding rules_5a
rows_5a = omega arith

rows_5b : All (IsRow 0 0) rules_5b
unfolding rules_5b
rows_5b = omega arith

step_1b-shorter :
    (b : Buffer) (n : ℕ)
    → IsWord b × (length b.word ≤ n)
    → IsWord (step_1b b) × (length (step_1b b).word ≤ n)
unfolding step_1b
step_1b-shorter b n w =
    let (id, b') = replace_suffix b rules_1b in
    let (w', l) = replace_suffix-Within b 0 cut_1b rules_1b w.0 refl rows_1b in
    elim (Bool-cases (id == 106 || id == 107)) [
      | inl more ↦
          let (w'', l') = replace_suffix-Within b' 1 (λ _. 0) rules_1b1 w' refl rows_1b1 in
          rw more (w'', ground (arith, more))
      | inr done ↦ rw done (w', ground (arith, done))
    ]

-- From a word, the steps end with `word_end` at the end of the string, lower-case letters only, and no
-- more of them than the word had.
pub steps-IsWord :
    (b : Buffer) → IsWord b → IsWord (steps b) × (length (steps b).word ≤ length b.word)
unfolding steps
steps-IsWord b w =
    let n = length b.word in
    let s = replace_suffix-shorter b n rules_1a rows_1a (w, omega arith) in
    let s = step_1b-shorter _ n s in
    let s = replace_suffix-shorter _ n rules_1c rows_1c s in
    let s = replace_suffix-shorter _ n rules_2 rows_2 s in
    let s = replace_suffix-shorter _ n rules_3 rows_3 s in
    let s = replace_suffix-shorter _ n rules_4 rows_4 s in
    let s = replace_suffix-shorter _ n rules_5a rows_5a s in
    replace_suffix-shorter _ n rules_5b rows_5b s

all_alphabetic-IsLower : (w : List ℕ) → all_alphabetic w ≡ true → All IsLower w
unfolding all_alphabetic
all_alphabetic-IsLower [] h = tt
all_alphabetic-IsLower (c ∷ cs) h = ground (arith, all_alphabetic-IsLower cs)

-- A word of fewer than 25 characters has a stem: the copy in `word_buf` starts in its bounds, and is no longer at the
-- end.
stem_word-fits :
    (w : List ℕ)
    → length w < word_hard_max_size
    → (r : List ℕ) × (stem_word w ≡ some r)
      × (length r ≤ length w)
      × (all_alphabetic w ≡ true → All IsLower r)
unfolding stem_word
stem_word-fits w small = elim (Bool-cases (all_alphabetic w)) [
  | inl a ↦
      let b : ltb (length w) word_hard_max_size ≡ true = ground arith in
      let (w', l) =
        steps-IsWord (start w) (record { at_end = refl; lower = all_alphabetic-IsLower w a }) in
      (_, rw (a, b) refl, l, λ _. w'.lower)
  | inr n ↦ (w, rw n refl, omega arith, λ e. cc)
]
