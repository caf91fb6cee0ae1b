-- ===== src/Word/Parts.antt =====
-- What the parts of a word are like that gets through the second loop of `is_ok_word`.
use swishxx.Common.{
  ℕ, ◌+◌, ◌≤◌, ◌≡◌, ◌⊎◌, ◌∙◌, arith, true, false, List, [], ◌∷◌, ◌++◌, some, ◌==◌, if◌then◌else◌,
  Bool-cases, Option-cases, inl, inr, length, All,
}
use swishxx.Word.{Scan, scan_start, scan_char, scan}
use swishxx.Word.Runs.{
  is_letter, IsVowel, IsConsonant, IsPunct, IsWithin, scan_char-IsWithin, scan-append, same_letter,
  any_letter, scan_runs,
}

-- How often a character comes in a part, and a part that has it and punctuation only.
abbrev pub times : ℕ → List ℕ → ℕ
times c [] = 0
times c (d ∷ v) = (if d == c then 1 else 0) + times c v

abbrev pub IsLike : ℕ → ℕ → Type 0
IsLike c d = (d ≡ c) ⊎ IsPunct d

-- No part of the word that has characters of one kind only is larger than `max`.
abbrev pub Limit : (ℕ → Type 0) → (List ℕ → ℕ) → ℕ → List ℕ → Type 0
Limit K size max w = (a v b : List ℕ) → w ≡ a ++ (v ++ b) → All K v → size v ≤ max

-- At most five vowels in a row, seven consonants, one punctuation character; and no letter more than three times in a
-- part that has nothing else but punctuation.
pub record PartsFit (w : List ℕ) : Type 0 where
  pub few_vowels : Limit IsVowel length 5 w
  pub few_consonants : Limit IsConsonant length 7 w
  pub few_puncts : Limit IsPunct length 1 w
  pub few_same : (c : ℕ) → is_letter c ≡ true → Limit (IsLike c) (times c) 3 w

-- A letter is no punctuation.
pub not_same : (c d : ℕ) → is_letter c ≡ true → IsPunct d → (d == c) ≡ false
not_same c d l (n, y) = elim (Bool-cases (d == c)) [
  | inl same ↦ let e : d ≡ c = ground arith in absurd (ground (arith, (rw e at n), (rw e at y)))
  | inr other ↦ other
]

-- A letter and its repetitions, with punctuation between them.
punct_keeps :
    (s s' : Scan) (d : ℕ)
    → IsPunct d
    → scan_char s d ≡ some s'
    → (s'.consec_same ≡ s.consec_same) × (s'.last_c ≡ s.last_c)
unfolding scan_char
punct_keeps s s' d k e = ground arith

run_like :
    (s : Scan) (c : ℕ) (v b : List ℕ)
    → IsWithin s
    → is_letter c ≡ true
    → s.last_c ≡ c
    → All (IsLike c) v
    → scan s (v ++ b) ≡ true
    → s.consec_same + times c v ≤ 2
unfolding scan
run_like s c [] b w k l a h = omega (arith, w.same)
run_like s c (d ∷ v) b w k l (own, a) h = elim (Option-cases (scan_char s d)) [
  | inl e ↦ absurd (ground arith)
  | inr (s', e) ↦
      let w' = scan_char-IsWithin s s' d w e in
      let rest : scan s' (v ++ b) ≡ true = rw (e, scan) at h in
      elim own [
        | inl same ↦
            let (up, last, low) = same_letter s s' c k l (rw same at e) in
            let one : (d == c) ≡ true = ground arith in
            rw one (omega (arith, up, run_like s' c v b w' k last a rest))
        | inr p ↦
            let (still, last) = punct_keeps s s' d p e in
            rw (not_same c d k p) (omega (arith, still, run_like s' c v b w' k (last ∙ l) a rest))
      ]
]

whole_like :
    (s : Scan) (c : ℕ) (v b : List ℕ)
    → IsWithin s
    → is_letter c ≡ true
    → All (IsLike c) v
    → scan s (v ++ b) ≡ true
    → times c v ≤ 3
unfolding scan
whole_like s c [] b w k a h = omega arith
whole_like s c (d ∷ v) b w k (own, a) h = elim (Option-cases (scan_char s d)) [
  | inl e ↦ absurd (ground arith)
  | inr (s', e) ↦
      let w' = scan_char-IsWithin s s' d w e in
      let rest : scan s' (v ++ b) ≡ true = rw (e, scan) at h in
      elim own [
        | inl same ↦
            let last = any_letter s s' c k (rw same at e) in
            let one : (d == c) ≡ true = ground arith in
            rw one (omega (arith, run_like s' c v b w' k last a rest))
        | inr p ↦ rw (not_same c d k p) (omega (arith, whole_like s' c v b w' k a rest))
      ]
]

pub scan-PartsFit : (w : List ℕ) → scan scan_start w ≡ true → PartsFit w
scan-PartsFit w h = record {
  few_vowels = λ a v b e k. (scan_runs a v b (rw e at h)).0 k;
  few_consonants = λ a v b e k. (scan_runs a v b (rw e at h)).1 k;
  few_puncts = λ a v b e k. (scan_runs a v b (rw e at h)).2 k;
  few_same = λ c l a v b e k.
      let (s, within, rest) = scan-append scan_start a (v ++ b) (omega arith) (rw e at h) in
      whole_like s c v b within l k rest;
}
