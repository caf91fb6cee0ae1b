-- ===== src/Tests/Merge.antt =====
-- Words that are numbers, in three partial indices.
use swishxx.Common.{ℕ, ◌≡◌, refl, arith, Bool, true, false, List, [], ◌∷◌, some, ltb, ◌==◌, ==_iff}
use swishxx.Merge.{Words, Index, merge_indicies}
use swishxx.Merge.Total.{IsMerged, merge_indicies-IsMerged}

ltb_irrefl : (a : ℕ) → ltb a a ≡ false
ltb_irrefl a = ground arith

ltb_trans : (a b c : ℕ) → ltb a b ≡ true → ltb b c ≡ true → ltb a c ≡ true
ltb_trans a b c h k = ground arith

ltb_total : (a b : ℕ) → ltb a b ≡ false → ltb b a ≡ false → a ≡ b
ltb_total a b h k = ground arith

abbrev numbers : Words
numbers = record {
  Word = ℕ;
  less = ltb;
  same = λ a b. a == b;
  same_iff = ==_iff;
  less_irrefl = ltb_irrefl;
  less_trans = ltb_trans;
  less_total = ltb_total;
}

abbrev is_one : ℕ → Bool
is_one w = w == 1

abbrev parts : List (Index numbers ℕ)
parts =
    ((1, 70 ∷ []) ∷ (5, 71 ∷ []) ∷ [])
    ∷ ((5, 72 ∷ 73 ∷ []) ∷ (6, 74 ∷ []) ∷ [])
    ∷ ((1, 75 ∷ []) ∷ (5, 76 ∷ []) ∷ [])
    ∷ []

-- The stop word 1 of the third index is written, since the loop for two indices ends before it.
stop_word_is_written :
    merge_indicies numbers ℕ is_one 7 parts
    ≡ some ((1, 75 ∷ []) ∷ (5, 71 ∷ 72 ∷ 73 ∷ 76 ∷ []) ∷ (6, 74 ∷ []) ∷ [])
unfolding merge_indicies
stop_word_is_written = refl

merge_indicies-IsMerged_example :
    IsMerged numbers ℕ is_one parts (merge_indicies numbers ℕ is_one 7 parts)
merge_indicies-IsMerged_example =
    merge_indicies-IsMerged numbers ℕ is_one 7 parts
      (((refl, tt), (tt, tt)), (((refl, tt), (tt, tt)), (((refl, tt), (tt, tt)), tt))) (omega arith)
